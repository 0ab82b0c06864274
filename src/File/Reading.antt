-- ===== src/File/Reading.antt =====
-- What `dir_read` of src/ape_file.c returns.
use mathlib.Core.Path.{subst}
use prg_buildsh.Prelude.{
  ℕ, ◌≡◌, refl, sym, ap, inl, inr, Bool, false, not, some, List, [], ◌∷◌, arith, ◌==◌,
  if◌then◌else◌, Bool-cases, Text, text, pos,
}
use prg_buildsh.Machine.{
  Value, nil, number, string, table, apr_dir, Mask, field, Lua, Call, Apr, Result, ok, State,
  results, pad, failure, invoke, ape_status,
}
use prg_buildsh.Machine.{uprot}
use prg_buildsh.File.Info.{named_fields, is_nil, table2want, finfo2table}
use prg_buildsh.File.Dirs.{is_usable, ape_dir_read}
use prg_buildsh.File.Fields.{EachField, table2want_asks}
use prg_buildsh.File.Shown.{HasObjects, Entry, Entry-Grows}
use prg_buildsh.File.Filled.{finfo2table-Fills}

module _ (L : Lua) (E : Apr) (live : ℕ → E.World → Bool) (objects : HasObjects E live)
    (s : State E.World) {v : Value} {p h : ℕ} (t : ℕ) (dir : L.udata_of apr_dir v ≡ some p)
    (open_at : s.block p ≡ h) (is_open : (h == 0) ≡ false) where
  abbrev called : State E.World
  called = record s { args = v ∷ table t ∷ []; pushed = [] }

  -- After the calls of a read that has given an entry.
  abbrev filling : Mask → State E.World
  filling want =
      let w = (E.run (Call.dir_read want h) s.world).1 in
      let (pool, w2) = E.run (Call.getuvfield p (text "pool")) w in
      record s {
        args = v ∷ table t ∷ [];
        pushed = pool ∷ [];
        world = w2;
        trace = Call.getuvfield p (text "pool") ∷ Call.dir_read want h ∷ s.trace;
      }

  -- What a read leaves, given what the table asked for.
  abbrev pub EntryRead : Mask → Result ℕ × State E.World → Type 0
  EntryRead want (r, u) =
      let (rv, info) = (E.run (Call.dir_read want h) s.world).0 in
      if is_usable L E rv
      then (r ≡ ok 1)
        × (results 1 u ≡ table t ∷ [])
        × ((m : Text)
            → Entry E live named_fields want info m (s.tables t (field m)) (u.tables t (field m)) u)
      else if E.is_enoent rv
      then (r ≡ ok 1) × (results 1 u ≡ nil ∷ []) × (u.tables ≡ s.tables)
      else (r ≡ ok 3) × (results 3 u ≡ failure E rv) × (u.tables ≡ s.tables)

  dir_read-EntryRead :
      (want : Mask)
      → table2want L E 2 called ≡ (ok want, called)
      → EntryRead want (ape_dir_read L E called)
  unfolding ape_dir_read ape_status
  dir_read-EntryRead want asked =
      let (rv, info) = (E.run (Call.dir_read want h) s.world).0 in
      let filled = finfo2table-Fills E live objects info want t (filling want) in
      let u = (finfo2table E t want info (filling want)).1 in
      let run : finfo2table E t want info (filling want) ≡ (ok tt, u) = ap (λ r. (r, u)) filled.0 in
      let after : List Value → List Value → State E.World = λ args pushed. record s {
        args = args;
        pushed = pushed;
        world = (E.run (Call.dir_read want h) s.world).1;
        trace = Call.dir_read want h ∷ s.trace;
      } in
      elim (Bool-cases (is_usable L E rv)) [
        | inl usable ↦
            let e : ape_dir_read L E called
                ≡ (ok 1, record u { args = pad 2 u.args; pushed = [] }) =
              ground (arith, asked, run) in
            subst (EntryRead want) (sym e) (
              rw usable (
                refl,
                ap (λ (args : List Value). results 1 (record u { args = pad 2 args; pushed = [] }))
                    filled.1,
                λ m.
                    Entry-Grows E live named_fields want info m (s.tables t (field m))
                      (u.tables t (field m)) u (record u { args = pad 2 u.args; pushed = [] })
                      (λ q l. (l, refl)) (filled.4 m),
              ))
        | inr unusable ↦ elim (Bool-cases (E.is_enoent rv)) [
          | inl end ↦
              let e : ape_dir_read L E called ≡ (ok 1, after (v ∷ nil ∷ []) []) =
                ground (arith, asked) in
              subst (EntryRead want) (sym e) (rw (unusable, end) (refl, refl, refl))
          | inr error ↦
              let e : ape_dir_read L E called ≡ (
                ok 3,
                after (v ∷ table t ∷ []) (number (pos rv) ∷ string (E.strerror rv) ∷ nil ∷ []),
              ) =
                ground (arith, asked) in
              subst (EntryRead want) (sym e) (rw (unusable, error) (refl, refl, refl))
        ]
      ]

  -- `dir_read` on an open directory handle and a table asks APR for the fields under whose names the
  -- table has a value. On success, a partial one included, it returns the table, where the entries
  -- of these fields show what APR has filled in (times, the user and the group by an object of their
  -- type that holds the value, the permissions by a flag value made of them), or false, and other
  -- entries under strings are as before; at the end of the directory it returns nil, and on an error
  -- nil, the message and the code, both with the tables as before. This holds where a new object is
  -- none of the live ones.
  pub dir_read-results :
      (want : Mask) × EachField (λ n f. want f ≡ not (is_nil (s.tables t (field n)))) named_fields
      × (want uprot ≡ false)
      × EntryRead want (invoke (ape_dir_read L E) (v ∷ table t ∷ []) s)
  dir_read-results =
      let (want, asked, fields, none_uprot) = table2want_asks L E 2 called {t = t} refl in
      (want, fields, none_uprot, dir_read-EntryRead want asked)

-- ===== src/File/Filled.antt =====
-- What `finfo2table` of src/ape_file.c writes into a table.
use mathlib.Core.Path.{subst}
use prg_buildsh.Prelude.{
  ℕ, ◌≡◌, refl, sym, ap, ◌∙◌, inl, inr, Bool, true, false, not, ◌&&◌, ◌||◌, List, [], ◌∷◌, arith,
  ◌==◌, if◌then◌else◌, Bool-cases, eq_of_text_eq, Text, text_eq,
}
use prg_buildsh.Machine.{
  Value, boolean, Field, Mask, Finfo, Key, field, Table, Apr, Result, ok, raised, State, ◌>>◌, push,
  rawset, set_field,
}
use prg_buildsh.File.Info.{named_fields, push_value, push_if_flag, push_fields, finfo2table}
use prg_buildsh.File.Shown.{
  HasObjects, Shows, Filled, Entry, Grows, Grows-trans, Shows-Grows, Filled-Grows,
}
use prg_buildsh.File.Pushed.{Pushes, push_value-Shows}

abbrev listed : List (Text × Field) → Text → Bool
listed [] m = false
listed ((n, f) ∷ fs) m = text_eq n m || listed fs m

abbrev distinct : List (Text × Field) → Bool
distinct [] = true
distinct ((n, f) ∷ fs) = not (listed fs n) && distinct fs

module _ (E : Apr) (live : ℕ → E.World → Bool) (objects : HasObjects E live) (fi : Finfo)
    (want : Mask) where
  Entry-unlisted :
      (fs : List (Text × Field)) (m : Text) (old new : Value) (u : State E.World)
      → listed fs m ≡ false
      → Entry E live fs want fi m old new u
      → new ≡ old
  Entry-unlisted [] m old new u h e = e
  Entry-unlisted ((n, f) ∷ fs) m old new u h e = elim (Bool-cases (text_eq n m)) [
    | inl same ↦ ground (arith)
    | inr other ↦ Entry-unlisted fs m old new u (ground arith) (rw other at e)
  ]

  same_number : (n : ℕ) → (n == n) ≡ true
  same_number n = ground arith

  -- A value has been stored under a name, and the stack is as before.
  abbrev Stores : Value → ℕ → Text → State E.World → Result (Unit {0}) × State E.World → Type 0
  Stores v t n s (r, u) =
      (r ≡ ok tt)
      × (u.args ≡ s.args)
      × (u.pushed ≡ s.pushed)
      × (u.tables ≡ λ q. if t == q then rawset (field n) v (s.tables t) else s.tables q)
      × Grows E live s u

  set_field-Stores :
      (v : Value) (t : ℕ) (n : Text) (s : State E.World) (r : Result (Unit {0})) (u : State E.World)
      → Pushes E live objects fi v s (r, u)
      → Stores v t n s (((λ _. (r, u)) >> set_field t n) s)
  set_field-Stores v t n s (ok a) u h =
      let store : (ℕ → Table) → ℕ → Table =
        λ T q. if t == q then rawset (field n) v (T t) else T q in
      rw (h.2) (refl, h.1, refl, ap store h.3, h.4)
  set_field-Stores v t n s (raised e) u h = absurd (cc)

  set_field-Grows :
      (v : Value) (t : ℕ) (n : Text) (s : State E.World) (r : Result (Unit {0})) (u : State E.World)
      → Pushes E live objects fi v s (r, u)
      → Grows E live u (((λ _. (r, u)) >> set_field t n) s).1
  set_field-Grows v t n s (ok a) u h = rw (h.2) (λ q l. (l, refl))
  set_field-Grows v t n s (raised e) u h = absurd (cc)

  -- The stack is as before, and of the tables the one at t has changed at most, where it holds what
  -- the fields of the list make of its entries.
  abbrev Fills :
      ℕ → List (Text × Field) → State E.World → Result (Unit {0}) × State E.World → Type 0
  Fills t fs s (r, u) =
      (r ≡ ok tt)
      × (u.args ≡ s.args)
      × (u.pushed ≡ s.pushed)
      × ((q : ℕ) → (t == q) ≡ false → u.tables q ≡ s.tables q)
      × ((m : Text) → Entry E live fs want fi m (s.tables t (field m)) (u.tables t (field m)) u)
      × Grows E live s u

  Stores-Fills :
      (v : Value) (t : ℕ) (n : Text) (f : Field) (s : State E.World)
      (r : Result (Unit {0}) × State E.World)
      → want f ≡ true
      → (if fi.valid f then Shows E live fi f v r.1 else v ≡ boolean false)
      → Stores v t n s r
      → Fills t ((n, f) ∷ []) s r
  Stores-Fills v t n f s (r, u) wanted shown h =
      let stored : (q : ℕ) (k : Key)
          → u.tables q k ≡ (if t == q then rawset (field n) v (s.tables t) else s.tables q) k =
        λ q k. ap (λ (T : ℕ → Table). T q k) h.3 in
      (
        h.0,
        h.1,
        h.2,
        λ q other. ap (λ (T : ℕ → Table). T q) h.3 ∙ rw other refl,
        λ m. elim (Bool-cases (text_eq n m)) [
          | inl same ↦
              let e : v ≡ u.tables t (field m) =
                sym (stored t (field m) ∙ rw (same_number t, same) refl) in
              rw (same, wanted)
                (subst (λ x. if fi.valid f then Shows E live fi f x u else x ≡ boolean false) e
                  shown)
          | inr other ↦ rw other (stored t (field m) ∙ rw (same_number t, other) refl)
        ],
        h.4,
      )

  -- One field.
  push_if_flag-Fills :
      (t : ℕ) (n : Text) (f : Field) (s : State E.World)
      → Fills t ((n, f) ∷ []) s (push_if_flag E t want fi n f s)
  unfolding push_if_flag
  push_if_flag-Fills t n f s = elim (Bool-cases (want f)) [
    | inr unwanted ↦ rw unwanted (
      refl,
      refl,
      refl,
      λ q h. refl,
      λ m. elim (Bool-cases (text_eq n m)) [ inl same ↦ rw same refl | inr other ↦ rw other refl ],
      λ q l. (l, refl),
    )
    | inl wanted ↦ elim (Bool-cases (fi.valid f)) [
      | inr invalid ↦
          let pushed = push {W = E.World} (boolean false) s in
          let run : push_if_flag E t want fi n f s ≡ (push (boolean false) >> set_field t n) s =
            rw (wanted, invalid) refl in
          subst (Fills t ((n, f) ∷ []) s) (sym run) (
            Stores-Fills (boolean false) t n f s ((push (boolean false) >> set_field t n) s) wanted
              (rw invalid refl)
              (set_field-Stores (boolean false) t n s pushed.0 pushed.1
                (refl, refl, refl, refl, λ q l. (l, refl))))
      | inl valid ↦
          let (v, shows, pushes) = push_value-Shows E live objects fi f s in
          let pushed = push_value E fi f s in
          let run : push_if_flag E t want fi n f s ≡ (push_value E fi f >> set_field t n) s =
            rw (wanted, valid) refl in
          subst (Fills t ((n, f) ∷ []) s) (sym run) (
            Stores-Fills v t n f s ((push_value E fi f >> set_field t n) s) wanted
              (rw valid (
                Shows-Grows E live fi f v pushed.1 ((push_value E fi f >> set_field t n) s).1
                  (set_field-Grows v t n s pushed.0 pushed.1 pushes) shows))
              (set_field-Stores v t n s pushed.0 pushed.1 pushes))
    ]
  ]

  -- One field, and then the others, under other names.
  Fills-after :
      (t : ℕ) (n : Text) (f : Field) (fs : List (Text × Field)) (s u : State E.World)
      (r : Result (Unit {0}) × State E.World)
      → listed fs n ≡ false
      → Fills t ((n, f) ∷ []) s (ok tt, u)
      → Fills t fs u r
      → Fills t ((n, f) ∷ fs) s r
  Fills-after t n f fs s u (r, w) once h k = (
    k.0,
    k.1 ∙ h.1,
    k.2 ∙ h.2,
    λ q other. k.3 q other ∙ h.3 q other,
    λ m. elim (Bool-cases (text_eq n m)) [
      | inl same ↦
          let e : n ≡ m = eq_of_text_eq n m same in
          let e' : w.tables t (field m) ≡ u.tables t (field m) =
            Entry-unlisted fs m (u.tables t (field m)) (w.tables t (field m)) w (rw e at once)
              (k.4 m) in
          let old = s.tables t (field m) in
          rw same (
            subst (λ x. Filled E live want fi f old x w) (sym e')
              (Filled-Grows E live want fi f old (u.tables t (field m)) u w k.5
                (rw same at (h.4 m))))
      | inr other ↦ rw other (
          subst (λ x. Entry E live fs want fi m x (w.tables t (field m)) w) (rw other at (h.4 m))
            (k.4 m))
    ],
    Grows-trans E live s u w h.5 k.5,
  )

  push_fields-Fills :
      (t : ℕ) (fs : List (Text × Field)) (s : State E.World)
      → distinct fs ≡ true
      → Fills t fs s (push_fields E fs t want fi s)
  unfolding push_fields
  push_fields-Fills t [] s h = (refl, refl, refl, λ q other. refl, λ m. refl, λ q l. (l, refl))
  push_fields-Fills t ((n, f) ∷ fs) s h =
      let first = push_if_flag-Fills t n f s in
      let u = (push_if_flag E t want fi n f s).1 in
      let go_on : Result (Unit {0}) → Result (Unit {0}) × State E.World =
        λ r. ((λ _. (r, u)) >> push_fields E fs t want fi) s in
      subst (Fills t ((n, f) ∷ fs) s) (sym (ap go_on first.0)) (
        Fills-after t n f fs s u (push_fields E fs t want fi u) (ground arith)
          (refl, first.1, first.2, first.3, first.4, first.5)
          (push_fields-Fills t fs u (ground arith)))

  -- `finfo2table` leaves the stack, all other tables and the blocks of live objects as they were. In
  -- the table at t, the entry of a field that is wanted shows the field if APR has filled it in, and
  -- is false if not; any other entry under a string stays. A time, the user and the group are shown
  -- by a live object of their type that holds the value of this field, the permissions by a flag
  -- value made of them, and the other fields by their value, or false if APR has no name, and for
  -- `link` and `icase`. This holds where a new object is none of the live ones.
  pub finfo2table-Fills :
      (t : ℕ) (s : State E.World)
      → let (r, u) = finfo2table E t want fi s in
        (r ≡ ok tt)
        × (u.args ≡ s.args)
        × (u.pushed ≡ s.pushed)
        × ((q : ℕ) → (t == q) ≡ false → u.tables q ≡ s.tables q)
        × ((m : Text)
            → Entry E live named_fields want fi m (s.tables t (field m)) (u.tables t (field m)) u)
        × Grows E live s u
  unfolding finfo2table
  finfo2table-Fills t s = push_fields-Fills t named_fields s refl

-- ===== src/Extra/PathSearch.antt =====
-- The search of `find_exec` along the search path: src/ape_extra.c.
use mathlib.Core.Path.{subst}
use prg_buildsh.Prelude.{
  ℕ, ◌≡◌, refl, sym, ap, ◌∙◌, inl, inr, true, false, not, Option, none, some, List, [], ◌∷◌, ◌==◌,
  if◌then◌else◌, Bool-cases, Option-cases, Text,
}
use prg_buildsh.Machine.{
  string, Finfo, Call, PathFlags, Status, Apr, Result, ok, raised, State, M, ◌>>=◌,
}
use prg_buildsh.Extra.Search.{search_mask, check_exec, check_path}
use prg_buildsh.Extra.Located.{
  Where, at, nowhere, broken, Direct, executable, absent, fault, InPath, no_more, unmerged_absent,
  unmerged, no_path, here, faulty, further, hit, miss, bad, Looks, check_exec-Looks,
}

module _ (E : Apr) (fs : Text → Status × Finfo) (h : ℕ)
    (merge : Text → Text → Status × Option Text) where
  -- A step that leaves the stack and the memory alone, in front of the rest.
  pub Looks-after :
      (name : Text) (P Q : Where → Type 0) (s u : State E.World) (r : Result Status × State E.World)
      → u.args ≡ s.args
      → u.block ≡ s.block
      → u.tables ≡ s.tables
      → u.pushed ≡ s.pushed
      → ((w : Where) → P w → Q w)
      → Looks E name u P r
      → Looks E name s Q r
  Looks-after name P Q s u (ok rv, v) a b t p f (a', b', t', hit {path} l z q) = (
    a' ∙ a,
    b' ∙ b,
    t' ∙ t,
    hit (f (at path) l) z (q ∙ ap (λ l. string path ∷ string name ∷ l) p),
  )
  Looks-after name P Q s u (ok rv, v) a b t p f (a', b', t', miss l z q) =
      (a' ∙ a, b' ∙ b, t' ∙ t, miss (f nowhere l) z (q ∙ p))
  Looks-after name P Q s u (ok rv, v) a b t p f (a', b', t', bad l z n q) =
      (a' ∙ a, b' ∙ b, t' ∙ t, bad (f (broken rv) l) z n (q ∙ p))
  Looks-after name P Q s u (raised e, v) a b t p f l = l

  -- After the check of one directory.
  in_directory :
      (name dir path : Text) (dirs : List Text) (s : State E.World) (rest : M E.World Status)
      (r : Result Status × State E.World)
      → ((merge dir name).0 == 0) ≡ true
      → (merge dir name).1 ≡ some path
      → Looks E name s (Direct E fs path) r
      → ((u : State E.World) → Looks E name u (InPath E fs merge name dirs) (rest u))
      → Looks E name s
          (InPath E fs merge name (dir ∷ dirs))
          (((λ _. r) >>= λ rv. if E.is_enoent rv then rest else (λ v. (ok rv, v))) s)
  in_directory name dir path dirs s rest (ok rv, u) fine is (a, b, t, hit (executable good) z q)
        ih =
      let e : E.is_enoent rv ≡ false = ap E.is_enoent z ∙ E.is_enoent-success in
      rw e (a, b, t, hit (here fine is good) z q)
  in_directory name dir path dirs s rest (ok rv, u) fine is (a, b, t, miss (absent gone) z q) ih =
      rw z (
        Looks-after name (InPath E fs merge name dirs) (InPath E fs merge name (dir ∷ dirs)) s u
          (rest u) a b t q (λ w. further fine is gone) (ih u))
  in_directory name dir path dirs s rest (ok rv, u) fine is (a, b, t, bad (fault ill) z n q) ih =
      rw z (a, b, t, bad (faulty fine is ill) z n q)
  in_directory name dir path dirs s rest (raised e, u) fine is l ih = l

  pub check_path-Looks :
      (frozen : (path : Text) (w : E.World) → (E.run (Call.stat path search_mask h) w).0 ≡ fs path)
      (steady : (dir name : Text) (w : E.World)
        → (E.run (Call.filepath_merge dir name PathFlags.truename_native h) w).0 ≡ merge dir name)
      (name : Text) (dirs : List Text) (s : State E.World)
      → Looks E name s (InPath E fs merge name dirs) (check_path E name dirs h s)
  unfolding check_path
  check_path-Looks frozen steady name [] s =
      (refl, refl, refl, miss no_more E.is_enoent-enoent refl)
  check_path-Looks frozen steady name (dir ∷ dirs) s =
      let c = Call.filepath_merge dir name PathFlags.truename_native h in
      let w = (E.run c s.world).1 in
      let u : State E.World = record s { world = w; trace = c ∷ s.trace } in
      let m = merge dir name in
      let rest = check_path E name dirs h in
      let into : Status × Option Text → M E.World Status = λ z.
        (if not (z.0 == 0) then (λ v. (ok z.0, v)) else elim z.1 [
          | none ↦ (λ v. (ok E.egeneral, v))
          | some path ↦ (do
            rv ← check_exec E name path h
            if E.is_enoent rv then rest else (λ v. (ok rv, v)))
        ]) in
      subst (λ z. Looks E name s (InPath E fs merge name (dir ∷ dirs)) (into z u))
        (sym (steady dir name s.world))
        (elim (Bool-cases (m.0 == 0)) [
          | inr ill ↦ elim (Bool-cases (E.is_enoent m.0)) [
            | inl gone ↦ rw ill (refl, refl, refl, miss (unmerged_absent ill gone) gone refl)
            | inr other ↦ rw ill (refl, refl, refl, bad (unmerged ill other) other ill refl)
          ]
          | inl fine ↦ elim (Option-cases m.1) [
            | inl is_none ↦
                rw (fine, is_none)
                  (
                    refl,
                    refl,
                    refl,
                    bad (no_path fine is_none) E.is_enoent-egeneral E.egeneral_ne refl,
                  )
            | inr (path, is) ↦
                rw (fine, is)
                  (Looks-after name (InPath E fs merge name (dir ∷ dirs))
                    (InPath E fs merge name (dir ∷ dirs)) s u _ refl refl refl refl (λ w l. l)
                    (in_directory name dir path dirs u rest (check_exec E name path h u) fine is
                      (check_exec-Looks E fs h frozen name path u)
                      (λ v. check_path-Looks frozen steady name dirs v)))
          ]
        ])

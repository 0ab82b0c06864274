-- ===== src/Extra/Listing.antt =====
-- The end of the loop of `path_glob`: src/ape_extra.c.
use prg_buildsh.Prelude.{
  ◌∷◌, ℕ, zero, suc, ◌+◌, ◌<◌, ◌≤◌, ◌≡◌, Bool, true, false, not, ◌&&◌, Option, none, some, inl, inr,
  arith, ◌==◌, if◌then◌else◌, Bool-cases, Text,
}
use prg_buildsh.Machine.{
  Call, PathFlags, Apr, Result, ok, raised, State, M, index, set_table, or_empty, call, ape_status,
  pointer_of, ◌>>=◌, string,
}
use prg_buildsh.Extra.Glob.{
  LoopEnd, name_mask, is_dots, value_of, store_path, glob_loop, close_dir, glob_dir,
}
use prg_buildsh.Extra.Globbing.{open_dir, opened}

-- A Lua function that returns.
abbrev pub Returns : {W A : Type 0} → Result A × State W → Type 0
Returns (ok a, s) = Unit
Returns (raised e, s) = ⊥

-- The entries that a directory still has, in a world: a read that delivers one leaves fewer, and the
-- calls between the reads add none.
pub record IsFinite (E : Apr) (d : ℕ) (left : E.World → ℕ) : Type 0 where
  pub reads :
      (w : E.World)
      → ((E.run (Call.dir_read name_mask d) w).0.0 == 0) ≡ true
      → left (E.run (Call.dir_read name_mask d) w).1 < left w
  pub matches :
      (pattern name : Text) (w : E.World) → left (E.run (Call.fnmatch pattern name 0) w).1 ≤ left w
  pub merges :
      (dir name : Text) (pool : ℕ) (w : E.World)
      → left (E.run (Call.filepath_merge dir name PathFlags.native pool) w).1 ≤ left w

module _ (E : Apr) (d : ℕ) (left : E.World → ℕ) (finite : IsFinite E d left) (t n : ℕ) where
  if-Returns :
      {A : Type 0} (b : Bool) (m k : M E.World A) (u : State E.World)
      → Returns (m u)
      → Returns (k u)
      → Returns ((if b then m else k) u)
  if-Returns true m k u h l = h
  if-Returns false m k u h l = l

  store_path-Returns :
      (dirname : Option Text) (fname : Text) (pool k : ℕ) (more : M E.World LoopEnd)
      (u : State E.World)
      → ((v : State E.World) → left v.world ≤ left u.world → Returns (more v))
      → Returns (store_path E dirname fname pool t k more u)
  unfolding store_path
  store_path-Returns none fname pool k more u l =
      l (set_table t (index k) (string fname) u).1 (omega arith)
  store_path-Returns (some dir) fname pool k more u l =
      let c = Call.filepath_merge dir fname PathFlags.native pool in
      let ((rv, newpath), w) = E.run c u.world in
      let v = record u { world = w; trace = c ∷ u.trace } in
      if-Returns (not (rv == 0)) _ _ v tt
        (l (set_table t (index k) (value_of newpath) v).1 (finite.merges dir fname pool u.world))

  glob_loop-Returns :
      (fuel : ℕ) (fpattern : Text) (dirname : Option Text) (pool i : ℕ) (s : State E.World)
      → left s.world < fuel
      → Returns (glob_loop E fuel fpattern dirname d pool t n i s)
  unfolding glob_loop
  glob_loop-Returns zero fpattern dirname pool i s lt = absurd (omega arith)
  glob_loop-Returns (suc fuel) fpattern dirname pool i s lt =
      let ((rv, finfo), w) = E.run (Call.dir_read name_mask d) s.world in
      let fname = or_empty finfo.name in
      let (fit, w') = E.run (Call.fnmatch fpattern fname 0) w in
      let u = record s {
        world = w';
        trace = Call.fnmatch fpattern fname 0 ∷ Call.dir_read name_mask d ∷ s.trace;
      } in
      elim (Bool-cases (rv == 0)) [
        | inr over ↦ rw over tt
        | inl entry ↦
            let fewer = finite.reads s.world entry in
            let kept = finite.matches fpattern fname w in
            rw entry (
              if-Returns (not ((fit == 0) && not (is_dots fname))) _ _ u
                (glob_loop-Returns fuel fpattern dirname pool i u (omega arith))
                (store_path-Returns dirname fname pool (n + i) _ u
                  (λ v le. glob_loop-Returns fuel fpattern dirname pool (i + 1) v (omega arith))))
      ]

  close_dir-Returns :
      (u : State E.World) (r : Result LoopEnd × State E.World)
      → Returns r
      → Returns (((λ _. r) >>= close_dir E d t) u)
  unfolding close_dir ape_status
  close_dir-Returns u (ok (LoopEnd.early rv), v) h = elim (Bool-cases (rv == 0)) [
    | inl good ↦ rw good tt
    | inr bad ↦ rw bad tt
  ]
  close_dir-Returns u (ok (LoopEnd.finished rv), v) h =
      elim (Bool-cases ((if E.is_enoent rv then 0 else rv) == 0)) [
        | inl good ↦ rw good tt
        | inr bad ↦ rw bad tt
      ]
  close_dir-Returns u (raised e, v) h = h

module _ (E : Apr) (dirname : Option Text) (pool : ℕ) (s : State E.World) where
  -- `path_glob` comes to an end: if the directory that it opens has finitely many entries left, and
  -- there are more rounds than entries, it returns.
  pub glob_dir-Returns :
      (fuel : ℕ) (fpattern : Text) (t n : ℕ) (left : E.World → ℕ)
      → (opened E dirname pool s).0 ≡ 0
      → IsFinite E (pointer_of (opened E dirname pool s).1) left
      → left (E.run (open_dir E dirname pool s) s.world).1 < fuel
      → Returns (glob_dir E fuel fpattern dirname pool t n s)
  unfolding glob_dir
  glob_dir-Returns fuel fpattern t n left good finite lt =
      let o = opened E dirname pool s in
      let d = pointer_of o.1 in
      let u = (call E (open_dir E dirname pool s) s).1 in
      rw good (
        close_dir-Returns E d left finite t n u (glob_loop E fuel fpattern dirname d pool t n 1 u)
          (glob_loop-Returns E d left finite t n fuel fpattern dirname pool 1 u lt))

-- ===== src/Extra/Globbing.antt =====
-- The effects of `path_glob`: src/ape_extra.c.
use prg_buildsh.Prelude.{
  ==_iff, text, ap, Bool-cases, inl, inr, ℕ, zero, suc, ◌+◌, ◌<◌, ◌≡◌, refl, ◌∙◌, Bool, true, false,
  not, ◌&&◌, ◌||◌, Option, none, some, List, [], ◌∷◌, arith, leb, ◌==◌, if◌then◌else◌, Text,
}
use prg_buildsh.Machine.{
  ape_status, Status, pointer_of, count, ◌>>=◌, Value, string, Key, index, field, Call, PathFlags,
  Apr, Result, ok, raised, out_of_fuel, bad_argument, bad_top, invalid_key, failed, State, M, ◌>>◌,
  set_table, or_empty, call,
}
use prg_buildsh.Extra.Glob.{
  close_dir, glob_dir, LoopEnd, name_mask, is_dots, value_of, store_path, glob_loop,
}

abbrev is_dir_close : ℕ → Call → Bool
is_dir_close d (Call.dir_close g) = d == g
is_dir_close d _ = false

-- How often a trace closes the directory d.
abbrev pub dir_closes : ℕ → List Call → ℕ
dir_closes d [] = 0
dir_closes d (c ∷ cs) = let n = dir_closes d cs in if is_dir_close d c then suc n else n

-- The keys that no element behind the first n has.
abbrev pub is_old : ℕ → Key → Bool
is_old n (index j) = leb j n
is_old n _ = true

module _ {W : Type 0} (d t n : ℕ) where
  -- Nothing but elements of the table t behind its first n has changed, and the directory has not
  -- been closed.
  abbrev Kept : State W → State W → Type 0
  Kept s u =
      (u.block ≡ s.block)
      × (u.pushed ≡ s.pushed)
      × ((q : ℕ) (k : Key) → (not (t == q) || is_old n k) ≡ true → u.tables q k ≡ s.tables q k)
      × (dir_closes d u.trace ≡ dir_closes d s.trace)

  Kept-trans : (s u v : State W) → Kept s u → Kept u v → Kept s v
  Kept-trans s u v (b, p, k, c) (b', p', k', c') =
      (b' ∙ b, p' ∙ p, λ q key h. k' q key h ∙ k q key h, c' ∙ c)

  set_table-old :
      (i : ℕ) (v : Value) (s : State W) (q : ℕ) (k : Key)
      → 0 < i
      → (not (t == q) || is_old n k) ≡ true
      → (set_table t (index (n + i)) v s).1.tables q k ≡ s.tables q k
  set_table-old i v s q (field f) lt h = ground arith
  set_table-old i v s q (Key.object o) lt h = ground arith
  set_table-old i v s q (index j) lt h = ground arith

  set_table-Kept :
      (i : ℕ) (v : Value) (s : State W) → 0 < i → Kept s (set_table t (index (n + i)) v s).1
  set_table-Kept i v s lt = (refl, refl, (λ q k h. set_table-old i v s q k lt h), refl)

module _ (E : Apr) (d t n : ℕ) where
  -- The loop, whatever it ends with, has kept what was there.
  abbrev KeptLoop : State E.World → Result LoopEnd × State E.World → Type 0
  KeptLoop s (ok e, u) = Kept d t n s u
  KeptLoop s (raised out_of_fuel, u) = Unit
  KeptLoop s (raised _, u) = ⊥

  KeptLoop-trans :
      (s u : State E.World) (r : Result LoopEnd × State E.World)
      → Kept d t n s u
      → KeptLoop u r
      → KeptLoop s r
  KeptLoop-trans s u (ok e, v) k l = Kept-trans d t n s u v k l
  KeptLoop-trans s u (raised out_of_fuel, v) k l = tt
  KeptLoop-trans s u (raised (bad_argument i), v) k l = l
  KeptLoop-trans s u (raised bad_top, v) k l = l
  KeptLoop-trans s u (raised invalid_key, v) k l = l
  KeptLoop-trans s u (raised (failed m c), v) k l = l

  same-Kept : (s : State E.World) → Kept d t n s s
  same-Kept s = (refl, refl, (λ q k h. refl), refl)

  if-KeptLoop :
      (b : Bool) (m k : M E.World LoopEnd) (s u : State E.World)
      → KeptLoop s (m u)
      → KeptLoop s (k u)
      → KeptLoop s ((if b then m else k) u)
  if-KeptLoop true m k s u h l = h
  if-KeptLoop false m k s u h l = l

  -- One more path is stored, and the loop goes on.
  store_more :
      (more : M E.World LoopEnd) (i : ℕ) (v : Value) (s u : State E.World)
      → 0 < i
      → Kept d t n s u
      → ((w : State E.World) → KeptLoop w (more w))
      → KeptLoop s ((set_table t (index (n + i)) v >> more) u)
  store_more more i v s u lt k l =
      let w = (set_table t (index (n + i)) v u).1 in
      KeptLoop-trans s w (more w) (Kept-trans d t n s u w k (set_table-Kept d t n i v u lt)) (l w)

  store_path-KeptLoop :
      (dirname : Option Text) (fname : Text) (pool i : ℕ) (more : M E.World LoopEnd)
      (s u : State E.World)
      → 0 < i
      → Kept d t n s u
      → ((w : State E.World) → KeptLoop w (more w))
      → KeptLoop s (store_path E dirname fname pool t (n + i) more u)
  unfolding store_path
  store_path-KeptLoop none fname pool i more s u lt k l =
      store_more more i (string fname) s u lt k l
  store_path-KeptLoop (some name) fname pool i more s u lt k l =
      let c = Call.filepath_merge name fname PathFlags.native pool in
      let ((rv, newpath), w) = E.run c u.world in
      let v = record u { world = w; trace = c ∷ u.trace } in
      if-KeptLoop (not (rv == 0)) _ _ s v k (store_more more i (value_of newpath) s v lt k l)

  glob_loop-KeptLoop :
      (fuel : ℕ) (fpattern : Text) (dirname : Option Text) (pool i : ℕ) (s : State E.World)
      → 0 < i
      → KeptLoop s (glob_loop E fuel fpattern dirname d pool t n i s)
  unfolding glob_loop
  glob_loop-KeptLoop zero fpattern dirname pool i s lt = tt
  glob_loop-KeptLoop (suc fuel) fpattern dirname pool i s lt =
      let ((rv, finfo), w) = E.run (Call.dir_read name_mask d) s.world in
      let fname = or_empty finfo.name in
      let (fit, w') = E.run (Call.fnmatch fpattern fname 0) w in
      let u = record s {
        world = w';
        trace = Call.fnmatch fpattern fname 0 ∷ Call.dir_read name_mask d ∷ s.trace;
      } in
      let again : (k : ℕ)
          → 0 < k
          → (v : State E.World) → KeptLoop v (glob_loop E fuel fpattern dirname d pool t n k v) =
        λ k pos v. glob_loop-KeptLoop fuel fpattern dirname pool k v pos in
      if-KeptLoop (not (rv == 0)) _ _ s (call E (Call.dir_read name_mask d) s).1 (same-Kept s) (
        if-KeptLoop (not ((fit == 0) && not (is_dots fname))) _ _ s u
          (KeptLoop-trans s u _ (same-Kept s) (again i lt u))
          (store_path-KeptLoop dirname fname pool i _ s u lt (same-Kept s)
            (again (i + 1) (omega arith))))

module _ (E : Apr) (d t n : ℕ) where
  -- Memory and the old entries are as before, and the directory has been closed once.
  abbrev pub ClosedAfter : State E.World → State E.World → Type 0
  ClosedAfter s u =
      (u.block ≡ s.block)
      × ((q : ℕ) (k : Key) → (not (t == q) || is_old n k) ≡ true → u.tables q k ≡ s.tables q k)
      × (dir_closes d u.trace ≡ suc (dir_closes d s.trace))

  -- Whatever is returned.
  abbrev pub Preserves : State E.World → Result ℕ × State E.World → Type 0
  Preserves s (ok m, u) = ClosedAfter s u
  Preserves s (raised out_of_fuel, u) = Unit
  Preserves s (raised _, u) = ⊥

  ape_status-Preserves :
      (k : ℕ) (rv : Status) (s u : State E.World)
      → ClosedAfter s u
      → Preserves s (ape_status E (count k) rv u)
  unfolding ape_status
  ape_status-Preserves k rv s u c = elim (Bool-cases (rv == 0)) [
    | inl good ↦ rw good c
    | inr bad ↦ rw bad c
  ]

  -- The state when the directory has been closed.
  abbrev closed : State E.World → State E.World
  closed u = (call E (Call.dir_close d) u).1

  closed-ClosedAfter :
      (s u v : State E.World) → Kept d t n s u → Kept d t n u v → ClosedAfter s (closed v)
  closed-ClosedAfter s u v k l =
      let (b, p, tab, c) = Kept-trans d t n s u v k l in
      (b, tab, rw ((==_iff d d).1 refl) (ap suc c))

  close_dir-Preserves :
      (s u : State E.World) (r : Result LoopEnd × State E.World)
      → Kept d t n s u
      → KeptLoop E d t n u r
      → Preserves s (((λ _. r) >>= close_dir E d t) u)
  unfolding close_dir
  close_dir-Preserves s u (ok (LoopEnd.early rv), v) k l =
      ape_status-Preserves 0 rv s (closed v) (closed-ClosedAfter s u v k l)
  close_dir-Preserves s u (ok (LoopEnd.finished rv), v) k l =
      ape_status-Preserves 1 (if E.is_enoent rv then 0 else rv) s
        (record (closed v) { pushed = Value.table t ∷ v.pushed }) (closed-ClosedAfter s u v k l)
  close_dir-Preserves s u (raised out_of_fuel, v) k l = tt
  close_dir-Preserves s u (raised (bad_argument i), v) k l = l
  close_dir-Preserves s u (raised bad_top, v) k l = l
  close_dir-Preserves s u (raised invalid_key, v) k l = l
  close_dir-Preserves s u (raised (failed m c), v) k l = l

module _ (E : Apr) (dirname : Option Text) (pool : ℕ) (s : State E.World) where
  abbrev pub open_dir : Call
  open_dir = Call.dir_open (elim dirname [ none ↦ text "." | some d ↦ d ]) pool

  abbrev pub opened : Status × Option ℕ
  opened = (E.run open_dir s.world).0

  -- Once `path_glob` has opened a directory it closes it exactly once before it returns, on success
  -- and on every error, and raises no Lua error; memory is as before, and of the tables only elements
  -- of the result behind its first n, which it had at the start, have changed. The loop over the
  -- directory may only run out of the rounds that the model gives it.
  pub glob_dir-Preserves :
      (fuel : ℕ) (fpattern : Text) (t n : ℕ)
      → (opened.0 == 0) ≡ true
      → Preserves E (pointer_of opened.1) t n s (glob_dir E fuel fpattern dirname pool t n s)
  unfolding glob_dir
  glob_dir-Preserves fuel fpattern t n good =
      let d = pointer_of opened.1 in
      let u = (call E open_dir s).1 in
      rw good (
        close_dir-Preserves E d t n s u (glob_loop E fuel fpattern dirname d pool t n 1 u)
          (same-Kept E d t n s)
          (glob_loop-KeptLoop E d t n fuel fpattern dirname pool 1 u (omega arith)))

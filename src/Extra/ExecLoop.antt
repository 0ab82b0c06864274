-- ===== src/Extra/ExecLoop.antt =====
-- The loop of `find_exec` over the names: src/ape_extra.c.
use mathlib.Core.Path.{subst}
use prg_buildsh.Prelude.{
  ℕ, ◌+◌, ◌-◌, ◌≡◌, refl, sym, ap, ◌∙◌, inl, inr, false, Option, some, List, [], ◌∷◌, ◌++◌, map,
  arith, if◌then◌else◌, Bool-cases, length, get_elem?, Text, c_string,
}
use prg_buildsh.Machine.{
  Value, string, Finfo, Lua, Call, PathFlags, Status, Apr, Result, ok, raised, State, M, results,
  count, ape_status,
}
use prg_buildsh.Extra.Search.{search_mask, check_exec, check_path, has_separator, find_exec_loop}
use prg_buildsh.Extra.Suffix.{get_elem?-append, position, next_index, next_args}
use prg_buildsh.Extra.Located.{nowhere, Direct, InPath, hit, miss, bad, Looks, check_exec-Looks}
use prg_buildsh.Extra.PathSearch.{Looks-after, check_path-Looks}
use prg_buildsh.Extra.ExecFound.{
  Located, direct, searched, Finds, nothing, found, failed_at, passed, Leaves,
}

module _ (L : Lua) (E : Apr) (fs : Text → Status × Finfo)
    (merge : Text → Text → Status × Option Text) (dirsep : ℕ) where
  -- Memory that is that of s, and the same results.
  pub Leaves-from :
      (P Q : List Value → Type 0) (s u : State E.World) (r : Result ℕ × State E.World)
      → u.block ≡ s.block
      → u.tables ≡ s.tables
      → ((out : List Value) → P out → Q out)
      → Leaves L E fs merge dirsep P u r
      → Leaves L E fs merge dirsep Q s r
  Leaves-from P Q s u (ok n, v) b t f (b', t', h) = (b' ∙ b, t' ∙ t, f (results n v) h)
  Leaves-from P Q s u (raised e, v) b t f h = h

  passed_on :
      (dirs : List Text) (x : Text) (xs : List Text) (s t : State E.World)
      (r : Result ℕ × State E.World)
      → t.block ≡ s.block
      → t.tables ≡ s.tables
      → Located L E fs merge dirsep dirs (c_string x) nowhere
      → Leaves L E fs merge dirsep (Finds L E fs merge dirsep dirs xs) t r
      → Leaves L E fs merge dirsep (Finds L E fs merge dirsep dirs (x ∷ xs)) s r
  passed_on dirs x xs s t (ok n, u) b tb l (b', tb', ih) = (b' ∙ b, tb' ∙ tb, passed l ih)
  passed_on dirs x xs s t (raised e, u) b tb l ih = ih

  -- What the loop does with the status of a check.
  abbrev go_on : M E.World ℕ → Result Status × State E.World → Result ℕ × State E.World
  go_on rest (ok rv, t) = (if E.is_enoent rv then rest else ape_status E (count 2) rv) t
  go_on rest (raised e, t) = (raised e, t)

  round :
      (dirs : List Text) (x : Text) (xs : List Text) (s : State E.World) (rest : M E.World ℕ)
      (r : Result Status × State E.World)
      → Looks E (c_string x) s (Located L E fs merge dirsep dirs (c_string x)) r
      → ((u : State E.World)
          → u.args ≡ s.args
          → Leaves L E fs merge dirsep (Finds L E fs merge dirsep dirs xs) u (rest u))
      → Leaves L E fs merge dirsep (Finds L E fs merge dirsep dirs (x ∷ xs)) s (go_on rest r)
  unfolding ape_status
  round dirs x xs s rest (ok rv, u) (a, b, t, hit {path} l z p) ih =
      let e : E.is_enoent rv ≡ false = ap E.is_enoent z ∙ E.is_enoent-success in
      let pair = λ (vs : List Value).
        Finds L E fs merge dirsep dirs (x ∷ xs) (results 2 (record u { pushed = vs })) in
      rw (e, z) (b, t, subst pair (sym p) (found l))
  round dirs x xs s rest (ok rv, u) (a, b, t, miss l z p) ih =
      rw z (passed_on dirs x xs s u (rest u) b t l (ih u a))
  round dirs x xs s rest (ok rv, u) (a, b, t, bad l z n p) ih = rw (z, n) (b, t, failed_at l)
  round dirs x xs s rest (raised e, u) l ih = absurd l

module _ (L : Lua) (E : Apr) (h : ℕ) (fs : Text → Status × Finfo)
    (merge : Text → Text → Status × Option Text)
    (frozen : (path : Text) (w : E.World) → (E.run (Call.stat path search_mask h) w).0 ≡ fs path)
    (steady : (dir name : Text) (w : E.World)
      → (E.run (Call.filepath_merge dir name PathFlags.truename_native h) w).0 ≡ merge dir name)
    (dirsep : ℕ) where
  abbrev check : List Text → Text → M E.World Status
  check dirs name =
      if has_separator L E dirsep name then check_exec E name name h else check_path E name dirs h

  check-Looks :
      (dirs : List Text) (name : Text) (s : State E.World)
      → Looks E name s (Located L E fs merge dirsep dirs name) (check dirs name s)
  check-Looks dirs name s = elim (Bool-cases (has_separator L E dirsep name)) [
    | inl has ↦ rw has (
        Looks-after E fs h merge name (Direct E fs name) (Located L E fs merge dirsep dirs name) s s
          (check_exec E name name h s) refl refl refl refl (λ w l. direct has l)
          (check_exec-Looks E fs h frozen name name s))
    | inr without ↦ rw without (
        Looks-after E fs h merge name (InPath E fs merge name dirs)
          (Located L E fs merge dirsep dirs name) s s (check_path E name dirs h s) refl refl refl
          refl (λ w l. searched without l)
          (check_path-Looks E fs h merge frozen steady name dirs s))
  ]

  loop_step :
      (dirs : List Text) (tail pre : List Value) (x : Text) (xs : List Text) (s : State E.World)
      → s.args ≡ pre ++ (map string (x ∷ xs) ++ tail)
      → find_exec_loop L E dirsep dirs h (length pre + 1) (length (x ∷ xs)) s
        ≡ go_on L E fs merge dirsep
            (find_exec_loop L E dirsep dirs h (length pre + 1 + 1) (length xs))
            (check dirs (c_string x) s)
  unfolding find_exec_loop
  loop_step dirs tail pre x xs s e =
      let a : get_elem? s.args (length pre + 1 - 1) ≡ some (string x) =
        rw (e, position (length pre)) (get_elem?-append pre (string x) (map string xs ++ tail)) in
      ground (arith, a, L.string_of-string x)

  pub find_exec_loop-Leaves :
      (dirs : List Text) (tail pre : List Value) (names : List Text) (s : State E.World)
      → s.args ≡ pre ++ (map string names ++ tail)
      → Leaves L E fs merge dirsep
          (Finds L E fs merge dirsep dirs names)
          s
          (find_exec_loop L E dirsep dirs h (length pre + 1) (length names) s)
  find_exec_loop-Leaves dirs tail pre [] s e = unfold find_exec_loop in (refl, refl, nothing)
  find_exec_loop-Leaves dirs tail pre (x ∷ xs) s e =
      let rest = find_exec_loop L E dirsep dirs h (length pre + 1 + 1) (length xs) in
      subst (Leaves L E fs merge dirsep (Finds L E fs merge dirsep dirs (x ∷ xs)) s)
        (sym (loop_step dirs tail pre x xs s e))
        (round L E fs merge dirsep dirs x xs s rest (check dirs (c_string x) s)
          (check-Looks dirs (c_string x) s)
          (λ u same. rw (next_index pre x) at (
            find_exec_loop-Leaves dirs tail (pre ++ (string x ∷ [])) xs u
              (next_args pre (string x) (map string xs ++ tail) u (same ∙ e)))))

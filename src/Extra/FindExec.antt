-- ===== src/Extra/FindExec.antt =====
-- What `find_exec` finds, where neither the file system nor the path names change meanwhile:
-- src/ape_extra.c.
use mathlib.Core.Path.{subst}
use prg_buildsh.Prelude.{
  ℕ, ◌+◌, ◌-◌, ◌≡◌, refl, sym, ◌∙◌, inl, inr, true, not, Option, none, some, List, [], ◌∷◌, ◌++◌,
  map, arith, ◌==◌, if◌then◌else◌, Bool-cases, Option-cases, length, length-append, get_elem?, Text,
  text,
}
use prg_buildsh.Machine.{
  userdata, apr_pool, invoke, Value, string, Finfo, Lua, Call, PathFlags, Status, Apr, State, M,
  count, ape_status,
}
use prg_buildsh.Extra.Search.{
  search_mask, find_exec_loop, find_exec_names, trailing_pool, ape_extra_find_exec,
}
use prg_buildsh.Extra.Find.{last_position}
use prg_buildsh.Extra.Suffix.{length-map_string, get_elem?-append}
use prg_buildsh.Extra.ExecFound.{
  Finds, FindsExec, no_variable, no_value, not_split, no_list, in_directories, Leaves,
}
use prg_buildsh.Extra.ExecLoop.{Leaves-from, find_exec_loop-Leaves}

module _ (L : Lua) (E : Apr) (h : ℕ) (fs : Text → Status × Finfo)
    (merge : Text → Text → Status × Option Text)
    (frozen : (path : Text) (w : E.World) → (E.run (Call.stat path search_mask h) w).0 ≡ fs path)
    (steady : (dir name : Text) (w : E.World)
      → (E.run (Call.filepath_merge dir name PathFlags.truename_native h) w).0 ≡ merge dir name)
    (dirsep : ℕ) where
  -- After the directories of PATH have been asked for.
  directories-Leaves :
      (variable : Status × Option Text) (split : Text → Status × Option (List Text)) (value : Text)
      (names : List Text) (tail : List Value) (s u : State E.World)
      → (variable.0 == 0) ≡ true
      → variable.1 ≡ some value
      → s.args ≡ map string names ++ tail
      → u.args ≡ s.args
      → u.block ≡ s.block
      → u.tables ≡ s.tables
      → Leaves L E fs merge dirsep (FindsExec L E fs merge dirsep variable split names) s (
          (if not ((split value).0 == 0)
              then ape_status E (count 0) (split value).0
              else elim (split value).1 [
                | none ↦ ape_status E (count 0) E.egeneral
                | some dirs ↦ find_exec_loop L E dirsep dirs h 1 (length names)
              ])
            u)
  unfolding ape_status
  directories-Leaves variable split value names tail s u good is e a b t =
      elim (Bool-cases ((split value).0 == 0)) [
        | inr ill ↦ rw ill (b, t, not_split good is ill refl)
        | inl fine ↦ elim (Option-cases (split value).1) [
          | inl is_none ↦
              rw (fine, is_none, E.egeneral_ne) (b, t, no_list good is fine is_none refl)
          | inr (dirs, are) ↦
              rw (fine, are)
                (Leaves-from L E fs merge dirsep (Finds L E fs merge dirsep dirs names)
                  (FindsExec L E fs merge dirsep variable split names) s u
                  (find_exec_loop L E dirsep dirs h 1 (length names) u) b t
                  (λ out found. in_directories good is fine are found)
                  (find_exec_loop-Leaves L E h fs merge frozen steady dirsep dirs tail [] names u
                    (a ∙ e)))
        ]
      ]

  names-Leaves :
      (split : Text → Status × Option (List Text))
      (settled : (value : Text) (w : E.World)
        → (E.run (Call.filepath_list_split value h) w).0 ≡ split value)
      (names : List Text) (tail : List Value) (s : State E.World)
      → s.args ≡ map string names ++ tail
      → let variable = (E.run (Call.env_get (text "PATH") h) s.world).0 in
        Leaves L E fs merge dirsep
          (FindsExec L E fs merge dirsep variable split names)
          s
          (find_exec_names L E dirsep h (length names) s)
  unfolding find_exec_names ape_status
  names-Leaves split settled names tail s e =
      let c = Call.env_get (text "PATH") h in
      let variable = (E.run c s.world).0 in
      let u : State E.World = record s { world = (E.run c s.world).1; trace = c ∷ s.trace } in
      elim (Bool-cases (variable.0 == 0)) [
        | inr ill ↦ rw ill (refl, refl, no_variable ill refl)
        | inl fine ↦ elim (Option-cases variable.1) [
          | inl is_none ↦ rw (fine, is_none, E.egeneral_ne) (refl, refl, no_value fine is_none refl)
          | inr (value, is) ↦
              let c' = Call.filepath_list_split value h in
              let v : State E.World = record u {
                world = (E.run c' u.world).1;
                trace = c' ∷ u.trace;
              } in
              let into : Status × Option (List Text) → M E.World ℕ = λ z.
                (if not (z.0 == 0) then ape_status E (count 0) z.0 else elim z.1 [
                  | none ↦ ape_status E (count 0) E.egeneral
                  | some dirs ↦ find_exec_loop L E dirsep dirs h 1 (length names)
                ]) in
              rw (fine, is)
                (subst
                  (λ z.
                    Leaves L E fs merge dirsep (FindsExec L E fs merge dirsep variable split names)
                      s (into z v))
                  (sym (settled value u.world))
                  (directories-Leaves variable split value names tail s v fine is e refl refl refl))
        ]
      ]

  -- `find_exec` on names and a pool, where `apr_stat`, the merging of path names and the splitting of
  -- PATH answer alike at all times. It returns the failure to get PATH or to split it. Else the
  -- first name decides that leads to an executable file, or whose search fails: the results are the
  -- name and the path of the file, or the failure; without such a name the result is nil. A name
  -- with a directory separator is a path by itself, any other is looked for in the directories in
  -- order. There is no Lua error, and no memory changes.
  pub find_exec_finds :
      (split : Text → Status × Option (List Text))
      (settled : (value : Text) (w : E.World)
        → (E.run (Call.filepath_list_split value h) w).0 ≡ split value)
      (names : List Text) (q : ℕ) {p : ℕ} (s : State E.World)
      → L.udata_of apr_pool (userdata q) ≡ some p
      → L.string_of (userdata q) ≡ none
      → s.block p ≡ h
      → let variable = (E.run (Call.env_get (text "PATH") h) s.world).0 in
        Leaves L E fs merge dirsep
          (FindsExec L E fs merge dirsep variable split names)
          s
          (invoke (ape_extra_find_exec L E dirsep) (map string names ++ (userdata q ∷ [])) s)
  unfolding ape_extra_find_exec trailing_pool
  find_exec_finds split settled names q {p} s pool no_string at_p =
      let args = map string names ++ (userdata q ∷ []) in
      let t : State E.World = record s { args = args; pushed = [] } in
      let n : length args ≡ length names + 1 =
        omega
          (arith, length-append (map string names) (userdata q ∷ []), length-map_string names) in
      let l : get_elem? args (length args - 1) ≡ some (userdata q) =
        rw (last_position names q) (get_elem?-append (map string names) (userdata q) []) in
      let e : ape_extra_find_exec L E dirsep t ≡ find_exec_names L E dirsep h (length names) t =
        ground (arith, n, l, no_string, pool, at_p) in
      let variable = (E.run (Call.env_get (text "PATH") h) s.world).0 in
      subst (Leaves L E fs merge dirsep (FindsExec L E fs merge dirsep variable split names) s)
        (sym e)
        (Leaves-from L E fs merge dirsep (FindsExec L E fs merge dirsep variable split names)
          (FindsExec L E fs merge dirsep variable split names) s t
          (find_exec_names L E dirsep h (length names) t) refl refl (λ out found. found)
          (names-Leaves split settled names (userdata q ∷ []) t refl))

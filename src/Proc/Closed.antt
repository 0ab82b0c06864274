-- ===== src/Proc/Closed.antt =====
-- Closed files among the attributes of a process: src/ape_proc.c.
use prg_buildsh.Prelude.{ℕ, Bool, ◌≡◌, ◌⊎◌, some, List, [], ◌∷◌, Text, text, arith}
use prg_buildsh.Machine.{
  Value, apr_file, Lua, Apr, State, value_at, Refuses, Each, named, ape_status,
}
use prg_buildsh.Proc.Attr.{
  ape_procattr_child_in_set, ape_procattr_child_out_set, ape_procattr_child_err_set,
}
use prg_buildsh.Proc.Names.{ape_procattr_methods}

-- The methods that take the two ends of a pipe.
abbrev pub pipe_methods : List Text
pipe_methods = text "child_in_set" ∷ text "child_out_set" ∷ text "child_err_set" ∷ []

module _ (L : Lua) (E : Apr) (s : State E.World) {i : ℕ} {v : Value} {p : ℕ}
    (end_at : (i ≡ 2) ⊎ (i ≡ 3)) (given : value_at i s ≡ some v)
    (file : L.udata_of apr_file v ≡ some p) (closed : s.block p ≡ 0) where
  child_in_set-closed : Refuses E E.ebadf s (ape_procattr_child_in_set L E s)
  unfolding ape_procattr_child_in_set ape_status
  child_in_set-closed = ground (arith, E.ebadf_ne)

  child_out_set-closed : Refuses E E.ebadf s (ape_procattr_child_out_set L E s)
  unfolding ape_procattr_child_out_set ape_status
  child_out_set-closed = ground (arith, E.ebadf_ne)

  child_err_set-closed : Refuses E E.ebadf s (ape_procattr_child_err_set L E s)
  unfolding ape_procattr_child_err_set ape_status
  child_err_set-closed = ground (arith, E.ebadf_ne)

  -- A stream of a child is never set to a closed file: where the second or the third argument of one
  -- of the three methods is a file handle that is NULL, the method makes no call and changes no
  -- memory but its stack, and raises an argument error or returns EBADF.
  pub closed_streams_refused :
      (required : Bool)
      → Each
          (λ f. Refuses E E.ebadf s (f s))
          (named pipe_methods (ape_procattr_methods L E required))
  unfolding ape_procattr_methods
  closed_streams_refused required =
      (child_in_set-closed, (child_out_set-closed, (child_err_set-closed, tt)))

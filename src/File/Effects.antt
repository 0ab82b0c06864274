-- ===== src/File/Effects.antt =====
-- How file handles are opened, written and closed.
use prg_buildsh.Prelude.{
  ◌≤◌, c_string, text, min, ltb, length, Text, ℤ, ℕ, ◌≡◌, inl, inr, true, false, ◌&&◌, some, [],
  ◌∷◌, arith, ◌==◌, if◌then◌else◌, Bool-cases,
}
use prg_buildsh.Machine.{
  userdata, pointer_of, oflags, fperms, apr_pool, invoke, Untouched, is_none_or_nil, Value, boolean,
  apr_file, Lua, Call, Apr, ok, State, value_at, results, failure, ape_status,
}
use prg_buildsh.File.Open.{ape_file_open}
use prg_buildsh.File.Handles.{ape_file_gc, ape_file_write, ape_file_close}

module _ (L : Lua) (E : Apr) (s : State E.World) {v : Value} {p h : ℕ}
    (given : value_at 1 s ≡ some v) (file : L.udata_of apr_file v ≡ some p)
    (open_at : s.block p ≡ h) (is_open : (h == 0) ≡ false) where
  -- `close` on an open handle closes it once, and returns true or the failure of that call. The
  -- handle becomes NULL if the call succeeded and stays if not; no other memory changes.
  pub close_open :
      let (rv, w) = E.run (Call.file_close h) s.world in
      let (r, t) = ape_file_close L E s in
      (t.world ≡ w)
      × (t.trace ≡ Call.file_close h ∷ s.trace)
      × ((q : ℕ) → t.block q ≡ (if (rv == 0) && (p == q) then 0 else s.block q))
      × (t.tables ≡ s.tables)
      × ((n : ℕ) × (r ≡ ok n)
          × (results n t ≡ (if rv == 0 then boolean true ∷ [] else failure E rv)))
  unfolding ape_file_close ape_status
  close_open = elim (Bool-cases ((E.run (Call.file_close h) s.world).0 == 0)) [
    | inl fine ↦ (
      ground arith,
      ground arith,
      λ q. ground arith,
      ground arith,
      (1, ground arith, ground arith),
    )
    | inr bad ↦ (
      ground arith,
      ground arith,
      λ q. ground arith,
      ground arith,
      (3, ground arith, ground arith),
    )
  ]

  -- After a `close` that succeeded the finalizer of the same object makes no call.
  pub gc-close :
      {v' : Value}
      → (E.run (Call.file_close h) s.world).0 ≡ 0
      → L.udata_of apr_file v' ≡ some p
      → let t = (ape_file_close L E s).1 in
        let (r, u) = invoke (ape_file_gc L E) (v' ∷ []) t in (r ≡ ok 0) × Untouched t u
  unfolding ape_file_close ape_file_gc ape_status
  gc-close fine same = (ground arith, (ground arith, ground arith, ground arith, ground arith))

  -- `write` on an open handle, given a string and a number, makes one call, which has the string and
  -- the number of bytes to write of it: as many as the number asks for, and never more than the
  -- string has.
  pub write_bound :
      {w z : Value} {bytes : Text} {n : ℤ}
      → value_at 2 s ≡ some w
      → L.string_of w ≡ some bytes
      → value_at 3 s ≡ some z
      → is_none_or_nil (some z) ≡ false
      → L.number_of z ≡ some n
      → (k : ℕ) × ((ape_file_write L E s).1.trace ≡ Call.file_write h bytes k ∷ s.trace)
        × (k ≤ length bytes)
        × (k ≡ min (L.size_of n) (length bytes))
  unfolding ape_file_write ape_status
  write_bound {w} {z} {bytes} {n} at2 str at3 some3 num =
      let k : ℕ = if ltb (length bytes) (L.size_of n) then length bytes else L.size_of n in
      (k, ground arith, ground arith, ground arith)

module _ (L : Lua) (E : Apr) (s : State E.World) where
  -- `file_open` with arguments that pass the checks makes one new object, which holds what
  -- `apr_file_open` stored (NULL if nothing), and returns the object or the failure. The memory of
  -- other objects is not touched.
  pub open_result :
      {a pv : Value} {path : Text} {flags perms pool : ℕ}
      → value_at 1 s ≡ some a
      → L.string_of a ≡ some path
      → L.flag_of oflags (value_at 2 s) ≡ some flags
      → L.flag_of fperms (value_at 3 s) ≡ some perms
      → value_at 4 s ≡ some pv
      → L.udata_of apr_pool pv ≡ some pool
      → let (obj, w1) = E.run (Call.newobject_ref apr_file) s.world in
        let (_, w2) = E.run (Call.setuvfield obj (text "pool") pv) w1 in
        let hp = if obj == pool then 0 else s.block pool in
        let ((rv, f), w3) = E.run (Call.file_open (c_string path) flags perms hp) w2 in
        let (r, t) = ape_file_open L E s in
        (t.world ≡ w3)
        × ((q : ℕ) → t.block q ≡ (if obj == q then pointer_of f else s.block q))
        × (r ≡ ok (if rv == 0 then 1 else 3))
        × (results (if rv == 0 then 1 else 3) t
            ≡ (if rv == 0 then userdata obj ∷ [] else failure E rv))
  unfolding ape_file_open ape_status
  open_result at1 str fl pm at4 pl = (ground arith, λ q. ground arith, ground arith, ground arith)

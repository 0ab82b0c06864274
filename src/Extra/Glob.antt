-- ===== src/Extra/Glob.antt =====
-- `path_glob`: src/ape_extra.c. The loop over the directory runs on fuel.
use prg_buildsh.Prelude.{
  ℕ, zero, suc, ◌+◌, Bool, true, false, not, ◌&&◌, ◌||◌, Option, none, some, ltb, ◌==◌,
  if◌then◌else◌, length, take, drop, Text, text, text_eq,
}
use prg_buildsh.Machine.{
  pointer_of, Value, nil, string, table, Mask, index, Lua, Call, PathFlags, Status, Apr,
  out_of_fuel, M, pure, raise, gets, when, ◌>>=◌, ◌>>◌, call, value_at, push, read_block, set_table,
  or_empty, check_string, count, ape_status,
}
use prg_buildsh.Machine.{name, table_of}
use prg_buildsh.Pool.{ape_opt_pool}
use prg_buildsh.Extra.Dirsep.{find_dirsep}
use prg_buildsh.Extra.Names.{has_root, root_of, rest_of}

-- `APR_FINFO_NAME`
abbrev pub name_mask : Mask
name_mask name = true
name_mask _ = false

-- The entries "." and "..".
abbrev pub is_dots : Text → Bool
is_dots s = text_eq s (text ".") || text_eq s (text "..")

-- How the loop ends: with the status of the last read, or by an early return with a status.
pub data LoopEnd : Type 0 where
  finished early : Status → LoopEnd

abbrev pub value_of : Option Text → Value
value_of none = nil
value_of (some s) = string s

module _ (E : Apr) where
  -- A path is stored under the index k, and `more` follows. `dirname` is none where it still is the
  -- local ".".
  unfoldable pub store_path :
      Option Text → Text → (pool t k : ℕ) → M E.World LoopEnd → M E.World LoopEnd
  store_path none fname pool t k more = do set_table t (index k) (string fname); more
  store_path (some d) fname pool t k more = do
    (rv, newpath) ← call E (Call.filepath_merge d fname PathFlags.native pool)
    if not (rv == 0)
        then pure (LoopEnd.early rv)
        else (do set_table t (index k) (value_of newpath); more)

  -- i counts the paths stored so far, from 1.
  unfoldable pub glob_loop : ℕ → Text → Option Text → ℕ → ℕ → (t tab_len i : ℕ) → M E.World LoopEnd
  unfolding store_path
  glob_loop zero fpattern dirname dir pool t tab_len i = raise out_of_fuel
  glob_loop (suc fuel) fpattern dirname dir pool t tab_len i =
      let same = glob_loop fuel fpattern dirname dir pool t tab_len i in
      let more = glob_loop fuel fpattern dirname dir pool t tab_len (i + 1) in
      do
        (rv, finfo) ← call E (Call.dir_read name_mask dir)
        let fname = or_empty finfo.name
        if not (rv == 0) then pure (LoopEnd.finished rv) else (do
          fit ← call E (Call.fnmatch fpattern fname 0)
          if not ((fit == 0) && not (is_dots fname))
              then same
              else store_path dirname fname pool t (tab_len + i) more)

  -- What follows the loop.
  unfoldable pub close_dir : ℕ → ℕ → LoopEnd → M E.World ℕ
  close_dir d t done = do
    call E (Call.dir_close d)
    elim done [
      | LoopEnd.early rv ↦ ape_status E (count 0) rv
      | LoopEnd.finished rv ↦ (do
        push (table t)
        ape_status E (count 1) (if E.is_enoent rv then 0 else rv))
    ]

  -- From `apr_dir_open` on.
  unfoldable pub glob_dir : ℕ → Text → Option Text → ℕ → ℕ → ℕ → M E.World ℕ
  unfolding glob_loop close_dir
  glob_dir fuel fpattern dirname pool t tab_len = do
    (rv, dir) ← call E (Call.dir_open (elim dirname [ none ↦ text "." | some d ↦ d ]) pool)
    if not (rv == 0) then ape_status E (count 1) rv else (do
      let d = pointer_of dir
      done ← glob_loop fuel fpattern dirname d pool t tab_len 1
      close_dir d t done)

  -- The directory to open, none for the local ".", or the status of an early return.
  unfoldable glob_dirname : Option Text → Text → ℕ → M E.World (Status × Option Text)
  glob_dirname root dir pool =
      let needed = (elim root [ none ↦ false | some _ ↦ true ]) || ltb 0 (length dir) in
      if not needed then pure (0, none) else (do
        copy ← call E (Call.pstrdup pool dir)
        elim copy [
          | none ↦ pure (E.enomem, none)
          | some d ↦ elim root [
            | none ↦ pure (0, some d)
            | some r ↦ (do
              (rv, merged) ← call E (Call.filepath_merge r d PathFlags.native pool)
              pure (rv, some (elim merged [ none ↦ d | some m ↦ m ])))
          ]
        ])

module _ (L : Lua) (E : Apr) where
  unfoldable pub ape_extra_path_glob : ℕ → ℕ → M E.World ℕ
  unfolding glob_dir glob_dirname
  ape_extra_path_glob fuel dirsep = do
    first ← gets (λ s. elim (value_at 1 s) [ none ↦ none | some v ↦ table_of v ])
    tables ← gets (λ s. s.tables)
    let have_tab : ℕ = elim first [ none ↦ 0 | some _ ↦ 1 ]
    let tab_len : ℕ = elim first [ none ↦ 0 | some t ↦ L.rawlen (tables t) ]
    pattern ← check_string L (1 + have_tab)
    pool ← ape_opt_pool L E (2 + have_tab)
    h ← read_block pool
    (rv, root, moved) ← call E (Call.filepath_root pattern PathFlags.native h)
    let rest = rest_of L E pattern moved
    let split = find_dirsep dirsep rest
    if not (has_root L E rv) then ape_status E (count 1) rv else (do
      (rv, dirname) ← glob_dirname E (root_of L E rv root) (take split.0 rest) h
      if not (rv == 0) then ape_status E (count 0) rv else (do
        t ← elim first [ some t ↦ pure t | none ↦ call E Call.newtable ]
        when (have_tab == 0) (push (table t))
        glob_dir E fuel (drop split.1 rest) dirname h t tab_len))

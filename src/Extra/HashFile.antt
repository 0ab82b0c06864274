-- ===== src/Extra/HashFile.antt =====
-- `hash_file`: src/ape_extra.c. The mapping is one call; the loop of reads runs on fuel.
use prg_buildsh.Prelude.{
  ℕ, zero, suc, true, false, not, ◌&&◌, ltb, ◌==◌, if◌then◌else◌, length, Text, text,
}
use prg_buildsh.Machine.{
  pointer_of, nil, boolean, string, Kind, Mask, Lua, Call, Status, Apr, out_of_fuel, M, pure, raise,
  when, ◌>>=◌, ◌>>◌, call, push, read_block, check_string, check_udata, count, ape_status,
}
use prg_buildsh.Machine.{size, type}
use prg_buildsh.Pool.{ape_opt_pool}
use prg_buildsh.Extra.Search.{is_regular}

-- `APR_FINFO_SIZE|APR_FINFO_TYPE`
abbrev pub hash_mask : Mask
hash_mask size = true
hash_mask type = true
hash_mask _ = false

module _ (E : Apr) where
  abbrev hash_bytes : ℕ → Text → M E.World (Unit {0})
  hash_bytes h bytes = call E (Call.hash_add h bytes)

  -- The status that ends the loop.
  unfoldable pub hash_loop : ℕ → ℕ → ℕ → M E.World Status
  hash_loop zero h file = raise out_of_fuel
  hash_loop (suc fuel) h file =
      let more = hash_loop fuel h file in
      do
        (rv, buffer) ← call E (Call.file_read file 4096)
        when ((rv == 0) && ltb 0 (length buffer)) (hash_bytes h buffer)
        if rv == 0 then more else pure rv

  -- `apr_file_close( file ); return ape_status( L, 0, rv );`
  abbrev pub close_with : ℕ → Status → M E.World ℕ
  close_with file rv = do call E (Call.file_close file); ape_status E (count 0) rv

  abbrev pub close_true : ℕ → M E.World ℕ
  close_true file = do call E (Call.file_close file); push (boolean true); pure 1

module _ (L : Lua) (E : Apr) where
  unfoldable pub hash_open_file : ℕ → ℕ → ℕ → ℕ → M E.World ℕ
  hash_open_file fuel h file pool = do
    (rv, finfo) ← call E (Call.file_info_get hash_mask file)
    if not (rv == 0)
        then close_with E file rv
        else if not (is_regular finfo.filetype)
        then (do
          call E (Call.file_close file)
          push nil
          push (string (text "not a regular file"))
          pure 2)
        else if E.mmap_candidate finfo.size
        then (do
          (rv, mmap, bytes) ← call E (Call.mmap_create file (L.size_of finfo.size) pool)
          if not (rv == 0)
              then close_with E file rv
              else (do hash_bytes E h bytes; call E (Call.mmap_delete mmap); close_true E file))
        else (do
          rv ← hash_loop E fuel h file
          if E.is_eof rv then close_true E file else close_with E file rv)

  -- `ape_check_hash`
  unfoldable pub ape_check_hash : ℕ → M E.World ℕ
  ape_check_hash i = do read_block (← check_udata L Kind.apr_crypto_hash i)

-- `APR_FOPEN_READ` and `APR_FPROT_OS_DEFAULT`
module _ (L : Lua) (E : Apr) (fopen_read os_default : ℕ) where
  unfoldable pub ape_extra_hash_file : ℕ → M E.World ℕ
  ape_extra_hash_file fuel = do
    h ← ape_check_hash L E 1
    fname ← check_string L 2
    pool ← ape_opt_pool L E 3
    ph ← read_block pool
    (rv, file) ← call E (Call.file_open fname fopen_read os_default ph)
    if not (rv == 0)
        then ape_status E (count 0) rv
        else hash_open_file L E fuel h (pointer_of file) ph

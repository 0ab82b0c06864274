-- ===== src/Random.antt =====
-- Hash objects: src/ape_random.c. The block of a `crypto_hash` holds the pointer to the hash of APR;
-- its `digest_len` is 32, the value that the only constructor gives it.
pub mod Hex
use prg_buildsh.Prelude.{
  List, [], ◌∷◌, Text, text, ℕ, zero, suc, ◌+◌, ◌-◌, ◌/◌, ◌%◌, [], ◌∷◌, ltb, ◌==◌, if◌then◌else◌,
  length, Text, text,
}
use prg_buildsh.Machine.{
  string, userdata, Kind, apr_pool, Lua, Call, Apr, failed, M, pure, raise, gets, ◌>>=◌, ◌>>◌, call,
  value_at, to_boolean, push, settop, read_block, write_block, check_bytes, check_udata,
}

abbrev digest_len : ℕ
digest_len = 32

-- `hexdigits[ n ]` for n < 16
unfoldable pub hex_digit : ℕ → ℕ
hex_digit n = if ltb n 10 then b'0' + n else b'a' + (n - 10)

-- The loop over the bytes of the digest: `(b >> 4) & 0x0F` and `b & 0x0F`.
unfoldable pub to_hex : Text → Text
unfolding hex_digit
to_hex [] = []
to_hex (b ∷ s) = hex_digit (b / 16 % 16) ∷ hex_digit (b % 16) ∷ to_hex s

module _ (L : Lua) (E : Apr) where
  unfoldable pub ape_crypto_hash_reset : M E.World ℕ
  ape_crypto_hash_reset = do
    p ← check_udata L Kind.apr_crypto_hash 1
    h ← read_block p
    call E (Call.hash_init h)
    settop 1
    pure 1

  -- Arguments i and above, `left` of them.
  unfoldable update_loop : ℕ → ℕ → ℕ → M E.World (Unit {0})
  update_loop h i zero = pure tt
  update_loop h i (suc left) = do
    s ← check_bytes L i
    call E (Call.hash_add h s)
    update_loop h (i + 1) left

  unfoldable pub ape_crypto_hash_update : M E.World ℕ
  unfolding update_loop
  ape_crypto_hash_update = do
    p ← check_udata L Kind.apr_crypto_hash 1
    n ← gets (λ s. length s.args)
    h ← read_block p
    update_loop h 2 (n - 1)
    settop 1
    pure 1

  unfoldable pub ape_crypto_hash_digest : M E.World ℕ
  unfolding to_hex
  ape_crypto_hash_digest = do
    p ← check_udata L Kind.apr_crypto_hash 1
    raw ← gets (λ s. to_boolean (value_at 2 s))
    h ← read_block p
    digest ← call E (Call.hash_finish h)
    push (string (if raw then digest else to_hex digest))
    pure 1

  unfoldable pub ape_crypto_sha256_new : M E.World ℕ
  ape_crypto_sha256_new = do
    pool ← check_udata L apr_pool 1
    p ← call E (Call.newobject_ref Kind.apr_crypto_hash)
    push (userdata p)
    ph ← read_block pool
    h ← call E (Call.sha256_new ph)
    write_block p h
    if h == 0
        then raise (failed (text "APR crypto hash") E.enomem)
        else (do call E (Call.hash_init h); pure 1)

  unfoldable pub ape_cryptohash_methods : List (Text × M E.World ℕ)
  ape_cryptohash_methods =
      (text "reset", ape_crypto_hash_reset)
      ∷ (text "update", ape_crypto_hash_update)
      ∷ (text "digest", ape_crypto_hash_digest)
      ∷ []

  unfoldable pub ape_random_functions : List (Text × M E.World ℕ)
  ape_random_functions = (text "sha256_new", ape_crypto_sha256_new) ∷ []

-- ===== src/Extra/Wide.antt =====
-- `ucs2_to_utf8` and `wupper`, which src/ape_extra.c has on Windows: text of 16-bit words. Both give
-- upper-case text. Their loops run on fuel.
use prg_buildsh.Prelude.{
  ℕ, zero, suc, none, some, ◌+◌, ◌-◌, ◌%◌, ◌^◌, Bool, not, ◌&&◌, ◌||◌, List, [], ◌∷◌, ◌++◌, map,
  ltb, ◌==◌, if◌then◌else◌, length, drop, min, Text, ℤ, pos, negsuc,
}
use prg_buildsh.Machine.{
  string, index, Lua, Call, Status, Apr, bad_top, out_of_fuel, M, pure, raise, gets, ◌>>=◌, ◌>>◌,
  call, push, check_bytes, check_table, count, ape_status,
}

-- The cast to a 16-bit word.
abbrev pub word_cast : ℤ → ℕ
word_cast (pos n) = n % 2 ^ 16
word_cast (negsuc n) = (2 ^ 16 - (n + 1) % 2 ^ 16) % 2 ^ 16

module _ (E : Apr) where
  abbrev pub upper : ℕ → ℕ
  upper w = E.toupper w % 2 ^ 16

  -- `NUM( inbuf )` and `NUM( wcbuf )`
  abbrev pub words_room : ℕ
  words_room = 256

  -- A conversion fails if its input is invalid, or if it has not written anything.
  abbrev pub is_failure : Status → ℕ → Bool
  is_failure rv written = (rv == E.einval) || (not (rv == 0) && (written == 0))

module _ (L : Lua) (E : Apr) where
  -- The elements i and above of a table, left of them, in upper case.
  unfoldable pub fill_words : ℕ → ℕ → ℕ → M E.World (List ℕ)
  fill_words t i zero = pure []
  fill_words t i (suc left) =
      let rest = fill_words t (i + 1) left in
      do
        n ← gets (λ s. L.number_of (s.tables t (index i)))
        elim n [ none ↦ raise bad_top | some w ↦ (do ws ← rest; pure (upper E (word_cast w) ∷ ws)) ]

module _ (L : Lua) (E : Apr) (buffer_size : ℕ) where
  -- `done` of the `tlen` elements are converted, to `buf`.
  unfoldable pub ucs2_loop : ℕ → ℕ → ℕ → ℕ → Text → M E.World ℕ
  unfolding fill_words
  ucs2_loop zero t tlen done buf = raise out_of_fuel
  ucs2_loop (suc fuel) t tlen done buf =
      if ltb done tlen
      then (do
        let k = min (words_room E) (tlen - done)
        inbuf ← fill_words L E t (done + 1) k
        (rv, i, o) ← call E (Call.conv_ucs2_to_utf8 inbuf buffer_size)
        if is_failure E rv (length o)
            then ape_status E (count 0) rv
            else ucs2_loop fuel t tlen (done + (k - i)) (buf ++ o))
      else (do push (string buf); pure 1)

  unfoldable pub ape_extra_ucs2_to_utf8 : ℕ → M E.World ℕ
  unfolding ucs2_loop
  ape_extra_ucs2_to_utf8 fuel = do
    t ← check_table L 1
    tlen ← gets (λ s. L.rawlen (s.tables t))
    if ltb 0 tlen then ucs2_loop fuel t tlen 0 [] else (do push (string []); pure 1)

module _ (E : Apr) (buffer_size : ℕ) where
  -- `k` of the words in `wcbuf` are converted back, to `buf`: the text, or the status of a failure.
  unfoldable pub encode_loop : ℕ → List ℕ → ℕ → Text → M E.World (Status × Text)
  encode_loop zero wcbuf k buf = raise out_of_fuel
  encode_loop (suc fuel) wcbuf k buf =
      if ltb k (length wcbuf)
      then (do
        (rv, n, o) ← call E (Call.conv_ucs2_to_utf8 (drop k wcbuf) buffer_size)
        if is_failure E rv (length o)
            then pure (rv, buf)
            else encode_loop fuel wcbuf (k + (length wcbuf - k - n)) (buf ++ o))
      else pure (0, buf)

  -- `done` of the bytes of s are converted, to `buf`.
  unfoldable pub wupper_loop : ℕ → Text → ℕ → Text → M E.World ℕ
  unfolding encode_loop
  wupper_loop zero s done buf = raise out_of_fuel
  wupper_loop (suc fuel) s done buf =
      if ltb done (length s)
      then (do
        (rv, i, words) ← call E (Call.conv_utf8_to_ucs2 (drop done s) (words_room E))
        if is_failure E rv (length words) then ape_status E (count 0) rv else (do
          (rv, buf) ← encode_loop (suc (length words)) (map (upper E) words) 0 buf
          if not (rv == 0)
              then ape_status E (count 0) rv
              else wupper_loop fuel s (done + (length s - done - i)) buf))
      else (do push (string buf); pure 1)

  unfoldable pub ape_extra_wupper : Lua → ℕ → M E.World ℕ
  unfolding wupper_loop
  ape_extra_wupper L fuel = do
    s ← check_bytes L 1
    if ltb 0 (length s) then wupper_loop fuel s 0 [] else (do push (string []); pure 1)

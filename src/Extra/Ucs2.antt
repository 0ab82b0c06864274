-- ===== src/Extra/Ucs2.antt =====
-- What `ucs2_to_utf8` converts: src/ape_extra.c.
use mathlib.Core.Path.{subst}
use prg_buildsh.Prelude.{
  ℕ, zero, suc, ◌+◌, ◌-◌, ◌≤◌, ◌<◌, ◌≡◌, refl, sym, ap, ◌∙◌, inl, inr, true, some, List, [], ◌∷◌,
  ◌++◌, map, append-nil, arith, ltb, if◌then◌else◌, Bool-cases, length, take, drop, min,
  length-take, length-drop, length-map, drop-drop, Text, ℤ,
}
use prg_buildsh.Machine.{
  string, table, index, Table, Lua, Call, Apr, ok, State, ◌>>=◌, ◌>>◌, count, ape_status, value_at,
  push, pure, call, check_table, gets,
}
use prg_buildsh.Extra.Wide.{
  word_cast, upper, words_room, is_failure, fill_words, ucs2_loop, ape_extra_ucs2_to_utf8,
}
use prg_buildsh.Extra.Codec.{
  IsCodec, failed-ne, drop_past, consumes, Returns, next-Returns, failed-Returns,
}
use prg_buildsh.Extra.Encode.{encodes_rest}

take-take : {A : Type 0} (n m : ℕ) (xs : List A) → n ≤ m → take n (take m xs) ≡ take n xs
take-take zero m xs le = refl
take-take (suc n) zero xs le = absurd (omega arith)
take-take (suc n) (suc m) [] le = refl
take-take (suc n) (suc m) (x ∷ xs) le = ap (λ l. x ∷ l) (take-take n m xs (omega arith))

module _ (L : Lua) where
  -- The elements of a table from i on are these numbers.
  abbrev pub NumbersFrom : Table → ℕ → List ℤ → Type 0
  NumbersFrom t i [] = Unit
  NumbersFrom t i (n ∷ ns) = (L.number_of (t (index i)) ≡ some n) × NumbersFrom t (i + 1) ns

  drop-NumbersFrom :
      (t : Table) (k i : ℕ) (ns : List ℤ) → NumbersFrom t i ns → NumbersFrom t (k + i) (drop k ns)
  drop-NumbersFrom t zero i ns h = subst (λ j. NumbersFrom t j ns) (omega arith) h
  drop-NumbersFrom t (suc k) i [] h = tt
  drop-NumbersFrom t (suc k) i (n ∷ ns) (h, hs) =
      subst (λ j. NumbersFrom t j (drop k ns)) (omega arith) (drop-NumbersFrom t k (i + 1) ns hs)

take-map : {A B : Type 0} (f : A → B) (n : ℕ) (xs : List A) → map f (take n xs) ≡ take n (map f xs)
take-map f zero xs = refl
take-map f (suc n) [] = refl
take-map f (suc n) (x ∷ xs) = ap (λ l. f x ∷ l) (take-map f n xs)

drop-map : {A B : Type 0} (f : A → B) (n : ℕ) (xs : List A) → map f (drop n xs) ≡ drop n (map f xs)
drop-map f zero xs = refl
drop-map f (suc n) [] = refl
drop-map f (suc n) (x ∷ xs) = drop-map f n xs

module _ (L : Lua) (E : Apr) where
  -- What `inbuf` gets for an element.
  abbrev pub element : ℤ → ℕ
  element n = upper E (word_cast n)

  fill_words-take :
      (t i k : ℕ) (ns : List ℤ) (s : State E.World)
      → NumbersFrom L (s.tables t) i ns
      → k ≤ length ns
      → fill_words L E t i k s ≡ (ok (map element (take k ns)), s)
  unfolding fill_words
  fill_words-take t i zero ns s h le = refl
  fill_words-take t i (suc k) [] s h le = absurd (omega arith)
  fill_words-take t i (suc k) (n ∷ ns) s (h, hs) le = rw h (
      ap (λ r. ((λ _. r) >>= λ ws. pure (element n ∷ ws)) s)
        (fill_words-take t (i + 1) k ns s hs (omega arith)))

module _ (E : Apr) (Decodes : Text → List ℕ → Type 0) (Encodes : List ℕ → Text → Type 0)
    (codec : IsCodec E Decodes Encodes) (size : ℕ) (big : 6 ≤ size) (L : Lua) where
  -- The rest of the numbers, each one as `inbuf` gets it, encodes to o.
  abbrev EncodesRest : ℕ → List ℤ → Text → Type 0
  EncodesRest k ns o = Encodes (drop k (map (element L E) ns)) o

  -- A part of what `inbuf` holds is encoded in front of the rest.
  next_rest :
      (m room k : ℕ) (ns : List ℤ) (o o' : Text)
      → m ≤ room
      → Encodes (take m (take room (drop k (map (element L E) ns)))) o
      → EncodesRest (k + m) ns o'
      → EncodesRest k ns (o ++ o')
  next_rest m room k ns o o' le h h' =
      let ws = map (element L E) ns in
      encodes_rest E Decodes Encodes codec size big m k ws o o'
        (subst (λ z. Encodes z o) (take-take m room (drop k ws) le) h) h'

  filled :
      (t room k : ℕ) (ns : List ℤ) (s : State E.World)
      → NumbersFrom L (s.tables t) (k + 1) (drop k ns)
      → room ≤ length ns - k
      → fill_words L E t (k + 1) room s ≡ (ok (take room (drop k (map (element L E) ns))), s)
  filled t room k ns s numbers le =
      fill_words-take L E t (k + 1) room (drop k ns) s numbers (rw (length-drop k ns) le)
      ∙ ap (λ z. (ok z, s))
          (take-map (element L E) room (drop k ns) ∙ ap (take room) (drop-map (element L E) k ns))

  length_filled :
      (room k : ℕ) (ns : List ℤ)
      → room ≤ length ns - k
      → length (take room (drop k (map (element L E) ns))) ≡ room
  length_filled room k ns le =
      let ws = map (element L E) ns in
      omega (arith, length-take room (drop k ws), length-drop k ws, length-map (element L E) ns)

  next_numbers :
      (t : Table) (m k : ℕ) (ns : List ℤ)
      → NumbersFrom L t (k + 1) (drop k ns)
      → NumbersFrom L t (k + m + 1) (drop (k + m) ns)
  next_numbers t m k ns h =
      subst (λ z. NumbersFrom L t (k + m + 1) z) (drop-drop m k ns)
        (subst (λ i. NumbersFrom L t i (drop m (drop k ns))) (omega arith)
          (drop-NumbersFrom L t m (k + 1) (drop k ns) h))

  ucs2_loop-Returns :
      (fuel : ℕ) (t : ℕ) (ns : List ℤ) (k : ℕ) (buf : Text) (s : State E.World)
      → NumbersFrom L (s.tables t) (k + 1) (drop k ns)
      → length ns - k < fuel
      → Returns E (EncodesRest k ns) buf s (ucs2_loop L E size fuel t (length ns) k buf s)
  unfolding ucs2_loop
  ucs2_loop-Returns zero t ns k buf s numbers lt = absurd (omega arith)
  ucs2_loop-Returns (suc fuel) t ns k buf s numbers lt = elim (Bool-cases (ltb k (length ns))) [
    | inr done ↦ rw done (
      refl,
      refl,
      refl,
      inl (
        [],
        ap (λ z. string z ∷ []) (sym (append-nil buf)),
        subst (λ z. Encodes z [])
            (sym (drop_past k (map (element L E) ns) (ground (arith, length-map (element L E) ns))))
            codec.encodes_nil,
      ),
    )
    | inl more ↦
        let room = min (words_room E) (length ns - k) in
        let inbuf = take room (drop k (map (element L E) ns)) in
        let c = Call.conv_ucs2_to_utf8 inbuf size in
        let ((rv, n, o), w) = E.run c s.world in
        let u = record s { world = w; trace = c ∷ s.trace } in
        let conversion = codec.encoding inbuf size s.world big in
        let full : length inbuf ≡ room = length_filled room k ns (omega arith) in
        let some_left : 0 < length inbuf = rw full (ground arith) in
        let part : Encodes (take (room - n) inbuf) o =
          subst (λ l. Encodes (take (l - n) inbuf) o) full conversion.related in
        let rest = ucs2_loop L E size fuel t (length ns) (k + (room - n)) in
        let kont = λ (z : List ℕ). (do
          (rv, i, o) ← call E (Call.conv_ucs2_to_utf8 z size)
          if is_failure E rv (length o)
              then ape_status E (count 0) rv
              else ucs2_loop L E size fuel t (length ns) (k + (room - i)) (buf ++ o)) in
        rw more (
          subst (λ r. Returns E (EncodesRest k ns) buf s (((λ _. r) >>= kont) s))
            (sym (filled t room k ns s numbers (omega arith)))
            (elim (Bool-cases (is_failure E rv (length o))) [
              | inl failed ↦ rw failed (
                  failed-Returns E (EncodesRest k ns) buf rv s u (refl, refl, refl, refl)
                    (failed-ne E rv (length o) failed)
                    (record {
                      call = c;
                      before = s.world;
                      past = s.trace;
                      last = refl;
                      rejected = (refl, failed);
                    }))
              | inr fine ↦
                  let forward : 0 < room - n =
                    subst (λ l. 0 < l - n) full
                      (consumes E inbuf rv n o conversion some_left fine) in
                  rw fine (
                    next-Returns E (EncodesRest k ns) (EncodesRest (k + (room - n)) ns) buf o s u
                      (rest (buf ++ o) u) (refl, refl, refl, refl)
                      (λ o' h. next_rest (room - n) room k ns o o' (omega arith) part h)
                      (ucs2_loop-Returns fuel t ns (k + (room - n)) (buf ++ o) u
                        (next_numbers (s.tables t) (room - n) k ns numbers) (omega arith)))
            ]))
  ]

  counted :
      (fuel t : ℕ) (ns : List ℤ) (s : State E.World)
      → NumbersFrom L (s.tables t) 1 ns
      → length ns < fuel
      → Returns E (Encodes (map (element L E) ns)) [] s (
          (if ltb 0 (length ns)
              then ucs2_loop L E size fuel t (length ns) 0 []
              else (do push (string []); pure 1))
            s)
  counted fuel t [] s numbers lt = (refl, refl, refl, inl ([], refl, codec.encodes_nil))
  counted fuel t (n ∷ ns) s numbers lt =
      let some_left : ltb 0 (length (n ∷ ns)) ≡ true = ground arith in
      rw some_left (ucs2_loop-Returns fuel t (n ∷ ns) 0 [] s numbers (omega arith))

  -- `ucs2_to_utf8` on a table of numbers, with more rounds than there are numbers: the one result is
  -- a text to which the upper case of the numbers, cast to 16-bit words, is encoded in their order, or
  -- the results are the failure of the last conversion. There is no Lua error, and no memory changes.
  -- This holds of conversions that, in a buffer for 6 or more, consume a prefix of their input, some
  -- of it if they write anything, and succeed without output only if nothing is left. The buffer for
  -- the text has 6 bytes or more.
  pub ucs2_to_utf8-Returns :
      (fuel t : ℕ) (ns : List ℤ) (s : State E.World)
      → value_at 1 s ≡ some (table t)
      → NumbersFrom L (s.tables t) 1 ns
      → L.rawlen (s.tables t) ≡ length ns
      → length ns < fuel
      → Returns E (Encodes (map (element L E) ns)) [] s (ape_extra_ucs2_to_utf8 L E size fuel s)
  unfolding ape_extra_ucs2_to_utf8
  ucs2_to_utf8-Returns fuel t ns s at numbers len lt =
      let e : check_table L 1 s ≡ (ok t, s) = rw at in
      let k = λ (a : ℕ). (do
        tlen ← gets (λ s. L.rawlen (s.tables a))
        if ltb 0 tlen
            then ucs2_loop L E size fuel a tlen 0 []
            else (do push (string []); pure 1)) in
      subst (λ r. Returns E (Encodes (map (element L E) ns)) [] s (((λ _. r) >>= k) s)) (sym e)
        (rw len (counted fuel t ns s numbers lt))

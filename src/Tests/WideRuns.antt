-- ===== src/Tests/WideRuns.antt =====
-- `wupper` and `ucs2_to_utf8` at concrete inputs, with words that are encoded as bytes.
use mathlib.Core.Path.{subst}
use native.Mathlib.Decide.{dec_le}
use prg_buildsh.Prelude.{
  ℕ, zero, suc, ◌-◌, ◌≤◌, ◌<◌, ◌≡◌, refl, sym, ap, ◌∙◌, true, false, List, [], ◌∷◌, arith, ◌==◌,
  if◌then◌else◌, length, length-take, take, text, pos, negsuc,
}
use prg_buildsh.Machine.{nil, number, string, table, index, Lua, State, results}
use prg_buildsh.Extra.Wide.{ape_extra_wupper, ape_extra_ucs2_to_utf8}
use prg_buildsh.Extra.Codec.{IsConversion, IsCodec, Returns}
use prg_buildsh.Extra.Upper.{UpperCase, wupper-Returns}
use prg_buildsh.Extra.Ucs2.{ucs2_to_utf8-Returns}
use prg_buildsh.Tests.Sample.{sample_lua, sample_apr, start}

take_all : (n : ℕ) (xs : List ℕ) → length xs ≤ n → take n xs ≡ xs
take_all zero [] le = refl
take_all zero (x ∷ xs) le = absurd (omega arith)
take_all (suc n) [] le = refl
take_all (suc n) (x ∷ xs) le = ap (λ l. x ∷ l) (take_all n xs (omega arith))

take_part : (n : ℕ) (xs : List ℕ) → take (length xs - (length xs - n)) xs ≡ take n xs
take_part n xs = elim (dec_le n (length xs)) [
  | yes le ↦ ap (λ k. take k xs) (omega arith)
  | no gt ↦
      ap (λ k. take k xs) {y = length xs} (omega arith)
      ∙ (take_all (length xs) xs (omega arith) ∙ sym (take_all n xs (omega arith)))
]

progress_lem : (n : ℕ) (xs : List ℕ) → (length (take n xs) == 0) ≡ false → length xs - n < length xs
progress_lem n xs h = ground (arith, length-take n xs)

whole_lem : (n : ℕ) (xs : List ℕ) → 6 ≤ n → (length (take n xs) == 0) ≡ true → length xs - n ≡ 0
whole_lem n xs le h = ground (arith, length-take n xs)

copied :
    {R : List ℕ → List ℕ → Type 0} (n : ℕ) (xs : List ℕ)
    → 6 ≤ n
    → ((ys : List ℕ) → R ys ys)
    → IsConversion R xs 0 (length xs - n) (take n xs)
copied {R} n xs le h = record {
  within = omega arith;
  related = subst (λ z. R z (take n xs)) (sym (take_part n xs)) (h (take n xs));
  whole = λ good nothing. whole_lem n xs le nothing;
  progress = λ something. progress_lem n xs something;
}

copies : IsCodec sample_apr (λ s ws. s ≡ ws) (λ ws s. ws ≡ s)
copies = record {
  decodes_nil = refl;
  decodes_append = λ s t us ws h h'. cc;
  encodes_nil = refl;
  encodes_append = λ us ws s t h h'. cc;
  decoding = λ s room w le. copied room s le (λ ys. refl);
  encoding = λ ws room w le. copied room ws le (λ ys. refl);
}

abbrev called : State ℕ
called = start (string (text "abcdefghij") ∷ [])

-- A buffer of eight bytes takes two rounds.
wupper-Returns_example :
    Returns sample_apr
      (UpperCase sample_apr
        (λ s ws. s ≡ ws)
        (λ ws s. ws ≡ s)
        copies
        8
        (omega arith)
        (text "abcdefghij"))
      []
      called
      (ape_extra_wupper sample_apr 8 sample_lua 11 called)
wupper-Returns_example =
    wupper-Returns sample_apr (λ s ws. s ≡ ws) (λ ws s. ws ≡ s) copies 8 (omega arith) sample_lua 11
      (string (text "abcdefghij")) (text "abcdefghij") called refl refl (omega arith)

wupper_run :
    results 1 (ape_extra_wupper sample_apr 8 sample_lua 11 called).1
    ≡ string (text "ABCDEFGHIJ") ∷ []
unfolding ape_extra_wupper
wupper_run = refl

abbrev table_lua : Lua
table_lua = record sample_lua { rawlen = λ t. 3 }

-- The words of `a`, of `b` and of -65437, which a cast to 16 bits makes `c`.
abbrev listed : State ℕ
listed = record (start (table 9 ∷ [])) {
  tables = λ p k. elim k [
    | index i ↦ number (if i == 1 then pos 97 else if i == 2 then pos 98 else negsuc 65436)
    | _ ↦ nil
  ];
}

ucs2_to_utf8-Returns_example :
    Returns sample_apr
      (λ o. 65 ∷ 66 ∷ 67 ∷ [] ≡ o)
      []
      listed
      (ape_extra_ucs2_to_utf8 table_lua sample_apr 6 4 listed)
ucs2_to_utf8-Returns_example =
    ucs2_to_utf8-Returns sample_apr (λ s ws. s ≡ ws) (λ ws s. ws ≡ s) copies 6 (omega arith)
      table_lua 4 9 (pos 97 ∷ pos 98 ∷ negsuc 65436 ∷ []) listed refl (refl, (refl, (refl, tt)))
      refl (omega arith)

ucs2_run :
    results 1 (ape_extra_ucs2_to_utf8 table_lua sample_apr 6 4 listed).1 ≡ string (text "ABC") ∷ []
unfolding ape_extra_ucs2_to_utf8
ucs2_run = refl

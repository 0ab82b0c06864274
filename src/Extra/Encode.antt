-- ===== src/Extra/Encode.antt =====
-- The conversion of words to text by `wupper`: src/ape_extra.c.
use mathlib.Core.Path.{subst}
use prg_buildsh.Prelude.{
  ℕ, zero, suc, ◌+◌, ◌-◌, ◌≤◌, ◌<◌, ◌≡◌, refl, sym, ◌∙◌, ◌⊎◌, inl, inr, false, List, [], ◌∷◌, ◌++◌,
  append_assoc, append-nil, arith, ltb, ◌==◌, Bool-cases, length, take, drop, length-drop,
  take-append-drop, drop-drop, Text,
}
use prg_buildsh.Machine.{Call, Status, Apr, Result, ok, raised, State}
use prg_buildsh.Extra.Wide.{is_failure, encode_loop}
use prg_buildsh.Extra.Codec.{IsCodec, failed-ne, drop_past, consumes, Same, Same-trans, LastFailed}

module _ (E : Apr) (Decodes : Text → List ℕ → Type 0) (Encodes : List ℕ → Text → Type 0)
    (codec : IsCodec E Decodes Encodes) (size : ℕ) (big : 6 ≤ size) where
  -- The words from k on are encoded behind buf, or the status is one of a failure.
  abbrev pub Encoded :
      List ℕ → ℕ → Text → State E.World → Result (Status × Text) × State E.World → Type 0
  Encoded ws k buf s (ok (rv, out), u) =
      Same s u
      × (((rv ≡ 0) × (o : Text) × (out ≡ buf ++ o) × Encodes (drop k ws) o)
          ⊎ (((rv == 0) ≡ false) × LastFailed E rv u))
  Encoded ws k buf s (raised e, u) = ⊥

  -- A part is encoded in front of the rest.
  pub encodes_rest :
      (m k : ℕ) (ws : List ℕ) (o o' : Text)
      → Encodes (take m (drop k ws)) o
      → Encodes (drop (k + m) ws) o'
      → Encodes (drop k ws) (o ++ o')
  encodes_rest m k ws o o' h h' =
      subst (λ z. Encodes z (o ++ o')) (take-append-drop m (drop k ws))
        (codec.encodes_append (take m (drop k ws)) (drop m (drop k ws)) o o' h
          (subst (λ z. Encodes z o') (sym (drop-drop m k ws)) h'))

  next-Encoded :
      (m k : ℕ) (ws : List ℕ) (buf o : Text) (s u : State E.World)
      (r : Result (Status × Text) × State E.World)
      → Same s u
      → Encodes (take m (drop k ws)) o
      → Encoded ws (k + m) (buf ++ o) u r
      → Encoded ws k buf s r
  next-Encoded m k ws buf o s u (ok (rv, out), v) same h (same', inl (good, o', e, h')) = (
    Same-trans s u v same same',
    inl (good, o ++ o', e ∙ append_assoc buf o o', encodes_rest m k ws o o' h h'),
  )
  next-Encoded m k ws buf o s u (ok (rv, out), v) same h (same', inr failed) =
      (Same-trans s u v same same', inr failed)
  next-Encoded m k ws buf o s u (raised e, v) same h r = r

  pub encode_loop-Encoded :
      (fuel : ℕ) (ws : List ℕ) (k : ℕ) (buf : Text) (s : State E.World)
      → length ws - k < fuel
      → Encoded ws k buf s (encode_loop E size fuel ws k buf s)
  unfolding encode_loop
  encode_loop-Encoded zero ws k buf s lt = absurd (omega arith)
  encode_loop-Encoded (suc fuel) ws k buf s lt = elim (Bool-cases (ltb k (length ws))) [
    | inr done ↦ rw done (
      (refl, refl, refl, refl),
      inl (
        refl,
        [],
        sym (append-nil buf),
        subst (λ z. Encodes z []) (sym (drop_past k ws (ground arith))) codec.encodes_nil,
      ),
    )
    | inl more ↦
        let c = Call.conv_ucs2_to_utf8 (drop k ws) size in
        let ((rv, n, o), w) = E.run c s.world in
        let u = record s { world = w; trace = c ∷ s.trace } in
        let conversion = codec.encoding (drop k ws) size s.world big in
        let m = length ws - k - n in
        let part : Encodes (take m (drop k ws)) o =
          subst (λ l. Encodes (take (l - n) (drop k ws)) o) (length-drop k ws) conversion.related in
        elim (Bool-cases (is_failure E rv (length o))) [
          | inl failed ↦
              rw (more, failed)
                (
                  (refl, refl, refl, refl),
                  inr (
                    failed-ne E rv (length o) failed,
                    record {
                      call = c;
                      before = s.world;
                      past = s.trace;
                      last = refl;
                      rejected = (refl, failed);
                    },
                  ),
                )
          | inr fine ↦
              let some_left : 0 < length (drop k ws) = rw (length-drop k ws) (ground arith) in
              let forward = consumes E (drop k ws) rv n o conversion some_left fine in
              let forward' : 0 < m = subst (λ l. 0 < l - n) (length-drop k ws) forward in
              rw (more, fine)
                (next-Encoded m k ws buf o s u (encode_loop E size fuel ws (k + m) (buf ++ o) u)
                  (refl, refl, refl, refl) part
                  (encode_loop-Encoded fuel ws (k + m) (buf ++ o) u (omega arith)))
        ]
  ]

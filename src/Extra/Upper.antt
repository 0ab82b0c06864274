-- ===== src/Extra/Upper.antt =====
-- What `wupper` converts: src/ape_extra.c.
use mathlib.Core.Path.{subst}
use mathlib.Core.List.{map-append}
use prg_buildsh.Prelude.{
  ℕ, zero, suc, ◌+◌, ◌-◌, ◌≤◌, ◌<◌, ◌≡◌, refl, sym, ap, inl, inr, true, false, not, some, List, [],
  ◌∷◌, ◌++◌, map, append-nil, arith, ltb, ◌==◌, if◌then◌else◌, Bool-cases, length, take, drop,
  length-drop, length-map, take-append-drop, drop-drop, Text,
}
use prg_buildsh.Machine.{
  Value, string, Lua, Call, Status, Apr, Result, ok, raised, State, M, ◌>>=◌, count, ape_status,
  value_at, check_bytes, push, pure, ◌>>◌,
}
use prg_buildsh.Extra.Wide.{
  upper, words_room, is_failure, encode_loop, wupper_loop, ape_extra_wupper,
}
use prg_buildsh.Extra.Codec.{
  IsCodec, failed-ne, drop_past, consumes, LastFailed, Returns, next-Returns, Same-Returns,
  failed-Returns,
}
use prg_buildsh.Extra.Encode.{Encoded, encode_loop-Encoded}

module _ (E : Apr) (Decodes : Text → List ℕ → Type 0) (Encodes : List ℕ → Text → Type 0)
    (codec : IsCodec E Decodes Encodes) (size : ℕ) (big : 6 ≤ size) where
  more_than_none : (b : ℕ) (t : Text) → ltb 0 (length (b ∷ t)) ≡ true
  more_than_none b t = ground arith

  -- A text decodes to words whose upper case encodes to o.
  abbrev pub UpperCase : Text → Text → Type 0
  UpperCase s o = (ws : List ℕ) × Decodes s ws × Encodes (map (upper E) ws) o

  Encoded-Returns :
      (P : Text → Type 0) (buf : Text) (ws : List ℕ) (s : State E.World)
      (k : Status × Text → M E.World ℕ) (r : Result (Status × Text) × State E.World)
      → Encoded E Decodes Encodes codec size big ws 0 buf s r
      → ((rv : Status) (out : Text) (v : State E.World)
          → (rv == 0) ≡ false
          → LastFailed E rv v
          → Returns E P buf v (k (rv, out) v))
      → ((o : Text) (v : State E.World) → Encodes ws o → Returns E P buf v (k (0, buf ++ o) v))
      → Returns E P buf s (((λ _. r) >>= k) s)
  Encoded-Returns P buf ws s k (ok (rv, out), v) (same, inl (good, o, e, h)) bad fine =
      Same-Returns E P buf s v (k (rv, out) v) same (
        subst (λ z. Returns E P buf v (k (z, out) v)) (sym good)
          (subst (λ z. Returns E P buf v (k (0, z) v)) (sym e) (fine o v h)))
  Encoded-Returns P buf ws s k (ok (rv, out), v) (same, inr (ne, failed)) bad fine =
      Same-Returns E P buf s v (k (rv, out) v) same (bad rv out v ne failed)
  Encoded-Returns P buf ws s k (raised e, v) h bad fine = h

  -- A part in upper case in front of the rest.
  upper_rest :
      (m k : ℕ) (s : Text) (ws : List ℕ) (o o' : Text)
      → Decodes (take m (drop k s)) ws
      → Encodes (map (upper E) ws) o
      → UpperCase (drop (k + m) s) o'
      → UpperCase (drop k s) (o ++ o')
  upper_rest m k s ws o o' d e (us, d', e') = (
    ws ++ us,
    subst (λ z. Decodes z (ws ++ us)) (take-append-drop m (drop k s))
        (codec.decodes_append (take m (drop k s)) (drop m (drop k s)) ws us d
          (subst (λ z. Decodes z us) (sym (drop-drop m k s)) d')),
    subst (λ z. Encodes z (o ++ o')) (sym (map-append (upper E) ws us))
        (codec.encodes_append (map (upper E) ws) (map (upper E) us) o o' e e'),
  )

  wupper_loop-Returns :
      (fuel : ℕ) (t : Text) (k : ℕ) (buf : Text) (s : State E.World)
      → length t - k < fuel
      → Returns E (UpperCase (drop k t)) buf s (wupper_loop E size fuel t k buf s)
  unfolding wupper_loop
  wupper_loop-Returns zero t k buf s lt = absurd (omega arith)
  wupper_loop-Returns (suc fuel) t k buf s lt = elim (Bool-cases (ltb k (length t))) [
    | inr done ↦ rw done (
      refl,
      refl,
      refl,
      inl (
        [],
        ap (λ z. string z ∷ []) (sym (append-nil buf)),
        (
          [],
          subst (λ z. Decodes z []) (sym (drop_past k t (ground arith))) codec.decodes_nil,
          codec.encodes_nil,
        ),
      ),
    )
    | inl more ↦
        let c = Call.conv_utf8_to_ucs2 (drop k t) (words_room E) in
        let ((rv, n, ws), w) = E.run c s.world in
        let u = record s { world = w; trace = c ∷ s.trace } in
        let conversion = codec.decoding (drop k t) (words_room E) s.world (omega arith) in
        let m = length t - k - n in
        let part : Decodes (take m (drop k t)) ws =
          subst (λ l. Decodes (take (l - n) (drop k t)) ws) (length-drop k t) conversion.related in
        elim (Bool-cases (is_failure E rv (length ws))) [
          | inl failed ↦
              rw (more, failed)
                (failed-Returns E (UpperCase (drop k t)) buf rv s u (refl, refl, refl, refl)
                  (failed-ne E rv (length ws) failed)
                  (record {
                    call = c;
                    before = s.world;
                    past = s.trace;
                    last = refl;
                    rejected = (refl, failed);
                  }))
          | inr fine ↦
              let some_left : 0 < length (drop k t) = rw (length-drop k t) (ground arith) in
              let forward = consumes E (drop k t) rv n ws conversion some_left fine in
              let forward' : 0 < m = subst (λ l. 0 < l - n) (length-drop k t) forward in
              let k' = λ (p : Status × Text).
                if not (p.0 == 0)
                then ape_status E (count 0) p.0
                else wupper_loop E size fuel t (k + m) p.1 in
              rw (more, fine)
                (Same-Returns E (UpperCase (drop k t)) buf s u _ (refl, refl, refl, refl)
                  (Encoded-Returns (UpperCase (drop k t)) buf (map (upper E) ws) u k'
                    (encode_loop E size (suc (length ws)) (map (upper E) ws) 0 buf u)
                    (encode_loop-Encoded E Decodes Encodes codec size big (suc (length ws))
                      (map (upper E) ws) 0 buf u (omega (arith, length-map (upper E) ws)))
                    (λ rv' out v ne failed. rw ne (
                      failed-Returns E (UpperCase (drop k t)) buf rv' v v (refl, refl, refl, refl)
                        ne failed))
                    (λ o v h.
                      next-Returns E (UpperCase (drop k t)) (UpperCase (drop (k + m) t)) buf o v v
                        (wupper_loop E size fuel t (k + m) (buf ++ o) v) (refl, refl, refl, refl)
                        (λ o' rest. upper_rest m k t ws o o' part h rest)
                        (wupper_loop-Returns fuel t (k + m) (buf ++ o) v (omega arith)))))
        ]
  ]

  text_result :
      (fuel : ℕ) (t : Text) (s : State E.World)
      → length t < fuel
      → Returns E (UpperCase t) [] s (
          (if ltb 0 (length t)
              then wupper_loop E size fuel t 0 []
              else (do push (string []); pure 1))
            s)
  text_result fuel [] s lt =
      (refl, refl, refl, inl ([], refl, ([], codec.decodes_nil, codec.encodes_nil)))
  text_result fuel (b ∷ t) s lt =
      rw (more_than_none b t) (wupper_loop-Returns fuel (b ∷ t) 0 [] s (omega arith))

  string_result :
      (L : Lua) (fuel : ℕ) (t : Text) (s : State E.World)
      → check_bytes L 1 s ≡ (ok t, s)
      → length t < fuel
      → Returns E (UpperCase t) [] s (ape_extra_wupper E size L fuel s)
  unfolding ape_extra_wupper
  string_result L fuel t s e lt =
      let k = λ (z : Text).
        if ltb 0 (length z)
        then wupper_loop E size fuel z 0 []
        else (do push (string []); pure 1) in
      subst (λ r. Returns E (UpperCase t) [] s (((λ _. r) >>= k) s)) (sym e)
        (text_result fuel t s lt)

  -- `wupper` on a text, with more rounds than the text has bytes: the one result is a text to which
  -- the upper case of the text's words is encoded, or the results are the failure of the last
  -- conversion. There is no Lua error, and no memory changes. This holds of conversions that, in a
  -- buffer for 6 or more, consume a prefix of their input, some of it if they write anything, and
  -- succeed without output only if nothing is left. The buffer for the text has 6 bytes or more.
  pub wupper-Returns :
      (L : Lua) (fuel : ℕ) (v : Value) (t : Text) (s : State E.World)
      → value_at 1 s ≡ some v
      → L.string_of v ≡ some t
      → length t < fuel
      → Returns E (UpperCase t) [] s (ape_extra_wupper E size L fuel s)
  wupper-Returns L fuel v t s at is lt = string_result L fuel t s (rw (at, is)) lt

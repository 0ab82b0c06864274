-- ===== src/Extra/Codec.antt =====
-- What is asked of the conversions that src/ape_extra.c calls, and what their failures look like.
use mathlib.Core.Bool.{true≢false}
use prg_buildsh.Prelude.{
  ℕ, zero, suc, ◌-◌, ◌≤◌, ◌<◌, ◌≡◌, refl, sym, ap, ◌∙◌, ◌⊎◌, inl, inr, true, false, List, [], ◌∷◌,
  ◌++◌, append_assoc, arith, ◌==◌, Bool-cases, length, take, drop, Text,
}
use prg_buildsh.Machine.{
  string, Call, Status, Apr, Result, ok, raised, State, results, failure, count, ape_status,
}
use prg_buildsh.Extra.Wide.{is_failure}

-- What a conversion has done: R relates what it has consumed to what it has written.
pub record IsConversion {A B : Type 0} (R : List A → List B → Type 0) (xs : List A) (rv : Status)
    (left : ℕ) (ys : List B) : Type 0 where
  pub within : left ≤ length xs
  pub related : R (take (length xs - left) xs) ys
  -- a full buffer is a success too, with input left; success without output is the end of it
  pub whole : (rv == 0) ≡ true → (length ys == 0) ≡ true → left ≡ 0
  -- nothing comes of nothing
  pub progress : (length ys == 0) ≡ false → left < length xs

-- Relations of texts to words that hold of a whole if they hold of its parts, and hold of what the
-- conversions of APR do in a buffer with room for the longest encoding of a character, 6 bytes.
-- What is left of the input, by a full buffer or an incomplete character, is not consumed.
pub record IsCodec (E : Apr) (Decodes : Text → List ℕ → Type 0) (Encodes : List ℕ → Text → Type 0)
    : Type 0 where
  pub decodes_nil : Decodes [] []
  pub decodes_append :
      (s t : Text) (us ws : List ℕ) → Decodes s us → Decodes t ws → Decodes (s ++ t) (us ++ ws)
  pub encodes_nil : Encodes [] []
  pub encodes_append :
      (us ws : List ℕ) (s t : Text) → Encodes us s → Encodes ws t → Encodes (us ++ ws) (s ++ t)
  pub decoding :
      (s : Text) (room : ℕ) (w : E.World)
      → 6 ≤ room
      → let (rv, left, ws) = (E.run (Call.conv_utf8_to_ucs2 s room) w).0 in
        IsConversion Decodes s rv left ws
  pub encoding :
      (ws : List ℕ) (room : ℕ) (w : E.World)
      → 6 ≤ room
      → let (rv, left, s) = (E.run (Call.conv_ucs2_to_utf8 ws room) w).0 in
        IsConversion Encodes ws rv left s

-- Without success and without output there is a failure, and no failure is a success.
failed_lem :
    (E : Apr) (rv : Status) (n : ℕ) → (rv == 0) ≡ false → (n == 0) ≡ true → is_failure E rv n ≡ true
failed_lem E rv n bad nothing = ground arith

pub failed-ne : (E : Apr) (rv : Status) (n : ℕ) → is_failure E rv n ≡ true → (rv == 0) ≡ false
failed-ne E rv n h = ground (arith, E.einval_ne)

pub drop_past : {A : Type 0} (n : ℕ) (xs : List A) → length xs ≤ n → drop n xs ≡ []
drop_past zero [] le = refl
drop_past zero (x ∷ xs) le = absurd (omega arith)
drop_past (suc n) [] le = refl
drop_past (suc n) (x ∷ xs) le = drop_past n xs (omega arith)

module _ (E : Apr) {A B : Type 0} {R : List A → List B → Type 0} where
  -- A conversion of something that has not failed has consumed something.
  pub consumes :
      (xs : List A) (rv : Status) (left : ℕ) (ys : List B)
      → IsConversion R xs rv left ys
      → 0 < length xs
      → is_failure E rv (length ys) ≡ false
      → 0 < length xs - left
  consumes xs rv left ys c some_left fine = elim (Bool-cases (length ys == 0)) [
    | inr something ↦ omega (arith, c.progress something)
    | inl nothing ↦ elim (Bool-cases (rv == 0)) [
      | inl good ↦ omega (arith, c.whole good nothing)
      | inr bad ↦ absurd (true≢false (sym (failed_lem E rv (length ys) bad nothing) ∙ fine))
    ]
  ]

-- No memory but the Lua stack has changed.
abbrev pub Same : {W : Type 0} → State W → State W → Type 0
Same s u = (u.args ≡ s.args) × (u.pushed ≡ s.pushed) × (u.block ≡ s.block) × (u.tables ≡ s.tables)

pub Same-trans : {W : Type 0} (s u v : State W) → Same s u → Same u v → Same s v
Same-trans s u v (a, p, b, t) (a', p', b', t') = (a' ∙ a, p' ∙ p, b' ∙ b, t' ∙ t)

module _ (E : Apr) where
  -- The call failed with the status rv.
  abbrev pub Rejected : Call → Status → E.World → Type 0
  Rejected (Call.conv_utf8_to_ucs2 s room) rv w =
      let (status, left, ws) = (E.run (Call.conv_utf8_to_ucs2 s room) w).0 in
      (status ≡ rv) × (is_failure E rv (length ws) ≡ true)
  Rejected (Call.conv_ucs2_to_utf8 ws room) rv w =
      let (status, left, s) = (E.run (Call.conv_ucs2_to_utf8 ws room) w).0 in
      (status ≡ rv) × (is_failure E rv (length s) ≡ true)
  Rejected _ rv w = ⊥

  -- The last call was a conversion, and it failed with the status rv.
  pub record LastFailed (rv : Status) (u : State E.World) : Type 0 where
    pub call : Call
    pub before : E.World
    pub past : List Call
    pub last : u.trace ≡ call ∷ past
    pub rejected : Rejected call rv before

  -- One text that satisfies P behind buf, or the failure of the last conversion; no Lua error, and
  -- nothing of the memory has changed.
  abbrev pub Returns : (Text → Type 0) → Text → State E.World → Result ℕ × State E.World → Type 0
  Returns P buf s (ok n, u) =
      (u.args ≡ s.args)
      × (u.block ≡ s.block)
      × (u.tables ≡ s.tables)
      × (((o : Text) × (results n u ≡ string (buf ++ o) ∷ []) × P o)
          ⊎ ((rv : Status) × (results n u ≡ failure E rv) × LastFailed rv u))
  Returns P buf s (raised e, u) = ⊥

  -- A loop goes on with a part o written.
  pub next-Returns :
      (P Q : Text → Type 0) (buf o : Text) (s u : State E.World) (r : Result ℕ × State E.World)
      → Same s u
      → ((o' : Text) → Q o' → P (o ++ o'))
      → Returns Q (buf ++ o) u r
      → Returns P buf s r
  next-Returns P Q buf o s u (ok n, v) (a, p, b, t) f (a', b', t', inl (o', e, h)) = (
    a' ∙ a,
    b' ∙ b,
    t' ∙ t,
    inl (o ++ o', e ∙ ap (λ z. string z ∷ []) (append_assoc buf o o'), f o' h),
  )
  next-Returns P Q buf o s u (ok n, v) (a, p, b, t) f (a', b', t', inr h) =
      (a' ∙ a, b' ∙ b, t' ∙ t, inr h)
  next-Returns P Q buf o s u (raised e, v) same f h = h

  pub Same-Returns :
      (P : Text → Type 0) (buf : Text) (s u : State E.World) (r : Result ℕ × State E.World)
      → Same s u
      → Returns P buf u r
      → Returns P buf s r
  Same-Returns P buf s u (ok n, v) (a, p, b, t) (a', b', t', h) = (a' ∙ a, b' ∙ b, t' ∙ t, h)
  Same-Returns P buf s u (raised e, v) same h = h

  -- The status of a failed conversion is returned.
  pub failed-Returns :
      (P : Text → Type 0) (buf : Text) (rv : Status) (s u : State E.World)
      → Same s u
      → (rv == 0) ≡ false
      → LastFailed rv u
      → Returns P buf s (ape_status E (count 0) rv u)
  unfolding ape_status
  failed-Returns P buf rv s u (a, p, b, t) bad f = rw bad (
    a,
    b,
    t,
    inr (
      rv,
      refl,
      record {
        call = f.call;
        before = f.before;
        past = f.past;
        last = f.last;
        rejected = f.rejected;
      },
    ),
  )

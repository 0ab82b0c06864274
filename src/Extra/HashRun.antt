-- ===== src/Extra/HashRun.antt =====
-- The steps of `hash_file` (src/ape_extra.c) and what a trace says of them.
use prg_buildsh.Prelude.{
  ℕ, suc, ◌≡◌, refl, inl, inr, Bool, true, false, Option, none, some, List, [], ◌∷◌, ◌++◌, arith,
  ltb, ◌==◌, if◌then◌else◌, Bool-cases, length, Text,
}
use prg_buildsh.Machine.{Finfo, Call, Status, Apr, ok, State, M}
use prg_buildsh.Extra.HashFile.{hash_mask, close_with, close_true, hash_loop}

abbrev is_close : ℕ → Call → Bool
is_close f (Call.file_close g) = f == g
is_close f _ = false

-- How often a trace closes the file f.
abbrev pub closes : ℕ → List Call → ℕ
closes f [] = 0
closes f (c ∷ cs) = let n = closes f cs in if is_close f c then suc n else n

-- The bytes that a trace adds to the hash h, the first ones first.
abbrev added_by : ℕ → Call → Option Text
added_by h (Call.hash_add g bytes) = if h == g then some bytes else none
added_by h _ = none

abbrev append_some : Text → Option Text → Text
append_some t none = t
append_some t (some bytes) = t ++ bytes

abbrev pub added : ℕ → List Call → Text
added h [] = []
added h (c ∷ cs) = append_some (added h cs) (added_by h c)

abbrev pub concat : List Text → Text
concat [] = []
concat (t ∷ ts) = t ++ concat ts

pub same : (n : ℕ) → (n == n) ≡ true
same n = ground arith

module _ (E : Apr) (h file : ℕ) where
  abbrev pub read_status : State E.World → Status
  read_status s = (E.run (Call.file_read file 4096) s.world).0.0

  abbrev pub read_bytes : State E.World → Text
  read_bytes s = (E.run (Call.file_read file 4096) s.world).0.1

  abbrev pub after_read : State E.World → State E.World
  after_read s = record s {
    world = (E.run (Call.file_read file 4096) s.world).1;
    trace = Call.file_read file 4096 ∷ s.trace;
  }

  -- After the bytes of a read have been added to the hash, if there are any.
  abbrev pub after_add : State E.World → State E.World
  after_add s =
      if ltb 0 (length (read_bytes s))
      then record s {
        world = (E.run (Call.hash_add h (read_bytes s)) (after_read s).world).1;
        trace = Call.hash_add h (read_bytes s) ∷ Call.file_read file 4096 ∷ s.trace;
      }
      else after_read s

  pub loop_more :
      (fuel : ℕ) (s : State E.World)
      → (read_status s == 0) ≡ true
      → hash_loop E (suc fuel) h file s ≡ hash_loop E fuel h file (after_add s)
  unfolding hash_loop
  loop_more fuel s more = elim (Bool-cases (ltb 0 (length (read_bytes s)))) [
    | inl full ↦ ground arith
    | inr empty ↦ ground arith
  ]

  pub loop_end :
      (fuel : ℕ) (s : State E.World)
      → (read_status s == 0) ≡ false
      → hash_loop E (suc fuel) h file s ≡ (ok (read_status s), after_read s)
  unfolding hash_loop
  loop_end fuel s end = ground arith

  pub pushed-after_add : (s : State E.World) → (after_add s).pushed ≡ s.pushed
  pushed-after_add s = elim (Bool-cases (ltb 0 (length (read_bytes s)))) [
    | inl full ↦ rw full refl
    | inr empty ↦ rw empty refl
  ]

  abbrev pub info : State E.World → Status × Finfo
  info s = (E.run (Call.file_info_get hash_mask file) s.world).0

  abbrev pub after_info : State E.World → State E.World
  after_info s = record s {
    world = (E.run (Call.file_info_get hash_mask file) s.world).1;
    trace = Call.file_info_get hash_mask file ∷ s.trace;
  }

  -- The two ways to leave with a closed file.
  abbrev pub fail : Status → M E.World ℕ
  fail = close_with E file

  abbrev pub succeed : M E.World ℕ
  succeed = close_true E file

  abbrev pub ended : Status → M E.World ℕ
  ended rv = if E.is_eof rv then succeed else fail rv

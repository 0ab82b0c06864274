-- ===== src/Extra/Closing.antt =====
-- `hash_file` closes its file on every path: src/ape_extra.c.
use prg_buildsh.Prelude.{
  ℕ, zero, suc, ◌+◌, ◌≡◌, refl, ◌∙◌, inl, inr, arith, ltb, ◌==◌, if◌then◌else◌, Bool-cases, length,
}
use prg_buildsh.Machine.{
  Lua, Call, Status, Apr, bad_argument, bad_top, invalid_key, failed, out_of_fuel, Result, ok,
  raised, State, ◌>>=◌, call, ape_status,
}
use prg_buildsh.Extra.HashFile.{hash_loop, hash_open_file}
use prg_buildsh.Extra.Search.{is_regular}
use prg_buildsh.Extra.HashRun.{
  closes, same, read_status, read_bytes, after_add, loop_more, loop_end, info, after_info, fail,
  succeed, ended,
}

module _ (L : Lua) (E : Apr) (h file : ℕ) where
  abbrev Unclosed : State E.World → Result Status × State E.World → Type 0
  Unclosed s (ok rv, t) = closes file t.trace ≡ closes file s.trace
  Unclosed s (raised out_of_fuel, t) = Unit
  Unclosed s (raised _, t) = ⊥

  closes-after_add :
      (s : State E.World) → closes file (after_add E h file s).trace ≡ closes file s.trace
  closes-after_add s = elim (Bool-cases (ltb 0 (length (read_bytes E h file s)))) [
    | inl full ↦ rw full refl
    | inr empty ↦ rw empty refl
  ]

  Unclosed-of_eq :
      (s t : State E.World) (r : Result Status × State E.World)
      → closes file t.trace ≡ closes file s.trace
      → Unclosed t r
      → Unclosed s r
  Unclosed-of_eq s t (ok rv, u) e h = h ∙ e
  Unclosed-of_eq s t (raised out_of_fuel, u) e h = tt
  Unclosed-of_eq s t (raised (bad_argument i), u) e h = h
  Unclosed-of_eq s t (raised bad_top, u) e h = h
  Unclosed-of_eq s t (raised invalid_key, u) e h = h
  Unclosed-of_eq s t (raised (failed m c), u) e h = h

  hash_loop-Unclosed : (fuel : ℕ) (s : State E.World) → Unclosed s (hash_loop E fuel h file s)
  hash_loop-Unclosed zero s = unfold hash_loop in tt
  hash_loop-Unclosed (suc fuel) s = elim (Bool-cases (read_status E h file s == 0)) [
    | inl more ↦ rw (loop_more E h file fuel s more) (
        Unclosed-of_eq s (after_add E h file s) (hash_loop E fuel h file (after_add E h file s))
          (closes-after_add s) (hash_loop-Unclosed fuel (after_add E h file s)))
    | inr end ↦ rw (loop_end E h file fuel s end) refl
  ]

  -- The file is closed once more than before, whatever is returned.
  abbrev pub ClosedOnce : State E.World → Result ℕ × State E.World → Type 0
  ClosedOnce s (ok n, t) = closes file t.trace ≡ closes file s.trace + 1
  ClosedOnce s (raised out_of_fuel, t) = Unit
  ClosedOnce s (raised _, t) = ⊥

  one_more : (n : ℕ) → (if file == file then suc n else n) ≡ n + 1
  one_more n = rw (same file) (omega arith)

  fail-ClosedOnce :
      (s u : State E.World) (rv : Status)
      → closes file u.trace ≡ closes file s.trace
      → ClosedOnce s (fail E h file rv u)
  unfolding ape_status
  fail-ClosedOnce s u rv e = elim (Bool-cases (rv == 0)) [
    | inl good ↦ rw (good, e) (one_more (closes file s.trace))
    | inr bad ↦ rw (bad, e) (one_more (closes file s.trace))
  ]

  succeed-ClosedOnce :
      (s u : State E.World)
      → closes file u.trace ≡ closes file s.trace
      → ClosedOnce s (succeed E h file u)
  succeed-ClosedOnce s u e = rw e (one_more (closes file s.trace))

  ended-ClosedOnce :
      (s u : State E.World) (r : Result Status × State E.World)
      → closes file u.trace ≡ closes file s.trace
      → Unclosed u r
      → ClosedOnce s (((λ v. r) >>= ended E h file) u)
  ended-ClosedOnce s u (ok rv, v) e h = elim (Bool-cases (E.is_eof rv)) [
    | inl eof ↦ rw eof (succeed-ClosedOnce s v (h ∙ e))
    | inr error ↦ rw error (fail-ClosedOnce s v rv (h ∙ e))
  ]
  ended-ClosedOnce s u (raised out_of_fuel, v) e h = tt
  ended-ClosedOnce s u (raised (bad_argument i), v) e h = h
  ended-ClosedOnce s u (raised bad_top, v) e h = h
  ended-ClosedOnce s u (raised invalid_key, v) e h = h
  ended-ClosedOnce s u (raised (failed m c), v) e h = h

  abbrev map_file : ℕ → State E.World → Call
  map_file pool s = Call.mmap_create file (L.size_of (info E h file s).1.size) pool

  -- Whatever the calls answer, `hash_file` closes the file that it has opened exactly once before
  -- it returns, on success and on every error, and raises no Lua error; the loop of reads may only
  -- run out of the rounds that the model gives it.
  pub hash_open_file-ClosedOnce :
      (fuel pool : ℕ) (s : State E.World) → ClosedOnce s (hash_open_file L E fuel h file pool s)
  unfolding hash_open_file
  hash_open_file-ClosedOnce fuel pool s = elim (Bool-cases ((info E h file s).0 == 0)) [
    | inr bad ↦ rw bad (fail-ClosedOnce s (after_info E h file s) (info E h file s).0 refl)
    | inl good ↦ elim (Bool-cases (is_regular (info E h file s).1.filetype)) [
      | inr special ↦ rw (good, special) (one_more (closes file s.trace))
      | inl regular ↦ elim (Bool-cases (E.mmap_candidate (info E h file s).1.size)) [
        | inr small ↦
            rw (good, regular, small)
              (ended-ClosedOnce s (after_info E h file s)
                (hash_loop E fuel h file (after_info E h file s)) refl
                (hash_loop-Unclosed fuel (after_info E h file s)))
        | inl candidate ↦
            elim (Bool-cases ((E.run (map_file pool s) (after_info E h file s).world).0.0 == 0)) [
              | inr bad ↦
                  rw (good, regular, candidate, bad)
                    (fail-ClosedOnce s (call E (map_file pool s) (after_info E h file s)).1
                      (E.run (map_file pool s) (after_info E h file s).world).0.0 refl)
              | inl mapped ↦ rw (good, regular, candidate, mapped) (one_more (closes file s.trace))
            ]
      ]
    ]
  ]

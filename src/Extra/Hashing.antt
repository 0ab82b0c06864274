-- ===== src/Extra/Hashing.antt =====
-- `hash_file` hashes all that it reads: src/ape_extra.c.
use mathlib.Core.Path.{subst}
use prg_buildsh.Prelude.{
  ℕ, zero, suc, ◌<◌, ◌≡◌, refl, sym, ap, ◌∙◌, inl, inr, true, false, List, [], ◌∷◌, ◌++◌,
  append_assoc, append-nil, arith, ltb, ◌==◌, if◌then◌else◌, Bool-cases, length, Text, pos,
}
use prg_buildsh.Machine.{
  Value, nil, boolean, number, string, Lua, Status, Apr, Result, ok, State, ◌>>=◌, ape_status,
}
use prg_buildsh.Extra.HashFile.{hash_loop, hash_open_file}
use prg_buildsh.Extra.Search.{is_regular}
use prg_buildsh.Extra.HashRun.{
  added, concat, same, read_status, read_bytes, after_read, after_add, loop_more, loop_end,
  pushed-after_add, info, after_info, ended,
}

empty_of_length : (t : Text) → ltb 0 (length t) ≡ false → t ≡ []
empty_of_length [] e = refl
empty_of_length (c ∷ t) e = ground arith

module _ (L : Lua) (E : Apr) (h file : ℕ) where
  -- The reads that follow a state until one of them fails: their bytes, and the status of the last.
  pub data Reads : State E.World → List Text → Status → Type 0 where
    stops :
        {s : State E.World}
        → (read_status E h file s == 0) ≡ false
        → Reads s [] (read_status E h file s)
    reads :
        {s : State E.World} {chunks : List Text} {rv : Status}
        → (read_status E h file s == 0) ≡ true
        → Reads (after_add E h file s) chunks rv
        → Reads s (read_bytes E h file s ∷ chunks) rv

  added-after_add :
      (s : State E.World)
      → added h (after_add E h file s).trace ≡ added h s.trace ++ read_bytes E h file s
  added-after_add s = elim (Bool-cases (ltb 0 (length (read_bytes E h file s)))) [
    | inl full ↦ rw (full, same h) refl
    | inr empty ↦
        rw (empty, empty_of_length (read_bytes E h file s) empty)
          (sym (append-nil (added h s.trace)))
  ]

  -- With more rounds than reads the loop ends with the status of the last read, and has added all
  -- that was read to the hash, in order.
  hash_loop-Reads :
      (fuel : ℕ) {s : State E.World} {chunks : List Text} {rv : Status}
      → Reads s chunks rv
      → length chunks < fuel
      → (t : State E.World) × (hash_loop E fuel h file s ≡ (ok rv, t))
        × (t.pushed ≡ s.pushed)
        × (added h t.trace ≡ added h s.trace ++ concat chunks)
  hash_loop-Reads zero r lt = absurd (omega arith)
  hash_loop-Reads (suc fuel) (stops {s} end) lt = (
    after_read E h file s,
    loop_end E h file fuel s end,
    refl,
    sym (append-nil (added h s.trace)),
  )
  hash_loop-Reads (suc fuel) (reads {s} {chunks} more r) lt =
      let (t, run, pushed, sum) = hash_loop-Reads fuel r (omega arith) in
      (
        t,
        loop_more E h file fuel s more ∙ run,
        pushed ∙ pushed-after_add E h file s,
        sum
            ∙ ap (λ x. x ++ concat chunks) (added-after_add s)
            ∙ append_assoc (added h s.trace) (read_bytes E h file s) (concat chunks),
      )

  -- What a run that ends with the status rv leaves on the stack.
  abbrev pub Returned : Status → List Value → Result ℕ × State E.World → Type 0
  Returned rv below (r, u) =
      (r ≡ ok (if E.is_eof rv then 1 else 3))
      × (u.pushed ≡ (
          if E.is_eof rv
          then boolean true ∷ below
          else number (pos rv) ∷ string (E.strerror rv) ∷ nil ∷ below))

  Reads-failed :
      {s : State E.World} {chunks : List Text} {rv : Status} → Reads s chunks rv → (rv == 0) ≡ false
  Reads-failed (stops end) = end
  Reads-failed (reads more r) = Reads-failed r

  ended-Returned :
      (t : State E.World) (rv : Status)
      → (rv == 0) ≡ false
      → Returned rv t.pushed (ended E h file rv t)
        × (added h (ended E h file rv t).1.trace ≡ added h t.trace)
  unfolding ape_status
  ended-Returned t rv bad = elim (Bool-cases (E.is_eof rv)) [
    | inl eof ↦ rw eof ((refl, refl), refl)
    | inr error ↦ rw (error, bad) ((refl, refl), refl)
  ]

  -- A regular file that is no candidate for a mapping is read.
  hash_open_file-loop :
      (fuel pool : ℕ) (s t : State E.World) (rv : Status)
      → ((info E h file s).0 == 0) ≡ true
      → is_regular (info E h file s).1.filetype ≡ true
      → E.mmap_candidate (info E h file s).1.size ≡ false
      → hash_loop E fuel h file (after_info E h file s) ≡ (ok rv, t)
      → hash_open_file L E fuel h file pool s ≡ ended E h file rv t
  unfolding hash_open_file
  hash_open_file-loop fuel pool s t rv good regular small run =
      rw (good, regular, small)
        (ap (λ r. ((λ v. r) >>= ended E h file) (after_info E h file s)) run)

  -- A regular file that is no candidate for a mapping, whose reads give the chunks and then end
  -- with the status rv: with more rounds than chunks `hash_file` returns, `true` if rv is the end
  -- of the file and `nil`, the message and the code of rv if not; and the hash has been given the
  -- concatenation of the chunks, after what it had been given before.
  pub hash_open_file-Reads :
      (fuel pool : ℕ) (s : State E.World) {chunks : List Text} {rv : Status}
      → ((info E h file s).0 == 0) ≡ true
      → is_regular (info E h file s).1.filetype ≡ true
      → E.mmap_candidate (info E h file s).1.size ≡ false
      → Reads (after_info E h file s) chunks rv
      → length chunks < fuel
      → Returned rv s.pushed (hash_open_file L E fuel h file pool s)
        × (added h (hash_open_file L E fuel h file pool s).1.trace
            ≡ added h s.trace ++ concat chunks)
  hash_open_file-Reads fuel pool s {chunks} {rv} good regular small r lt =
      let (t, run, pushed, sum) = hash_loop-Reads fuel r lt in
      let (returned, same_added) = ended-Returned t rv (Reads-failed r) in
      subst (λ r. Returned rv s.pushed r × (added h r.1.trace ≡ added h s.trace ++ concat chunks))
        (sym (hash_open_file-loop fuel pool s t rv good regular small run))
        (subst (λ p. Returned rv p (ended E h file rv t)) pushed returned, same_added ∙ sum)

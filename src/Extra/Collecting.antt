-- ===== src/Extra/Collecting.antt =====
-- What `run_collect` gives back once the program runs: src/ape_extra.c.
use mathlib.Core.Path.{subst}
use prg_buildsh.Prelude.{
  ℕ, zero, suc, ◌<◌, ◌≡◌, refl, sym, ap, ◌∙◌, inl, inr, Bool, true, false, not, List, [], ◌∷◌, ◌++◌,
  append_assoc, arith, ◌==◌, if◌then◌else◌, Bool-cases, Text, ℤ,
}
use prg_buildsh.Machine.{
  Value, string, Lua, Call, Apr, Status, ok, State, ◌>>=◌, results, ape_status, failure, Result,
}
use prg_buildsh.Proc.Waiting.{end_values}
use prg_buildsh.Extra.Collect.{read_all, status_with_output, end_output, collect_output}

module _ (L : Lua) (E : Apr) (size proc out : ℕ) where
  -- The answer of a read of the pipe, and the state after it.
  abbrev pub pipe_status : State E.World → Status
  pipe_status s = (E.run (Call.file_read out size) s.world).0.0

  abbrev pub pipe_bytes : State E.World → Text
  pipe_bytes s = (E.run (Call.file_read out size) s.world).0.1

  abbrev pub after_pipe : State E.World → State E.World
  after_pipe s = record s {
    world = (E.run (Call.file_read out size) s.world).1;
    trace = Call.file_read out size ∷ s.trace;
  }

  -- n reads deliver bytes with success, and a further one ends the output with another status.
  pub data Drained : ℕ → State E.World → Text → Status → State E.World → Type 0 where
    drained :
        {s : State E.World}
        → (pipe_status s == 0) ≡ false
        → Drained 0 s (pipe_bytes s) (pipe_status s) (after_pipe s)
    drains :
        {n : ℕ} {s u : State E.World} {bytes : Text} {rv : Status}
        → (pipe_status s == 0) ≡ true
        → Drained n (after_pipe s) bytes rv u
        → Drained (suc n) s (pipe_bytes s ++ bytes) rv u

  Drained-failed :
      {n : ℕ} {s u : State E.World} {bytes : Text} {rv : Status}
      → Drained n s bytes rv u
      → (rv == 0) ≡ false
  Drained-failed (drained h) = h
  Drained-failed (drains h d) = Drained-failed d

  read_all-Drained :
      (fuel : ℕ) {n : ℕ} {s u : State E.World} {bytes : Text} {rv : Status} (buf : Text)
      → Drained n s bytes rv u
      → n < fuel
      → read_all L E size fuel out buf s ≡ (ok (rv, buf ++ bytes), u)
  unfolding read_all
  read_all-Drained zero buf d lt = absurd (omega arith)
  read_all-Drained (suc fuel) buf (drained h) lt = rw h refl
  read_all-Drained (suc fuel) buf (drains {s = s} {u = u} {bytes = bytes} {rv = rv} h d) lt = rw h (
      read_all-Drained fuel (buf ++ pipe_bytes s) d (omega arith)
      ∙ ap (λ b. (ok (rv, b), u)) (append_assoc buf (pipe_bytes s) bytes))

  -- The state when the pipe has been closed and the process awaited, and how it has ended.
  abbrev pub after_close : State E.World → E.World
  after_close u = (E.run (Call.file_close out) u.world).1

  abbrev pub ending : Bool → State E.World → Status × ℤ × Bool
  ending f u = (E.run (Call.proc_wait proc f) (after_close u)).0

  -- What is returned: how the process has ended, or what went wrong, and always the output.
  abbrev pub collected : Text → Status → State E.World → List Value
  collected output rv u =
      let (rv', exitcode, exited) = ending true u in
      (if not (E.is_eof rv)
        then failure E rv
        else if not (E.is_child_done rv')
        then failure E rv'
        else end_values exitcode exited)
      ++ (string output ∷ [])

  -- The pipe is closed once and the process is awaited once, after all reads.
  abbrev pub CollectedOutput : Text → Status → State E.World → Result ℕ × State E.World → Type 0
  CollectedOutput output rv u (r, v) =
      (r ≡ ok 4)
      × (results 4 v ≡ collected output rv u)
      × (v.trace ≡ Call.proc_wait proc (E.is_eof rv) ∷ Call.file_close out ∷ u.trace)

  end_output-CollectedOutput :
      (output : Text) (rv : Status) (u : State E.World)
      → (rv == 0) ≡ false
      → ((ending true u).0 == 0) ≡ false
      → CollectedOutput output rv u (end_output L E size proc out rv output u)
  unfolding end_output status_with_output ape_status
  end_output-CollectedOutput output rv u bad waits = elim (Bool-cases (E.is_eof rv)) [
    | inr error ↦ rw (error, bad) (refl, refl, refl)
    | inl eof ↦ elim (Bool-cases (E.is_child_done (ending true u).0)) [
      | inl ended ↦ rw (eof, ended) (refl, refl, refl)
      | inr other ↦ rw (eof, other, waits) (refl, refl, refl)
    ]
  ]

  -- The program has been started with its output in the pipe `out`, where reads deliver `bytes` and
  -- then end with the status rv; waiting for a process never gives 0. With more rounds than reads the
  -- function returns four values, of which the last is all that was delivered, in order; the pipe is
  -- closed once and the process awaited once, after all reads.
  pub collect_output-Drained :
      (fuel : ℕ) {n : ℕ} {s u : State E.World} {bytes : Text} {rv : Status}
      → Drained n s bytes rv u
      → n < fuel
      → ((w : E.World) → ((E.run (Call.proc_wait proc true) w).0.0 == 0) ≡ false)
      → CollectedOutput bytes rv u (collect_output L E size fuel proc out s)
  unfolding collect_output
  collect_output-Drained fuel {s = s} {u = u} {bytes = bytes} {rv = rv} d lt waits =
      subst
        (λ r.
          CollectedOutput bytes rv u (((λ _. r) >>= λ a. end_output L E size proc out a.0 a.1) s))
        (sym (read_all-Drained fuel [] d lt))
        (end_output-CollectedOutput bytes rv u (Drained-failed d) (waits (after_close u)))

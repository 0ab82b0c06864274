-- ===== src/Proc/Waiting.antt =====
-- What the functions that wait for processes return: src/ape_proc.c.
use mathlib.Core.Bool.{true≢false}
use prg_buildsh.Prelude.{
  ℕ, zero, suc, ◌<◌, ◌≡◌, refl, sym, ap, ◌∙◌, inl, inr, Bool, true, false, ◌&&◌, Option, none, some,
  List, [], ◌∷◌, ◌++◌, reverse, arith, ◌==◌, if◌then◌else◌, Bool-cases, length, text, ℤ,
}
use prg_buildsh.Machine.{
  Value, nil, boolean, number, string, Lua, Call, Apr, Status, ok, State, M, push, pure, ◌>>◌,
  ape_status, failure, Result,
}
use prg_buildsh.Proc.Wait.{is_zero, push_end, find_proc, wait_loop}

-- How a process has ended, as three values.
abbrev pub end_values : ℤ → Bool → List Value
end_values exitcode exited =
    boolean (exited && is_zero exitcode)
    ∷ string (if exited then text "exit" else text "signal")
    ∷ number exitcode
    ∷ []

over_true :
    (b : Bool) (o : Option Value)
    → (b && (elim o [ none ↦ true | some v ↦ false ])) ≡ true
    → (b ≡ true) × (o ≡ none)
over_true true none h = (refl, refl)
over_true true (some v) h = absurd (true≢false (sym h))
over_true false o h = absurd (true≢false (sym h))

over_false :
    (b : Bool) (o : Option Value)
    → (b && (elim o [ none ↦ true | some v ↦ false ])) ≡ false
    → b ≡ true
    → (v : Value) × (o ≡ some v)
over_false true none h e = absurd (true≢false h)
over_false true (some v) h e = (v, refl)
over_false false o h e = absurd (true≢false (sym e))

module _ (L : Lua) (E : Apr) (t : ℕ) (f : Bool) (pool : ℕ) where
  -- The answer of `apr_proc_wait_all_procs` in a state, and the state after it.
  abbrev pub waited : State E.World → Status × ℕ × ℤ × Bool
  waited s = (E.run (Call.proc_wait_all_procs f pool) s.world).0

  abbrev pub after_wait : State E.World → State E.World
  after_wait s = record s {
    world = (E.run (Call.proc_wait_all_procs f pool) s.world).1;
    trace = Call.proc_wait_all_procs f pool ∷ s.trace;
  }

  abbrev pub listed : State E.World → Option Value
  listed s = find_proc L s.block (s.tables t) (waited s).1 1 (L.rawlen (s.tables t))

  -- A process has ended which is not in the table.
  abbrev pub passes_over : State E.World → Bool
  passes_over s = (waited s).0 == E.child_done && (elim (listed s) [ none ↦ true | some v ↦ false ])

  -- n processes that are not in the table end between two states, and none after it.
  pub data Waits : ℕ → State E.World → State E.World → Type 0 where
    last : {s : State E.World} → passes_over s ≡ false → Waits 0 s s
    passed :
        {n : ℕ} {s u : State E.World}
        → passes_over s ≡ true
        → Waits n (after_wait s) u
        → Waits (suc n) s u

  -- What the function returns, by the state before the last round.
  abbrev pub wait_values : State E.World → List Value
  wait_values s =
      let (rv, pid, exitcode, exited) = waited s in
      if rv == E.child_done
      then (elim (listed s) [ none ↦ [] | some v ↦ v ∷ end_values exitcode exited ])
      else if rv == E.child_notdone
      then nil ∷ []
      else if rv == 0
      then []
      else failure E rv

  -- The end of a round in which a process has ended.
  behind_listed : ℕ → State E.World → Option Value → Result ℕ × State E.World
  behind_listed fuel s none = wait_loop L E fuel t f pool (after_wait s)
  behind_listed fuel s (some v) =
      let (rv, pid, exitcode, exited) = waited s in
      (do push v; push_end L E exitcode exited; pure 4) (after_wait s)

  wait_loop-ended :
      (fuel : ℕ) (s : State E.World)
      → ((waited s).0 == E.child_done) ≡ true
      → wait_loop L E (suc fuel) t f pool s ≡ behind_listed fuel s (listed s)
  unfolding wait_loop behind_listed
  wait_loop-ended fuel s ended =
      rw ended
        (elim (listed s)
          as (λ o.
            (elim o as (λ _. M E.World ℕ) [
              | none ↦ wait_loop L E fuel t f pool
              | some v ↦
                  let (rv, pid, exitcode, exited) = waited s in
                  do push v; push_end L E exitcode exited; pure 4
            ])
              (after_wait s)
            ≡ behind_listed fuel s o) [ none ↦ refl | some v ↦ refl ])

  wait_loop-passed :
      (fuel : ℕ) (s : State E.World)
      → passes_over s ≡ true
      → wait_loop L E (suc fuel) t f pool s ≡ wait_loop L E fuel t f pool (after_wait s)
  unfolding behind_listed
  wait_loop-passed fuel s h =
      let (ended, unlisted) = over_true ((waited s).0 == E.child_done) (listed s) h in
      wait_loop-ended fuel s ended ∙ ap (behind_listed fuel s) unlisted

  abbrev pub returned : State E.World → Result ℕ × State E.World
  returned s =
      let vs = wait_values s in
      (ok (length vs), record (after_wait s) { pushed = reverse vs ++ s.pushed })

  wait_loop-last :
      (fuel : ℕ) (s : State E.World)
      → passes_over s ≡ false
      → wait_loop L E (suc fuel) t f pool s ≡ returned s
  unfolding wait_loop ape_status behind_listed
  wait_loop-last fuel s h = elim (Bool-cases ((waited s).0 == E.child_done)) [
    | inl ended ↦
        let (v, found) = over_false ((waited s).0 == E.child_done) (listed s) h ended in
        wait_loop-ended fuel s ended ∙ ap (behind_listed fuel s) found ∙ rw (ended, found) refl
    | inr other ↦ elim (Bool-cases ((waited s).0 == E.child_notdone)) [
      | inl notdone ↦ rw (other, notdone) refl
      | inr failed ↦ elim (Bool-cases ((waited s).0 == 0)) [
        | inl success ↦ rw (other, failed, success) refl
        | inr error ↦ rw (other, failed, error) refl
      ]
    ]
  ]

  -- Enough rounds: one more than the processes that are passed over. Then the function returns what
  -- the last round gives, and has made no call but its waits.
  pub wait_loop-Waits :
      (fuel : ℕ) {n : ℕ} {s u : State E.World}
      → Waits n s u
      → n < fuel
      → wait_loop L E fuel t f pool s ≡ returned u
  wait_loop-Waits zero w lt = absurd (omega arith)
  wait_loop-Waits (suc fuel) (last {s} h) lt = wait_loop-last fuel s h
  wait_loop-Waits (suc fuel) (passed {s = s} h w) lt =
      wait_loop-passed fuel s h ∙ wait_loop-Waits fuel w (omega arith)

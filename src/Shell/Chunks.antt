-- ===== src/Shell/Chunks.antt =====
-- The status of the initial code: src/buildsh.c, from dofile to handle_luainit.
use prg_buildsh.Prelude.{
  ℕ, ◌≡◌, refl, inl, inr, Bool, true, false, Option, none, some, [], ◌∷◌, ◌==◌, if◌then◌else◌, Text,
  text, Bool-cases,
}
use prg_buildsh.Machine.{Value, nil, boolean, string}
use prg_buildsh.Shell.Outside.{
  Code, code, Ended, returned, errored, Loaded, chunk, rejected, Host, Shell, Outcome, done, thrown,
  S,
}
use prg_buildsh.Shell.Outside.{◌>>=◌, give, Called, Disposition, Collector}
use prg_buildsh.Shell.{
  report, pcall, docall, after_call, handled, run_chunk, run_init, dofile, dostring,
}
use prg_buildsh.Shell.Success.{ended_well, runs, init_runs}

module _ (H : Host) where
  -- The status of a run of a chunk, with the world and the stack after a success.
  abbrev pub Ran : Bool × H.World → Shell H.World → Outcome ℕ × Shell H.World → Type 0
  Ran (fine, w) s (done n, u) =
      (n ≡ (if fine then 0 else 1)) × ((fine ≡ true) → (u.world ≡ w) × (u.stack ≡ s.stack))
  Ran (fine, w) s (thrown v, u) = ⊥

  -- A status that is not 0 is handed on.
  pub report_failed :
      (n : ℕ) (v : Value) (s : Shell H.World)
      → (n == 0) ≡ false
      → (report H n (record s { stack = v ∷ s.stack })).0 ≡ done n
  unfolding report
  report_failed n nil s h = rw h refl
  report_failed n (boolean b) s h = rw h refl
  report_failed n (string t) s h = rw h refl
  report_failed n (Value.number k) s h = rw h refl
  report_failed n (Value.table k) s h = rw h refl
  report_failed n (Value.userdata k) s h = rw h refl
  report_failed n (Value.cfunction k) s h = rw h refl
  report_failed n (Value.other k) s h = rw h refl

  pub code_ne : (c : Code) → (code c == 0) ≡ false
  code_ne Code.errrun = refl
  code_ne Code.errsyntax = refl
  code_ne Code.errmem = refl
  code_ne Code.errerr = refl
  code_ne Code.errfile = refl

  failed-Ran :
      (w : H.World) (s : Shell H.World) (r : Outcome ℕ × Shell H.World)
      → r.0 ≡ done 1
      → Ran (false, w) s r
  failed-Ran w s (done n, u) e = (cc, λ h. absurd cc)
  failed-Ran w s (thrown v, u) e = absurd cc

  -- The end of a run, after the call.
  abbrev finish : Outcome ℕ × Shell H.World → Outcome ℕ × Shell H.World
  finish r = (((λ _. r) >>= λ status. give (if status == 0 then 0 else 1)) >>= report H) r.1

  finish-Ran :
      (now : Called) (p : ℕ) (s : Shell H.World) (e : Ended × H.World)
      → s.stack ≡ Value.userdata p ∷ []
      → Ran (ended_well H e) s (finish (after_call H now s.stack true s e))
  unfolding after_call report
  finish-Ran now p s (returned rs, w) at = rw at (refl, λ h. (refl, refl))
  finish-Ran now p s (errored c v, w) at =
      failed-Ran w s (finish (after_call H now s.stack true s (errored c v, w))) (
        rw (code_ne c) (
          report_failed 1 (handled H c v w).0
            (record s {
              sigint = Disposition.sig_dfl;
              collector = Collector.collect ∷ s.collector;
              finalizing = Disposition.sig_dfl ∷ s.finalizing;
              called = now ∷ s.called;
              world = H.collect_garbage (handled H c v w).1;
            })
            refl))

  ran : Loaded → S H.World ℕ
  ran l = run_chunk H l >>= report H

  ran-Ran :
      (l : Loaded) (p : ℕ) (s : Shell H.World)
      → s.stack ≡ Value.userdata p ∷ []
      → Ran (runs H (l, s.world)) s (ran l s)
  unfolding ran docall pcall report
  ran-Ran (rejected c v) p s at =
      failed-Ran s.world s (ran (rejected c v) s) (report_failed 1 v s refl)
  ran-Ran (chunk f) p s at =
      finish-Ran (record { function = f; arguments = []; on_interrupt = Disposition.laction }) p s
        (H.protected_call f [] s.world) at

  pub run_init-Ran :
      (v : Option Text) (p : ℕ) (s : Shell H.World)
      → s.stack ≡ Value.userdata p ∷ []
      → Ran (init_runs H v s.world) s (run_init H v s)
  unfolding run_init dofile dostring ran
  run_init-Ran none p s at = (refl, λ h. (refl, refl))
  run_init-Ran (some []) p s at =
      let (l, w) = H.load_buffer [] (text "=LUA_INIT") s.world in
      ran-Ran l p (record s { world = w }) at
  run_init-Ran (some (b ∷ chars)) p s at = elim (Bool-cases (b == b'@')) [
    | inl file ↦
        let (l, w) = H.load_file chars s.world in rw file (ran-Ran l p (record s { world = w }) at)
    | inr buffer ↦
        let (l, w) = H.load_buffer (b ∷ chars) (text "=LUA_INIT") s.world in
        rw buffer (ran-Ran l p (record s { world = w }) at)
  ]

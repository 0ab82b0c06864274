-- ===== src/Shell/Script.antt =====
-- The status of the script: src/buildsh.c, handle_script.
use mathlib.Core.List.{reverse-reverse}
use prg_buildsh.Prelude.{
  ℕ, suc, ◌+◌, ◌-◌, ◌≡◌, refl, sym, ap, ◌∙◌, Bool, true, false, Option, none, some, List, [], ◌∷◌,
  ◌++◌, map, reverse, arith, ◌==◌, if◌then◌else◌, length, take, drop, Text, text, drop-append,
  take-append, drop-append_cons, length-reverse, length-map,
}
use prg_buildsh.Machine.{Value, nil, boolean, string}
use prg_buildsh.Shell.Outside.{
  code, Ended, returned, errored, Loaded, chunk, rejected, Host, Shell, Outcome, done, thrown, S,
}
use prg_buildsh.Shell.Outside.{◌>>=◌, ◌>>◌, give, change, throw, Called, Disposition, Collector}
use prg_buildsh.Shell.{
  run_script, top, report, pcall, docall, after_call, handled, handle_script, getargs, set_args,
  load,
}
use prg_buildsh.Shell.Success.{call_accepts, loaded_accepts, script_accepts}
use prg_buildsh.Shell.Chunks.{report_failed, code_ne}

module _ (H : Host) where
  -- The exit status of the program, by the outcome of `pmain`.
  abbrev pub exit_status : Outcome ℕ → ℕ
  exit_status (done n) = if n == 0 then 0 else 1
  exit_status (thrown v) = 1

  exit_status-report_failed :
      (n : ℕ) (v : Value) (s : Shell H.World)
      → (n == 0) ≡ false
      → exit_status (report H n (record s { stack = v ∷ s.stack })).0 ≡ 1
  exit_status-report_failed n v s h = rw (report_failed H n v s h) (rw h refl)

  -- A function above its arguments is called with them.
  docall_lem :
      (xs : List Value) (f : Value) (rest : List Value) (clear : Bool) (s : Shell H.World)
      → docall H (length xs) clear (record s { stack = reverse xs ++ (f ∷ rest) })
        ≡ pcall H f xs rest clear
            (record s { stack = reverse xs ++ (f ∷ rest); sigint = Disposition.laction })
  unfolding docall
  docall_lem xs f rest clear s = rw (sym (length-reverse xs)) (
      rw (drop-append (reverse xs) (f ∷ rest)) (
        rw (take-append (reverse xs) (f ∷ rest))
          (rw (drop-append_cons (reverse xs) f rest) (rw (reverse-reverse xs) refl))))

  -- What is reported after a call that has left its results.
  report_results :
      (rs : List Value) (p : ℕ) (s : Shell H.World)
      → exit_status (report H 0 (record s { stack = rs ++ (Value.userdata p ∷ []) })).0
        ≡ (if (elim (top rs) [ boolean b ↦ b | _ ↦ true ]) then 0 else 1)
  unfolding report
  report_results [] p s = refl
  report_results (boolean true ∷ rs) p s = refl
  report_results (boolean false ∷ rs) p s = refl
  report_results (nil ∷ rs) p s = refl
  report_results (string t ∷ rs) p s = refl
  report_results (Value.number k ∷ rs) p s = refl
  report_results (Value.table k ∷ rs) p s = refl
  report_results (Value.userdata k ∷ rs) p s = refl
  report_results (Value.cfunction k ∷ rs) p s = refl
  report_results (Value.other k ∷ rs) p s = refl

  reported_call :
      (now : Called) (p : ℕ) (s : Shell H.World) (e : Ended × H.World)
      → exit_status (((λ _. after_call H now (Value.userdata p ∷ []) false s e) >>= report H) s).0
        ≡ (if call_accepts H e then 0 else 1)
  unfolding after_call
  reported_call now p s (returned rs, w) =
      report_results (reverse rs) p
        (record s { sigint = Disposition.sig_dfl; called = now ∷ s.called; world = w })
  reported_call now p s (errored c v, w) =
      exit_status-report_failed (code c) (handled H c v w).0
        (record s {
          stack = Value.userdata p ∷ [];
          sigint = Disposition.sig_dfl;
          collector = Collector.collect ∷ s.collector;
          finalizing = Disposition.sig_dfl ∷ s.finalizing;
          called = now ∷ s.called;
          world = H.collect_garbage (handled H c v w).1;
        })
        (code_ne H c)

  take-reverse : (xs r : List Value) → take (length xs) (reverse xs ++ r) ≡ reverse xs
  take-reverse xs r = rw (sym (length-reverse xs)) (take-append (reverse xs) r)

  drop-reverse : (xs r : List Value) → drop (length xs) (reverse xs ++ r) ≡ r
  drop-reverse xs r = rw (sym (length-reverse xs)) (drop-append (reverse xs) r)

  run_script_status :
      (xs : List Value) (args : List Text) (p : ℕ) (l : Loaded) (s : Shell H.World)
      → xs ≡ map string args
      → s.stack ≡ reverse xs ++ (Value.userdata p ∷ [])
      → exit_status (run_script H (length xs) l s).0
        ≡ (if loaded_accepts H args (l, s.world) then 0 else 1)
  unfolding run_script pcall
  run_script_status xs args p (chunk f) s e at = rw at (
      rw (take-reverse xs (Value.userdata p ∷ [])) (
        rw (drop-reverse xs (Value.userdata p ∷ [])) (
          ap (λ r. exit_status (((λ _. r) >>= report H) s).0)
            (docall_lem xs f (Value.userdata p ∷ []) false s)
          ∙ rw (sym e) (
              reported_call
                (record { function = f; arguments = xs; on_interrupt = Disposition.laction }) p
                (record s { stack = reverse xs ++ (f ∷ Value.userdata p ∷ []) })
                (H.protected_call f xs s.world)))))
  run_script_status xs args p (rejected c v) s e at = rw at (
      rw (drop-reverse xs (Value.userdata p ∷ [])) (
        exit_status-report_failed (code c) v (record s { stack = Value.userdata p ∷ [] })
          (code_ne H c)))

  minus_one : (n : ℕ) → suc n - 1 ≡ n
  minus_one n = omega arith

  -- The state with the arguments on the stack.
  abbrev with_arguments : Text → List Text → Shell H.World → Shell H.World
  with_arguments name args s = record s {
    stack = reverse (map string args) ++ s.stack;
    arg = set_args H 0 0 (name ∷ args) (λ _. none);
  }

  -- What becomes of the stack, by the test for room on it.
  abbrev arguments_pushed :
      Text → List Text → ℕ → Shell H.World → Option Value → Outcome ℕ × Shell H.World
  arguments_pushed name args narg s (some v) = (thrown v, s)
  arguments_pushed name args narg s none = (done narg, with_arguments name args s)

  getargs_pushed :
      (name : Text) (args : List Text) (narg : ℕ) (s : Shell H.World) (room : Option Value)
      → (elim room as (λ _. S H.World ℕ) [
        | some v ↦ throw v
        | none ↦
            change (λ s'. record s' {
              stack = reverse (map string args) ++ s'.stack;
              arg = set_args H 0 0 (name ∷ args) (λ _. none);
            })
            >> give narg
      ])
          s
        ≡ arguments_pushed name args narg s room
  getargs_pushed name args narg s none = refl
  getargs_pushed name args narg s (some v) = refl

  getargs_lem :
      (name : Text) (args : List Text) (s : Shell H.World)
      → getargs H (name ∷ args) 0 s
        ≡ arguments_pushed name args (length args) s (H.check_stack (length args + 3) s.world)
  unfolding getargs
  getargs_lem name args s =
      let narg = length (name ∷ args) - 1 in
      getargs_pushed name args narg s (H.check_stack (narg + 3) s.world)
      ∙ ap (λ n. arguments_pushed name args n s (H.check_stack (n + 3) s.world))
          (minus_one (length args))

  script_behind : Text → List Text → Shell H.World → Outcome ℕ × Shell H.World → ℕ
  script_behind name args s r =
      exit_status
        (((λ _. r) >>= λ narg.
            load H (H.load_buffer H.build_lua (text "@build.lua")) >>= run_script H narg)
          s).0

  -- The status of the script, from the state in which `pmain` leaves the initial code.
  pub handle_script_status :
      (name : Text) (args : List Text) (p : ℕ) (s : Shell H.World)
      → s.stack ≡ Value.userdata p ∷ []
      → exit_status (handle_script H (name ∷ args) 0 s).0
        ≡ (if script_accepts H args s.world then 0 else 1)
  unfolding handle_script run_script script_behind
  handle_script_status name args p s at =
      ap (script_behind name args s) (getargs_lem name args s)
      ∙ (elim (H.check_stack (length args + 3) s.world)
          as (λ room.
            script_behind name args s (arguments_pushed name args (length args) s room) ≡ (
              if (elim room [
                | some v ↦ false
                | none ↦
                    let (l, w) = H.load_buffer H.build_lua (text "@build.lua") s.world in
                    loaded_accepts H args (l, w)
              ])
              then 0
              else 1)) [
                | some v ↦ refl
                | none ↦
                    let (l, w) = H.load_buffer H.build_lua (text "@build.lua") s.world in
                    rw (sym (length-map string args)) (
                      run_script_status (map string args) args p l
                        (record (with_arguments name args s) { world = w }) refl
                        (ap (λ rest. reverse (map string args) ++ rest) at))
              ])

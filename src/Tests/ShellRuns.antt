-- ===== src/Tests/ShellRuns.antt =====
-- The theorems about the shell, applied to a sample of what it stands on.
use prg_buildsh.Prelude.{
  ℕ, suc, ◌≡◌, refl, true, false, none, some, [], ◌∷◌, if◌then◌else◌, Text, text, List, Option,
  negsuc,
}
use prg_buildsh.Machine.{Value, string}
use prg_buildsh.Shell.Outside.{sig_dfl, Ended, returned, errored, errrun, chunk, Host}
use prg_buildsh.Shell.{open_libraries, main, set_args}
use prg_buildsh.Shell.Signals.{hook_point, interrupt, alive, docall_signals, docall_signals-fate}
use prg_buildsh.Shell.Arguments.{set_args-place}
use prg_buildsh.Shell.Success.{succeeds}
use prg_buildsh.Shell.Exit.{main-succeeds}

-- The script returns its first argument, and fails without one. The world counts the calls.
abbrev pub sample_call : Value → List Value → ℕ → Ended × ℕ
sample_call f [] n = (errored errrun (string (text "no target")), suc n)
sample_call f (v ∷ vs) n = (returned (v ∷ []), suc n)

abbrev pub sample_text : Value → Option Text
sample_text (string t) = some t
sample_text _ = none

abbrev pub sample_host : Host
sample_host = record {
  World = ℕ;
  open_state = λ n. (true, n);
  init_variable = λ n. none;
  open_standard = λ n. (none, n);
  preload_c = λ names n. (none, n);
  preload_lua = λ mods n. (none, n);
  included = λ name. text "return ...";
  check_stack = λ k n. none;
  load_file = λ name n. (chunk (Value.cfunction name), n);
  load_buffer = λ code name n. (chunk (Value.cfunction name), n);
  protected_call = sample_call;
  to_text = sample_text;
  debug_library = λ n. Value.nil;
  traceback_of = λ v n. Value.nil;
  is_table = λ v. false;
  is_function = λ v. false;
  call_traceback = λ f v level n. (v, n);
  collect_garbage = λ n. n;
  close_state = λ n. n;
  build_lua = text "return ...";
}

main-succeeds_example :
    (main sample_host (text "buildsh") (text "all" ∷ []) 0).0
    ≡ (if succeeds sample_host (text "all" ∷ []) 0 then 0 else 1)
main-succeeds_example = main-succeeds sample_host (text "buildsh") (text "all" ∷ []) 0

set_args-place_example :
    set_args sample_host 1 0 (text "lua" ∷ text "x.lua" ∷ text "a" ∷ []) (λ _. none) (negsuc 0)
    ≡ some (text "lua")
set_args-place_example =
    set_args-place sample_host 1 (text "lua" ∷ text "x.lua" ∷ text "a" ∷ []) (negsuc 0)

-- A run without a target fails.
no_target : (main sample_host (text "buildsh") [] 0).0 ≡ 1
unfolding main open_libraries
no_target = refl

-- Lua calls the hook twice behind the interrupt, and raises one error.
docall_signals-fate_example :
    docall_signals
      (hook_point (text "a") ∷ interrupt ∷ hook_point (text "b: ") ∷ hook_point (text "c") ∷ [])
      (record { sigint = sig_dfl; hook = false })
    ≡ alive (text "b: interrupted!" ∷ []) (record { sigint = sig_dfl; hook = false })
docall_signals-fate_example =
    docall_signals-fate
      (hook_point (text "a") ∷ interrupt ∷ hook_point (text "b: ") ∷ hook_point (text "c") ∷ [])
      sig_dfl

-- ===== src/Tests/ProcRuns.antt =====
-- The theorems about processes and pools, applied to the sample.
use mathlib.Core.Option.{none, some-injective}
use prg_buildsh.Prelude.{
  suc, some, zero, ap, ℕ, ◌≡◌, refl, inr, true, [], ◌∷◌, text, arith, ◌==◌, if◌then◌else◌,
}
use prg_buildsh.Machine.{
  raised, invalid_key, number, ok, string, Lua, Value, nil, userdata, Key, Table, State, Call,
  Refuses, Each, named,
}
use prg_buildsh.Tests.Sample.{sample_lua, sample_apr, start}
use prg_buildsh.Pool.Life.{Collected, pool_gc-pool_create}
use prg_buildsh.Pool.{ape_pool_create}
use prg_buildsh.Proc.Names.{ape_procattr_methods}
use prg_buildsh.Proc.Closed.{pipe_methods, closed_streams_refused}
use prg_buildsh.Proc.Wait.{find_proc, wait_loop}
use prg_buildsh.Proc.Vectors.{ape_table2argv, ape_table2env}
use prg_buildsh.Proc.Environment.{table2env-entries, table2env-raises}
use prg_buildsh.Proc.Passed.{Elements, table2argv-Elements}
use prg_buildsh.Proc.Found.{IsFirst, find_proc-IsFirst}
use prg_buildsh.Proc.Waiting.{Waits, last, passed, returned, wait_loop-Waits}
use prg_buildsh.Extra.Collect.{collect_output}
use prg_buildsh.Extra.Collecting.{Drained, drained, drains, CollectedOutput, collect_output-Drained}

pool_gc-pool_create_example :
    Collected sample_lua sample_apr 100 200 (ape_pool_create sample_lua sample_apr (start [])).1
pool_gc-pool_create_example = pool_gc-pool_create sample_lua sample_apr (start []) refl

-- The block at 5 is that of a closed file.
closed_streams_refused_example :
    Each
      (λ f.
        Refuses sample_apr 9
          (start (userdata 7 ∷ userdata 4 ∷ userdata 5 ∷ []))
          (f (start (userdata 7 ∷ userdata 4 ∷ userdata 5 ∷ []))))
      (named pipe_methods (ape_procattr_methods sample_lua sample_apr true))
closed_streams_refused_example =
    closed_streams_refused sample_lua sample_apr (start (userdata 7 ∷ userdata 4 ∷ userdata 5 ∷ []))
      (inr refl) refl refl refl true

-- Three processes, of which the second one has the process ID 9.
abbrev process : ℕ → Value
process i = if i == 1 then userdata 11 else if i == 2 then userdata 12 else userdata 13

abbrev processes : Table
processes (Key.index i) = process i
processes _ = nil

abbrev ids : ℕ → ℕ
ids p = if p == 12 then 9 else 3

find_proc-IsFirst_example :
    IsFirst sample_lua ids processes 9 1 3 (find_proc sample_lua ids processes 9 1 3)
find_proc-IsFirst_example = find_proc-IsFirst sample_lua ids processes 9 1 3

-- Every table has three elements.
abbrev lua_of_three : Lua
lua_of_three = record sample_lua { rawlen = λ t. 3 }

-- The first two processes that end are not in the table.
abbrev children : State ℕ
children = record (start []) { block = ids; tables = λ t. processes }

abbrev two_later : State ℕ
two_later = record children {
  world = 2;
  trace = Call.proc_wait_all_procs true 8 ∷ Call.proc_wait_all_procs true 8 ∷ [];
}

two_passed : Waits lua_of_three sample_apr 20 true 8 2 children two_later
unfolding find_proc
two_passed = passed refl (passed refl (last refl))

wait_loop-Waits_example :
    wait_loop lua_of_three sample_apr 3 20 true 8 children
    ≡ returned lua_of_three sample_apr 20 true 8 two_later
wait_loop-Waits_example =
    wait_loop-Waits lua_of_three sample_apr 20 true 8 3 two_passed (omega arith)

-- Two reads deliver "ab", the third one finds the end.
abbrev drained_pipe : State ℕ
drained_pipe = record (start []) {
  world = 3;
  trace = Call.file_read 30 16 ∷ Call.file_read 30 16 ∷ Call.file_read 30 16 ∷ [];
}

two-Drained : Drained sample_lua sample_apr 16 60 30 2 (start []) (text "abab") 70014 drained_pipe
two-Drained = drains refl (drains refl (drained refl))

collect_output-Drained_example :
    CollectedOutput sample_lua sample_apr 16 60 30
      (text "abab")
      70014
      drained_pipe
      (collect_output sample_lua sample_apr 16 3 60 30 (start []))
collect_output-Drained_example =
    collect_output-Drained sample_lua sample_apr 16 60 30 3 two-Drained (omega arith) (λ w. refl)

-- The table at 20 holds two strings.
abbrev words : Table
words (Key.index i) = if i == 1 then string (text "-c") else string (text "x.c")
words _ = nil

abbrev lua_of_two : Lua
lua_of_two = record sample_lua { rawlen = λ t. 2 }

abbrev with_words : State ℕ
with_words = record (start []) { tables = λ t. words }

words-Elements : Elements lua_of_two words 1 (text "-c" ∷ text "x.c" ∷ [])
words-Elements zero x e = ap string (some-injective _ _ e)
words-Elements (suc zero) x e = ap string (some-injective _ _ e)
words-Elements (suc (suc j)) x e = absurd cc

table2argv-Elements_example :
    (ape_table2argv lua_of_two sample_apr 20 8 with_words).0
    ≡ ok (some (text "-c" ∷ text "x.c" ∷ []))
table2argv-Elements_example =
    table2argv-Elements lua_of_two sample_apr 20 8 (text "-c" ∷ text "x.c" ∷ []) with_words refl
      words-Elements refl

-- Every table has one key.
abbrev lua_of_home : Lua
lua_of_home = record sample_lua {
  next_keys = λ t. Key.field (text "HOME") ∷ [];
  next = λ t last. elim last [ nil ↦ some (some (Key.field (text "HOME"))) | _ ↦ some none ];
}

abbrev with_home : State ℕ
with_home = record (start []) { tables = λ t k. string (text "/h") }

table2env-entries_example :
    (ape_table2env lua_of_home sample_apr 20 8 with_home).0 ≡ ok (some (text "HOME=/h" ∷ []))
table2env-entries_example =
    table2env-entries lua_of_home sample_apr 8 (λ w. refl) (λ s w. refl) 20 with_home refl
      (refl, inr (inr (text "HOME", refl)), refl)

-- Every table has the key 1, which is converted to the string.
abbrev lua_of_number : Lua
lua_of_number = record sample_lua {
  string_of = λ v. elim v [ string s ↦ some s | number n ↦ some (text "1") | _ ↦ none ];
  string_of-string = λ s. refl;
  string_of-nil = refl;
  next_keys = λ t. Key.index 1 ∷ [];
  next = λ t last. elim last [ nil ↦ some (some (Key.index 1)) | string s ↦ none | _ ↦ some none ];
}

table2env-raises_example :
    (ape_table2env lua_of_number sample_apr 20 8 with_home).0 ≡ raised invalid_key
table2env-raises_example =
    table2env-raises lua_of_number sample_apr 8 (λ w. refl) (λ s w. refl) 20 {i = 1} {s1 = text "1"}
      {s2 = text "/h"} {k = Key.index 1} {ks = []} with_home refl refl refl refl refl refl

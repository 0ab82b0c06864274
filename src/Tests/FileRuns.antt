-- ===== src/Tests/FileRuns.antt =====
-- The theorems applied to the sample.
use prg_buildsh.Prelude.{ℕ, ◌≤◌, ◌≡◌, refl, true, List, [], ◌∷◌, ◌==◌, if◌then◌else◌, text, pos}
use prg_buildsh.Machine.{
  Value, nil, boolean, number, string, userdata, Call, bad_argument, ok, raised, State, results,
  Untouched, Refuses, Each, named, except, invoke,
}
use prg_buildsh.Tests.Sample.{sample_lua, sample_apr, start}
use prg_buildsh.File.Names.{ape_file_methods}
use prg_buildsh.File.Closed.{path_methods, closed_methods_refuse, path_methods_raise}
use prg_buildsh.File.Lifecycle.{handle_methods, session, closed_for_good}
use prg_buildsh.File.Effects.{close_open, gc-close, write_bound, open_result}
use prg_buildsh.File.Handles.{ape_file_close, ape_file_gc, ape_file_write}
use prg_buildsh.File.Open.{ape_file_open}

-- A closed file, with a number behind it.
abbrev closed_handle : State ℕ
closed_handle = start (userdata 5 ∷ number (pos 3) ∷ [])

closed_methods_refuse_example :
    Each
      (λ f. Refuses sample_apr 9 closed_handle (f closed_handle))
      (except (text "dup" ∷ path_methods) (ape_file_methods sample_lua sample_apr))
closed_methods_refuse_example =
    closed_methods_refuse sample_lua sample_apr closed_handle refl refl refl

path_methods_raise_example :
    Each
      (λ f. f closed_handle ≡ (raised (bad_argument 1), closed_handle))
      (named path_methods (ape_file_methods sample_lua sample_apr))
path_methods_raise_example = path_methods_raise sample_lua sample_apr closed_handle refl refl

-- `read`, `write` and `close`, and a second `close`.
abbrev some_calls : List (ℕ × List Value)
some_calls = (2, number (pos 9) ∷ []) ∷ (3, string (text "x") ∷ []) ∷ (0, []) ∷ (0, []) ∷ []

closed_for_good_example :
    Untouched closed_handle
      (session (handle_methods sample_lua sample_apr) (userdata 5) some_calls closed_handle)
closed_for_good_example =
    closed_for_good sample_lua sample_apr (userdata 5) refl some_calls closed_handle refl

abbrev open_handle : State ℕ
open_handle = start (userdata 4 ∷ string (text "hello") ∷ number (pos 3) ∷ [])

close_open_example :
    let (r, t) = ape_file_close sample_lua sample_apr open_handle in
    (t.world ≡ 1)
    × (t.trace ≡ Call.file_close 30 ∷ [])
    × ((q : ℕ) → t.block q ≡ (if 4 == q then 0 else open_handle.block q))
    × (t.tables ≡ open_handle.tables)
    × ((n : ℕ) × (r ≡ ok n) × (results n t ≡ boolean true ∷ []))
close_open_example = close_open sample_lua sample_apr open_handle refl refl refl refl

gc-close_example :
    let t = (ape_file_close sample_lua sample_apr open_handle).1 in
    let (r, u) = invoke (ape_file_gc sample_lua sample_apr) (userdata 4 ∷ []) t in
    (r ≡ ok 0) × Untouched t u
gc-close_example =
    gc-close sample_lua sample_apr open_handle refl refl refl refl {v' = userdata 4} refl refl

write_bound_example :
    (k : ℕ) × ((ape_file_write sample_lua sample_apr open_handle).1.trace
      ≡ Call.file_write 30 (text "hello") k ∷ [])
    × (k ≤ 5)
    × (k ≡ 3)
write_bound_example =
    write_bound sample_lua sample_apr open_handle refl refl refl refl refl refl refl refl refl

abbrev open_arguments : State ℕ
open_arguments = start (string (text "b") ∷ number (pos 1) ∷ nil ∷ userdata 6 ∷ [])

open_result_example :
    let (r, t) = ape_file_open sample_lua sample_apr open_arguments in
    (t.world ≡ 0)
    × ((q : ℕ) → t.block q ≡ (if 100 == q then 200 else open_arguments.block q))
    × (r ≡ ok 1)
    × (results 1 t ≡ userdata 100 ∷ [])
open_result_example = open_result sample_lua sample_apr open_arguments refl refl refl refl refl refl

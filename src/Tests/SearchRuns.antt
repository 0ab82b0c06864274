-- ===== src/Tests/SearchRuns.antt =====
-- `find_exec` and the lists of paths at concrete inputs, with a search path of two directories.
use prg_buildsh.Prelude.{
  ℕ, ◌≡◌, refl, true, Option, some, List, [], ◌∷◌, ◌++◌, map, if◌then◌else◌, Text, text, text_eq,
}
use prg_buildsh.Machine.{
  Lua, table, ok, string, userdata, Finfo, Call, Status, Answer, Apr, results, invoke, ape_status,
}
use prg_buildsh.Tests.Sample.{plain, answer, sample_lua, sample_apr, start}
use prg_buildsh.Extra.Search.{
  trailing_pool, has_separator, check_exec, check_path, ape_extra_find_exec,
}
use prg_buildsh.FilePath.{ape_filepath_list_split, ape_filepath_list_merge}
use prg_buildsh.FilePath.Lists.{list_merge-list_split}
use prg_buildsh.Extra.ExecFound.{FindsExec, Leaves}
use prg_buildsh.Extra.FindExec.{find_exec_finds}

abbrev files : Text → Status × Finfo
files path = if text_eq path (text "y/b") then (0, plain) else (2, plain)

abbrev merged : Text → Text → Status × Option Text
merged dir name = (0, some (dir ++ (text "/" ++ name)))

abbrev directories : Text → Status × Option (List Text)
directories value = (0, some (text "x" ∷ text "y" ∷ []))

abbrev exec_answer : (c : Call) → ℕ → Answer c × ℕ
exec_answer (Call.stat path mask h) w = (files path, w)
exec_answer (Call.filepath_merge dir name flags h) w = (merged dir name, w)
exec_answer (Call.filepath_list_split value h) w = (directories value, w)
exec_answer c w = answer c w

abbrev exec_apr : Apr
exec_apr = record sample_apr { run = exec_answer; may_execute = λ p. true }

abbrev names : List Text
names = text "y/a" ∷ text "b" ∷ text "c" ∷ []

find_exec_finds_example :
    Leaves sample_lua exec_apr files merged 47
      (FindsExec sample_lua exec_apr files merged 47 (0, some (text "x")) directories names)
      (start [])
      (invoke
        (ape_extra_find_exec sample_lua exec_apr 47)
        (map string names ++ (userdata 6 ∷ []))
        (start []))
find_exec_finds_example =
    find_exec_finds sample_lua exec_apr 8 files merged (λ path w. refl) (λ dir name w. refl) 47
      directories (λ value w. refl) names 6 (start []) refl refl refl

find_exec_run :
    results 2
      (invoke
        (ape_extra_find_exec sample_lua exec_apr 47)
        (map string names ++ (userdata 6 ∷ []))
        (start [])).1
    ≡ string (text "b") ∷ string (text "y/b") ∷ []
unfolding ape_extra_find_exec trailing_pool has_separator check_exec check_path ape_status
find_exec_run = refl

abbrev two_lua : Lua
two_lua = record sample_lua { rawlen = λ t. 2 }

list_merge-list_split_example :
    let (r, u) =
      invoke
        (ape_filepath_list_split two_lua exec_apr)
        (string (text "x:y") ∷ userdata 6 ∷ [])
        (start []) in
    let v = (invoke (ape_filepath_list_merge two_lua exec_apr) (table 100 ∷ userdata 6 ∷ []) u).1 in
    (r ≡ ok 1)
    × (results 1 u ≡ table 100 ∷ [])
    × (v.trace
        ≡ Call.filepath_list_merge (text "x" ∷ text "y" ∷ []) 8
          ∷ Call.array_make 8 2
          ∷ Call.newtable
          ∷ Call.filepath_list_split (text "x:y") 8
          ∷ [])
list_merge-list_split_example =
    list_merge-list_split two_lua exec_apr (text "x:y") 6 6 (text "x" ∷ text "y" ∷ []) (start [])
      refl refl refl (λ n w. refl)

-- ===== src/Tests/ExtraRuns.antt =====
-- The theorems about the search functions and about `hash_file`, applied to the sample.
use prg_buildsh.Prelude.{
  ℕ, ◌-◌, none, ◌≡◌, refl, ◌↔◌, List, [], ◌∷◌, ◌++◌, map, arith, if◌then◌else◌, Text, text, text_eq,
}
use prg_buildsh.Machine.{ape_status, Key, string, userdata, Finfo, Status, ok, invoke}
use prg_buildsh.Tests.Sample.{plain, sample_lua, sample_apr, start}
use prg_buildsh.Extra.Dirsep.{IsSplit, find_dirsep, find_dirsep_iff}
use prg_buildsh.Extra.Glob.{glob_dir}
use prg_buildsh.Extra.Globbing.{Preserves, glob_dir-Preserves}
use prg_buildsh.Extra.Listing.{IsFinite, Returns, glob_dir-Returns}
use prg_buildsh.Extra.Names.{ape_extra_basename}
use prg_buildsh.Extra.Suffix.{Stripped, basename_strips}
use prg_buildsh.Extra.Search.{ape_extra_find_file}
use prg_buildsh.Extra.Find.{Searched, find_file_finds}
use prg_buildsh.Extra.HashFile.{hash_open_file}
use prg_buildsh.Extra.HashRun.{added, after_info}
use prg_buildsh.Extra.Closing.{ClosedOnce, hash_open_file-ClosedOnce}
use prg_buildsh.Extra.Hashing.{Reads, stops, reads, Returned, hash_open_file-Reads}

find_dirsep_iff_example : IsSplit b'/' (text "a//b") 1 3 ↔ (find_dirsep b'/' (text "a//b") ≡ (1, 3))
find_dirsep_iff_example = find_dirsep_iff b'/' (text "a//b") 1 3

abbrev suffixes : List Text
suffixes = text ".h" ∷ text ".c" ∷ []

basename_strips_example :
    (r : Text) × (invoke
        (ape_extra_basename sample_lua sample_apr)
        (string (text "x.c") ∷ map string suffixes)
        (start [])
      ≡ (
        ok 1,
        record (start []) {
          args = string (text "x.c") ∷ map string suffixes;
          pushed = string r ∷ [];
        },
      ))
    × Stripped (text "x.c") suffixes r
basename_strips_example = basename_strips sample_lua sample_apr (text "x.c") suffixes (start [])

-- What the sample says of each path.
abbrev files : Text → Status × Finfo
files path = if text_eq path (text "b") then (0, plain) else (2, plain)

abbrev names : List Text
names = text "a" ∷ text "b" ∷ text "c" ∷ []

find_file_finds_example : Searched sample_lua sample_apr 8 files names (start []) (
    invoke
      (ape_extra_find_file sample_lua sample_apr)
      (map string names ++ (userdata 6 ∷ []))
      (start []))
find_file_finds_example =
    find_file_finds sample_lua sample_apr 8 files (λ path w. refl) names 6 (start []) refl refl refl

hash_open_file-ClosedOnce_example :
    ClosedOnce sample_lua sample_apr 50 30
      (start [])
      (hash_open_file sample_lua sample_apr 5 50 30 8 (start []))
hash_open_file-ClosedOnce_example =
    hash_open_file-ClosedOnce sample_lua sample_apr 50 30 5 8 (start [])

-- Two reads give bytes, the third one finds the end of the file.
two-Reads :
    Reads sample_lua sample_apr 50 30
      (after_info sample_apr 50 30 (start []))
      (text "ab" ∷ text "ab" ∷ [])
      70014
two-Reads = reads refl (reads refl (stops refl))

hash_open_file-Reads_example :
    Returned sample_lua sample_apr 50 30 70014 []
      (hash_open_file sample_lua sample_apr 5 50 30 8 (start []))
    × (added 50 (hash_open_file sample_lua sample_apr 5 50 30 8 (start [])).1.trace ≡ text "abab")
hash_open_file-Reads_example =
    hash_open_file-Reads sample_lua sample_apr 50 30 5 8 (start []) refl refl refl two-Reads
      (omega arith)

-- The directory of the sample has three entries, and the pattern is matched by every name.
glob_dir-Preserves_example :
    Preserves sample_apr 200 100 0
      (start [])
      (glob_dir sample_apr 4 (text "*.c") none 8 100 0 (start []))
glob_dir-Preserves_example =
    glob_dir-Preserves sample_apr none 8 (start []) 4 (text "*.c") 100 0 refl

abbrev left : ℕ → ℕ
left w = 3 - w

three-IsFinite : IsFinite sample_apr 200 left
three-IsFinite = record {
  reads = λ w h. ground arith;
  matches = λ pattern name w. omega arith;
  merges = λ dir name pool w. omega arith;
}

glob_dir-Returns_example : Returns (glob_dir sample_apr 4 (text "*.c") none 8 100 0 (start []))
glob_dir-Returns_example =
    glob_dir-Returns sample_apr none 8 (start []) 4 (text "*.c") 100 0 left refl three-IsFinite
      (omega arith)

three_stored :
    (glob_dir sample_apr 4 (text "*.c") none 8 100 0 (start [])).1.tables 100 (Key.index 3)
    ≡ string (text "b")
unfolding glob_dir ape_status
three_stored = refl

-- ===== src/Tests/DirRuns.antt =====
-- The theorems about directories and file information, applied to the sample.
use prg_buildsh.Prelude.{
  ℕ, Text, suc, ◌+◌, Bool, ltb, arith, ◌≡◌, refl, true, false, not, ◌&&◌, [], ◌∷◌, ◌==◌,
  if◌then◌else◌, text,
}
use prg_buildsh.Machine.{
  Call, Answer, Apr, nil, boolean, table, userdata, Field, Mask, field, Table, ok, State, Refuses,
  Each, is_listed, invoke,
}
use prg_buildsh.Machine.{uprot}
use prg_buildsh.Tests.Sample.{answer, plain, sample_lua, sample_apr, start}
use prg_buildsh.File.Info.{named_fields, is_nil, table2want, finfo2table}
use prg_buildsh.File.Names.{ape_dir_methods}
use prg_buildsh.File.ClosedDirs.{closed_dirs_refuse}
use prg_buildsh.File.Fields.{EachField, table2want_asks}
use prg_buildsh.File.Shown.{HasObjects, Entry, Grows}
use prg_buildsh.File.Filled.{finfo2table-Fills}
use prg_buildsh.File.Dirs.{ape_dir_read}
use prg_buildsh.File.Reading.{EntryRead, dir_read-results}

-- New objects lie at one address after the other, from 1000 on.
abbrev run_objects : (c : Call) → ℕ × ℕ → Answer c × (ℕ × ℕ)
run_objects (Call.newobject k) (n, w) = (1000 + n, (suc n, w))
run_objects (Call.newobject_ref k) (n, w) = (1000 + n, (suc n, w))
run_objects c (n, w) = let (a, w') = answer c w in (a, (n, w'))

abbrev objects_apr : Apr
objects_apr = record sample_apr { World = ℕ × ℕ; run = run_objects }

abbrev in_use : ℕ → ℕ × ℕ → Bool
in_use a (n, w) = ltb a (1000 + n)

in_use-fresh : (w : ℕ × ℕ) → in_use (1000 + w.0) w ≡ false
in_use-fresh (n, w) = ground arith

in_use-created : (w : ℕ × ℕ) → in_use (1000 + w.0) (suc w.0, w.1) ≡ true
in_use-created (n, w) = ground arith

in_use-kept : (w : ℕ × ℕ) (q : ℕ) → in_use q w ≡ true → in_use q (suc w.0, w.1) ≡ true
in_use-kept (n, w) q h = ground arith

rising : HasObjects objects_apr in_use
rising = record {
  fresh = λ k w. in_use-fresh w;
  fresh_ref = λ k w. in_use-fresh w;
  created = λ k w. in_use-created w;
  created_ref = λ k w. in_use-created w;
  kept = λ k w q h. in_use-kept w q h;
  kept_ref = λ k w q h. in_use-kept w q h;
  kept_flag = λ n w q h. h;
}

abbrev closed_dir : State ℕ
closed_dir = start (userdata 5 ∷ table 9 ∷ [])

closed_dirs_refuse_example :
    Each
      (λ f. Refuses sample_apr 9 closed_dir (f closed_dir))
      (ape_dir_methods sample_lua sample_apr)
closed_dirs_refuse_example = closed_dirs_refuse sample_lua sample_apr closed_dir refl refl refl

-- The table at 9 asks for the size, the time of the last change and the name, and has a field of
-- its own.
abbrev asking : ℕ → Table
asking p (field n) =
    if p == 9 && is_listed (text "size" ∷ text "mtime" ∷ text "name" ∷ text "own" ∷ []) n
    then boolean true
    else nil
asking p _ = nil

abbrev reader : State ℕ
reader = record (start (userdata 4 ∷ table 9 ∷ [])) { tables = asking }

table2want_asks_example :
    (want : Mask) × (table2want sample_lua sample_apr 2 reader ≡ (ok want, reader))
    × EachField (λ n f. want f ≡ not (is_nil (reader.tables 9 (field n)))) named_fields
    × (want uprot ≡ false)
table2want_asks_example = table2want_asks sample_lua sample_apr 2 reader {t = 9} refl

-- The same, with objects at rising addresses.
abbrev objects_reader : State (ℕ × ℕ)
objects_reader = record {
  args = userdata 4 ∷ table 9 ∷ [];
  pushed = [];
  block = reader.block;
  tables = asking;
  world = (0, 0);
  trace = [];
}

abbrev wanted : Mask
wanted = λ f. elim f [ Field.size ↦ true | Field.mtime ↦ true | Field.name ↦ true | _ ↦ false ]

finfo2table-Fills_example :
    let (r, u) = finfo2table objects_apr 9 wanted plain objects_reader in
    (r ≡ ok tt)
    × (u.args ≡ userdata 4 ∷ table 9 ∷ [])
    × (u.pushed ≡ [])
    × ((q : ℕ) → (9 == q) ≡ false → u.tables q ≡ asking q)
    × ((m : Text)
        → Entry objects_apr in_use named_fields wanted plain m
            (asking 9 (field m))
            (u.tables 9 (field m))
            u)
    × Grows objects_apr in_use objects_reader u
finfo2table-Fills_example =
    finfo2table-Fills objects_apr in_use rising plain wanted 9 objects_reader

dir_read-results_example :
    (want : Mask) × EachField
      (λ n f. want f ≡ not (is_nil (objects_reader.tables 9 (field n))))
      named_fields
    × (want uprot ≡ false)
    × EntryRead sample_lua objects_apr in_use rising objects_reader {v = userdata 4} {p = 4}
        {h = 30} 9 refl refl refl want
        (invoke (ape_dir_read sample_lua objects_apr) (userdata 4 ∷ table 9 ∷ []) objects_reader)
dir_read-results_example =
    dir_read-results sample_lua objects_apr in_use rising objects_reader {v = userdata 4} {p = 4}
      {h = 30} 9 refl refl refl

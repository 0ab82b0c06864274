-- ===== src/Tests/ValueRuns.antt =====
-- The theorems about statuses, digests and times, applied to the sample.
use mathlib.Core.Path.{subst}
use prg_buildsh.Prelude.{
  sym, ℕ, ◌≡◌, refl, true, false, not, some, [], ◌∷◌, arith, ◌==◌, length, text, text_eq, pos,
  negsuc,
}
use prg_buildsh.Machine.{IsExact, Untouched, boolean, nil, number, userdata, ok, results, invoke}
use prg_buildsh.Tests.Sample.{sample_lua, sample_apr, start}
use prg_buildsh.Errno.{Macros, ape_status_is, ape_errno_functions}
use prg_buildsh.Errno.Laws.{find, ape_errno_functions-find, ape_status_is-results}
use prg_buildsh.Random.{to_hex}
use prg_buildsh.Random.Hex.{AreHex, from_hex, to_hex_readable}
use prg_buildsh.Time.{signed, time_difference, ape_time_lt, ape_time_add, ape_time_sub}
use prg_buildsh.Time.Laws.{time_lt-results, difference_added_back}

-- A platform without the macro of ENOPOOL, where all other macros hold of 1.
abbrev pub macros : Macros
macros = record {
  defined = λ e. not (text_eq e (text "ENOPOOL"));
  status_is = λ e n. elim n [ pos k ↦ k == 1 | negsuc k ↦ false ];
}

ape_errno_functions-find_example :
    find (text "is_ENOSTAT") (ape_errno_functions sample_lua macros {W = ℕ})
    ≡ some (ape_status_is sample_lua macros (text "ENOSTAT"))
ape_errno_functions-find_example =
    ape_errno_functions-find sample_lua macros ℕ 0 (text "ENOSTAT") refl

ape_status_is-results_example :
    let (r, t) =
      invoke
        (ape_status_is sample_lua macros (text "EOF"))
        (number (pos 1) ∷ nil ∷ [])
        (start []) in
    (r ≡ ok 1) × (results 1 t ≡ nil ∷ [])
ape_status_is-results_example =
    ape_status_is-results sample_lua macros ℕ (text "EOF") (number (pos 1)) (nil ∷ []) (pos 1)
      (start []) refl

to_hex_readable_example :
    (length (to_hex (10 ∷ 255 ∷ [])) ≡ 4)
    × AreHex (to_hex (10 ∷ 255 ∷ []))
    × (from_hex (to_hex (10 ∷ 255 ∷ [])) ≡ 10 ∷ 255 ∷ [])
to_hex_readable_example = to_hex_readable (10 ∷ 255 ∷ []) (omega arith, (omega arith, tt))

twenty_two : signed (time_difference 30 8) ≡ pos 22
unfolding signed time_difference
twenty_two = refl

-- The times 30, in the block at 4, and 8, in the block at 6.
time_lt-results_example :
    let (r, t) =
      invoke (ape_time_lt sample_lua sample_apr) (userdata 6 ∷ userdata 4 ∷ []) (start []) in
    (r ≡ ok 1) × (results 1 t ≡ boolean true ∷ []) × Untouched (start []) t
time_lt-results_example =
    time_lt-results sample_lua sample_apr (start []) {v = 6} {w = 4} refl refl (omega arith)
      (omega arith)

difference_added_back_example :
    let n = signed (time_difference 30 8) in
    let (r, t) =
      invoke (ape_time_sub sample_lua sample_apr) (userdata 4 ∷ userdata 6 ∷ []) (start []) in
    let (r', t') = invoke (ape_time_add sample_lua sample_apr) (userdata 6 ∷ number n ∷ []) t in
    (r ≡ ok 1)
    × (results 1 t ≡ number n ∷ [])
    × (r' ≡ ok 1)
    × (results 1 t' ≡ userdata 100 ∷ [])
    × (t'.block 100 ≡ 30)
difference_added_back_example =
    difference_added_back sample_lua sample_apr (start []) {v = 4} {w = 6} refl refl (λ n. refl)
      (omega arith) (omega arith) (subst IsExact (sym twenty_two) (omega arith))

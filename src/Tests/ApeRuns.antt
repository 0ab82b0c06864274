-- ===== src/Tests/ApeRuns.antt =====
-- The theorems about the set-up of the module, applied to the sample.
use prg_buildsh.Prelude.{Text, ℕ, ◌≡◌, refl, true, false, [], ◌∷◌, text, pos}
use prg_buildsh.Machine.{Call, M, ok, raised}
use prg_buildsh.Tests.Sample.{sample_lua, sample_apr, start}
use prg_buildsh.Tests.ValueRuns.{macros}
use prg_buildsh.Ape.{unix, terminate_apr, luaopen_ape}
use prg_buildsh.Ape.Setup.{Options, Fcntl}
use prg_buildsh.Ape.Finalizer.{terminate_apr-luaopen_ape}

abbrev options : Options
options = record {
  dirsep = 47;
  buffer_size = 4096;
  password_required = false;
  rounds = 100;
  unicode_fs = true;
}

abbrev fcntl : Fcntl
fcntl = record { numbers = (text "O_RDONLY", pos 0) ∷ [] }

-- Functions that leave different numbers of results from an empty stack differ in this.
abbrev code : M ℕ ℕ → Text
code f = elim (f (start [])).0 [ ok n ↦ n ∷ [] | raised e ↦ [] ]

terminate_apr-luaopen_ape_example :
    let u = (luaopen_ape sample_lua sample_apr code unix options fcntl macros (start [])).1 in
    let (r, t) = terminate_apr sample_lua sample_apr 300 u in
    (r ≡ ok 0) × (t.trace ≡ Call.terminate ∷ u.trace)
terminate_apr-luaopen_ape_example =
    terminate_apr-luaopen_ape sample_lua sample_apr code unix options fcntl macros (start [])
      (λ w. refl)

-- ===== src/Shell/Interrupts.antt =====
-- The handling of interrupts in src/buildsh.c.
use prg_buildsh.Prelude.{◌≡◌, List, [], ◌∷◌}
use prg_buildsh.Shell.Outside.{Host, Called, Shell, Disposition, S, sig_dfl, laction}

abbrev pub AllGuarded : List Called → Type 0
AllGuarded [] = Unit
AllGuarded (c ∷ cs) = (c.on_interrupt ≡ laction) × AllGuarded cs

abbrev pub AllDefault : List Disposition → Type 0
AllDefault [] = Unit
AllDefault (d ∷ ds) = (d ≡ sig_dfl) × AllDefault ds

-- Outside the protected calls an interrupt ends the program, also while the shell has finalizers run,
-- and during each protected call so far the handler of the shell was installed.
abbrev pub Guarded : {W : Type 0} → Shell W → Type 0
Guarded s = (s.sigint ≡ sig_dfl) × AllGuarded s.called × AllDefault s.finalizing

module _ (H : Host) where
  abbrev Keeps : {A : Type 0} → S H.World A → Type 0
  Keeps m = (s : Shell H.World) → Guarded s → Guarded (m s).1

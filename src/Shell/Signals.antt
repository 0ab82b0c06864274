-- ===== src/Shell/Signals.antt =====
-- The handler for interrupts and its hook in src/buildsh.c: `laction` and `lstop`, and what they do
-- to a protected call. Lua calls a hook at each call, return and instruction of Lua code.
use prg_buildsh.Prelude.{
  ℕ, suc, ◌≡◌, refl, Bool, true, false, Option, none, some, List, [], ◌∷◌, ◌++◌, arith, ltb, ◌==◌,
  if◌then◌else◌, Text, text,
}
use prg_buildsh.Shell.Outside.{Disposition, sig_dfl}

-- What happens on an interrupt, and whether the hook `lstop` is set.
pub record Signals : Type 0 where
  pub sigint : Disposition
  pub hook : Bool

-- The signal sets a hook, and the next one terminates the process.
unfoldable pub laction : Signals → Signals
laction g = record g { sigint = sig_dfl; hook = true }

-- The hook takes itself away and raises an error; `position` is what `luaL_where` puts in front.
unfoldable pub lstop : Text → Signals → Text × Signals
lstop position g = (position ++ text "interrupted!", record g { hook = false })

-- An interrupt, or a point at which Lua calls a hook.
pub data Event : Type 0 where
  interrupt : Event
  hook_point : Text → Event

-- The process has been terminated, or it goes on, with the messages of the errors raised so far.
pub data Fate : Type 0 where
  terminated : Fate
  alive : List Text → Signals → Fate

abbrev pub after_error : Text → Fate → Fate
after_error msg terminated = terminated
after_error msg (alive msgs g) = alive (msg ∷ msgs) g

abbrev pub interrupted : Signals → Option Signals
unfolding laction
interrupted g = elim g.sigint [ sig_dfl ↦ none | Disposition.laction ↦ some (laction g) ]

unfoldable pub run : List Event → Signals → Fate
unfolding laction lstop
run [] g = alive [] g
run (interrupt ∷ es) g = elim (interrupted g) [ none ↦ terminated | some g' ↦ run es g' ]
run (hook_point position ∷ es) g =
    let (msg, g') = lstop position g in
    elim g.hook [ true ↦ after_error msg (run es g') | false ↦ run es g ]

abbrev pub uninstall : Fate → Fate
uninstall terminated = terminated
uninstall (alive msgs g) = alive msgs (record g { sigint = sig_dfl })

-- What an interrupt does between the two calls of `signal` in `docall`.
unfoldable pub docall_signals : List Event → Signals → Fate
unfolding run
docall_signals es g = uninstall (run es (record g { sigint = Disposition.laction }))

abbrev pub interrupts : List Event → ℕ
interrupts [] = 0
interrupts (interrupt ∷ es) = suc (interrupts es)
interrupts (hook_point position ∷ es) = interrupts es

abbrev hook_points : List Event → List Text
hook_points [] = []
hook_points (interrupt ∷ es) = hook_points es
hook_points (hook_point position ∷ es) = position ∷ hook_points es

-- The hook points behind the first interrupt.
abbrev pub points_behind : List Event → List Text
points_behind [] = []
points_behind (interrupt ∷ es) = hook_points es
points_behind (hook_point position ∷ es) = points_behind es

-- The fate of a call with one interrupt, by the hook points behind it.
abbrev pub stopped : List Text → Fate
stopped [] = alive [] (record { sigint = sig_dfl; hook = true })
stopped (position ∷ rest) =
    alive ((position ++ text "interrupted!") ∷ []) (record { sigint = sig_dfl; hook = false })

abbrev pub calm : Fate
calm = alive [] (record { sigint = sig_dfl; hook = false })

-- Behind the handler an interrupt terminates the process; nothing else happens without a hook.
unhooked :
    (es : List Event)
    → run es (record { sigint = sig_dfl; hook = false })
      ≡ (if ltb 0 (interrupts es) then terminated else calm)
unfolding run
unhooked [] = refl
unhooked (interrupt ∷ es) = ground arith
unhooked (hook_point position ∷ es) = unhooked es

hooked :
    (es : List Event)
    → run es (record { sigint = sig_dfl; hook = true })
      ≡ (if ltb 0 (interrupts es) then terminated else stopped (hook_points es))
unfolding run
hooked [] = refl
hooked (interrupt ∷ es) = ground arith
hooked (hook_point position ∷ es) = ground (arith, unhooked es)

-- What interrupts do during a protected call that begins without a hook: without one there is no
-- error and no hook is left; after a single one the first point behind it at which Lua calls a hook
-- raises the error "interrupted!", once, and without such a point the hook is left; two of them
-- terminate the process, whether the error has been raised or not. If the process goes on, the
-- default behaviour is back.
pub docall_signals-fate :
    (es : List Event) (sigint : Disposition)
    → docall_signals es (record { sigint = sigint; hook = false }) ≡ (
        if interrupts es == 0
        then calm
        else if interrupts es == 1
        then stopped (points_behind es)
        else terminated)
unfolding docall_signals
docall_signals-fate [] sigint = refl
docall_signals-fate (interrupt ∷ es) sigint = ground (arith, hooked es)
docall_signals-fate (hook_point position ∷ es) sigint = docall_signals-fate es sigint

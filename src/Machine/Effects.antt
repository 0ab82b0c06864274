-- ===== src/Machine/Effects.antt =====
-- What a call of a binding function leaves behind, as the script and the outside world see it.
use prg_buildsh.Prelude.{
  ℕ, ◌≡◌, Bool, false, List, [], ◌∷◌, Text, text_eq, pos, ◌||◌, if◌then◌else◌,
}
use prg_buildsh.Machine.Values.{Value, nil, number, string}
use prg_buildsh.Machine.Calls.{Status, Apr}
use prg_buildsh.Machine.Monad.{
  bad_argument, bad_top, invalid_key, failed, out_of_fuel, Result, ok, raised, State, M,
}
use prg_buildsh.Machine.Stack.{results}

-- No call was made, and no memory but the Lua stack of the function has changed.
abbrev pub Untouched : {W : Type 0} → State W → State W → Type 0
Untouched s t =
    (t.block ≡ s.block) × (t.tables ≡ s.tables) × (t.world ≡ s.world) × (t.trace ≡ s.trace)

-- The results nil, message, code.
abbrev pub failure : (E : Apr) → Status → List Value
failure E rv = nil ∷ string (E.strerror rv) ∷ number (pos rv) ∷ []

-- The function has done nothing: it raises an argument error, or returns the failure rv.
abbrev pub Refuses : (E : Apr) → Status → State E.World → Result ℕ × State E.World → Type 0
Refuses E rv s (ok n, t) = Untouched s t × (results n t ≡ failure E rv)
Refuses E rv s (raised (bad_argument i), t) = Untouched s t
Refuses E rv s (raised bad_top, t) = ⊥
Refuses E rv s (raised invalid_key, t) = ⊥
Refuses E rv s (raised (failed m c), t) = ⊥
Refuses E rv s (raised out_of_fuel, t) = ⊥

-- P holds of every function of a list of named functions.
abbrev pub Each {ℓ} : {F : Type 0} → (F → Type ℓ) → List (Text × F) → Type ℓ
Each P [] = Unit
Each P ((name, f) ∷ fs) = P f × Each P fs

abbrev pub is_listed : List Text → Text → Bool
is_listed [] t = false
is_listed (s ∷ ss) t = text_eq s t || is_listed ss t

-- The functions that are, or are not, under one of the names.
abbrev pub named : {F : Type 0} → List Text → List (Text × F) → List (Text × F)
named names [] = []
named names ((name, f) ∷ fs) =
    let rest = named names fs in if is_listed names name then (name, f) ∷ rest else rest

abbrev pub except : {F : Type 0} → List Text → List (Text × F) → List (Text × F)
except names [] = []
except names ((name, f) ∷ fs) =
    let rest = except names fs in if is_listed names name then rest else (name, f) ∷ rest

-- A call from Lua: the arguments are given, and nothing has been pushed.
abbrev pub invoke : {W : Type 0} → M W ℕ → List Value → M W ℕ
invoke f args s = f (record s { args = args; pushed = [] })

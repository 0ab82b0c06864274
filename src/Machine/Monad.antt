-- ===== src/Machine/Monad.antt =====
-- A C function of the bindings: it may raise a Lua error, and what it has done before stays done.
use prg_buildsh.Prelude.{ℕ, Bool, Option, none, some, List, ◌∷◌, if◌then◌else◌, Text}
use prg_buildsh.Machine.Values.{Value, Table}
use prg_buildsh.Machine.Calls.{Call, Status, Answer, Apr}

-- `bad_argument i`: `luaL_argerror` at argument i. `bad_top`: the same at the index -1, the value
-- just pushed. `invalid_key`: `lua_next` does not find the key that it is given. `failed`:
-- `luaL_error` from `ape_assert`.
-- `out_of_fuel` is no error of the program: a loop of the model was given too few rounds.
pub data Error : Type 0 where
  bad_argument : ℕ → Error
  bad_top : Error
  invalid_key : Error
  failed : Text → Status → Error
  out_of_fuel : Error

pub data Result (A : Type 0) : Type 0 where
  ok : A → Result A
  raised : Error → Result A

-- `args` are the arguments of the call, the first at index 1; `pushed` is what the function has
-- pushed above them, the top of the stack first. `block p` is the word in the userdata block at p,
-- for most types a pointer. `trace` lists the calls made so far, the last one first.
pub record State (W : Type 0) : Type 0 where
  pub args : List Value
  pub pushed : List Value
  pub block : ℕ → ℕ
  pub tables : ℕ → Table
  pub world : W
  pub trace : List Call

abbrev pub M : Type 0 → Type 0 → Type 0
M W A = State W → Result A × State W

module _ {W A : Type 0} where
  abbrev pub pure : A → M W A
  pure a s = (ok a, s)

  abbrev pub raise : Error → M W A
  raise e s = (raised e, s)

  abbrev pub gets : (State W → A) → M W A
  gets f s = (ok (f s), s)

  -- A conversion of argument i that may fail.
  abbrev pub arg_or_raise : ℕ → Option A → M W A
  arg_or_raise i none = raise (bad_argument i)
  arg_or_raise i (some a) = pure a

module _ {W : Type 0} where
  abbrev pub modify : (State W → State W) → M W (Unit {0})
  modify f s = (ok tt, f s)

  abbrev pub when : Bool → M W (Unit {0}) → M W (Unit {0})
  when b m = if b then m else pure tt

infixl 5 ◌>>=◌ ◌>>◌
abbrev pub ◌>>=◌ : {W A B : Type 0} → M W A → (A → M W B) → M W B
◌>>=◌ m f s = let (r, s') = m s in elim r [ ok a ↦ f a s' | raised e ↦ raise e s' ]

abbrev pub ◌>>◌ : {W A B : Type 0} → M W A → M W B → M W B
m >> k = m >>= λ _. k

-- A call of APR or moon: it changes the world, and is noted in the trace.
module _ (E : Apr) where
  abbrev pub call : (c : Call) → M E.World (Answer c)
  call c s = let (a, w) = E.run c s.world in (ok a, record s { world = w; trace = c ∷ s.trace })

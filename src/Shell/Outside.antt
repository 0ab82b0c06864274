-- ===== src/Shell/Outside.antt =====
-- What src/buildsh.c uses of Lua and of the C library, and the state of the program that runs.
use prg_buildsh.Prelude.{ℕ, Bool, Option, List, Text, ℤ}
use prg_buildsh.Machine.{Value}

-- The error codes of lua.h and lauxlib.h.
pub data Code : Type 0 where
  errrun errsyntax errmem errerr errfile : Code

abbrev pub code : Code → ℕ
code errrun = 2
code errsyntax = 3
code errmem = 4
code errerr = 5
code errfile = 6

-- The results of a protected call, or the error value with its code.
pub data Ended : Type 0 where
  returned : List Value → Ended
  errored : Code → Value → Ended

-- The result of loading a chunk: a function, or a message with its code.
pub data Loaded : Type 0 where
  chunk : Value → Loaded
  rejected : Code → Value → Loaded

pub record Host : Type 1 where
  pub World : Type 0
  -- `lua_open`: whether there is memory for a state
  pub open_state : World → Bool × World
  -- `getenv( LUA_INIT )`
  pub init_variable : World → Option Text
  -- `luaL_openlibs`, and the error that it raises, if any
  pub open_standard : World → Option Value × World
  -- `moon_preload_c` of the modules of these names, and `moon_preload_lua` of modules with the names
  -- of their chunks and their code
  pub preload_c : List Text → World → Option Value × World
  pub preload_lua : List (Text × Text × Text) → World → Option Value × World
  -- the contents of a file that is included when the program is compiled
  pub included : Text → Text
  -- `luaL_checkstack`: the error it raises, if there is no room
  pub check_stack : ℕ → World → Option Value
  pub load_file : Text → World → Loaded × World
  -- the chunk and its name
  pub load_buffer : Text → Text → World → Loaded × World
  -- `lua_pcall` of a function, before the message handler is called
  pub protected_call : Value → List Value → World → Ended × World
  -- `lua_tostring`
  pub to_text : Value → Option Text
  -- the global "debug", a field "traceback" of a value, and the tests of their types
  pub debug_library : World → Value
  pub traceback_of : Value → World → Value
  pub is_table : Value → Bool
  pub is_function : Value → Bool
  -- `lua_call` of `debug.traceback` on a message and a level, with one result
  pub call_traceback : Value → Value → ℕ → World → Value × World
  -- `lua_gc` of all garbage, and `lua_close`, both with the finalizers that they run
  pub collect_garbage : World → World
  pub close_state : World → World
  -- the chunk in build.lua.h
  pub build_lua : Text

-- What happens on an interrupt.
pub data Disposition : Type 0 where
  sig_dfl laction : Disposition

pub data Collector : Type 0 where
  stop restart collect : Collector

-- A protected call: the function, its arguments, and what an interrupt would have done meanwhile.
pub record Called : Type 0 where
  pub function : Value
  pub arguments : List Value
  pub on_interrupt : Disposition

-- `stack` is the Lua stack of `pmain`, the top first. `arg` is the global of that name, by index.
-- `messages` are the lines on stderr, `collector` the calls of `lua_gc`, `called` the protected
-- calls, `finalizing` what an interrupt would have done while the shell had finalizers run by a
-- collection or by closing the state, each with the last one first.
pub record Shell (W : Type 0) : Type 0 where
  pub stack : List Value
  pub arg : ℤ → Option Text
  pub progname : Text
  pub messages : List Text
  pub sigint : Disposition
  pub collector : List Collector
  pub called : List Called
  pub finalizing : List Disposition
  pub world : W

-- A function that may raise a Lua error.
pub data Outcome (A : Type 0) : Type 0 where
  done : A → Outcome A
  thrown : Value → Outcome A

abbrev pub S : Type 0 → Type 0 → Type 0
S W A = Shell W → Outcome A × Shell W

module _ {W A : Type 0} where
  abbrev pub give : A → S W A
  give a s = (done a, s)

  abbrev pub throw : Value → S W A
  throw v s = (thrown v, s)

  abbrev pub look : (Shell W → A) → S W A
  look f s = (done (f s), s)

module _ {W : Type 0} where
  abbrev pub change : (Shell W → Shell W) → S W (Unit {0})
  change f s = (done tt, f s)

infixl 5 ◌>>=◌ ◌>>◌
abbrev pub ◌>>=◌ : {W A B : Type 0} → S W A → (A → S W B) → S W B
◌>>=◌ m f s = let (r, s') = m s in elim r [ done a ↦ f a s' | thrown v ↦ throw v s' ]

abbrev pub ◌>>◌ : {W A B : Type 0} → S W A → S W B → S W B
m >> k = m >>= λ _. k

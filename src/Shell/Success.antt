-- ===== src/Shell/Success.antt =====
-- When a build succeeds, in terms of what the host answers: src/buildsh.c.
use prg_buildsh.Prelude.{
  ◌+◌, Bool, true, false, ◌&&◌, Option, none, some, List, [], ◌∷◌, map, reverse, ◌==◌,
  if◌then◌else◌, length, Text, text,
}
use prg_buildsh.Machine.{Value, boolean, string}
use prg_buildsh.Shell.Outside.{code, Ended, returned, errored, Loaded, chunk, rejected, Host}
use prg_buildsh.Shell.{open_libraries, top}

-- Whether a script is content: its last result is not `false`.
abbrev pub accepted : List Value → Bool
accepted rs = elim (top (reverse rs)) [ boolean b ↦ b | _ ↦ true ]

module _ (H : Host) where
  abbrev pub ended_well : Ended × H.World → Bool × H.World
  ended_well (returned rs, w) = (true, w)
  ended_well (errored c v, w) = (false, w)

  -- Whether a loaded chunk can be run to its end, and the world after it.
  abbrev pub runs : Loaded × H.World → Bool × H.World
  runs (rejected c v, w) = (false, w)
  runs (chunk f, w) = ended_well (H.protected_call f [] w)

  -- Whether the initial code can be run, given the value of LUA_INIT.
  abbrev pub init_runs : Option Text → H.World → Bool × H.World
  init_runs none w = (true, w)
  init_runs (some []) w = runs (H.load_buffer [] (text "=LUA_INIT") w)
  init_runs (some (b ∷ code)) w =
      if b == b'@'
      then runs (H.load_file code w)
      else runs (H.load_buffer (b ∷ code) (text "=LUA_INIT") w)

  -- Whether a call of the script is content.
  abbrev pub call_accepts : Ended × H.World → Bool
  call_accepts (returned rs, w) = accepted rs
  call_accepts (errored c v, w) = false

  -- Whether the loaded script is content.
  abbrev pub loaded_accepts : List Text → Loaded × H.World → Bool
  loaded_accepts args (chunk f, w) = call_accepts (H.protected_call f (map string args) w)
  loaded_accepts args (rejected c v, w) = false

  -- Whether the build script runs to its end on the arguments, and is content.
  abbrev pub script_accepts : List Text → H.World → Bool
  script_accepts args w = elim (H.check_stack (length args + 3) w) [
    | some v ↦ false
    | none ↦
        let (l, w') = H.load_buffer H.build_lua (text "@build.lua") w in loaded_accepts args (l, w')
  ]

  -- Whether all that follows the libraries succeeds, by the error they raise.
  abbrev pub all_runs : List Text → Option Value × H.World → Bool
  all_runs args (some v, w) = false
  all_runs args (none, w) =
      let (fine, w') = init_runs (H.init_variable w) w in fine && script_accepts args w'

  -- Whether the build succeeds.
  abbrev pub succeeds : List Text → H.World → Bool
  succeeds args w = let (made, w') = H.open_state w in made && all_runs args (open_libraries H w')

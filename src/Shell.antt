-- ===== src/Shell.antt =====
-- The main function of the shell: src/buildsh.c. The program is started with a name, argv[0].
pub mod Outside
pub mod Arguments
pub mod Interrupts
pub mod Signals
pub mod Success
pub mod Chunks
pub mod Script
pub mod Exit
use prg_buildsh.Prelude.{
  ℕ, zero, suc, ◌+◌, ◌-◌, Bool, true, false, not, ◌&&◌, ◌||◌, Option, none, some, List, [], ◌∷◌,
  ◌++◌, map, reverse, ltb, ◌==◌, if◌then◌else◌, get_elem?, length, take, drop, Text, text, text_eq,
  ℤ, pos, negsuc,
}
use prg_buildsh.Machine.{Value, nil, boolean, string}
use prg_buildsh.Shell.Outside.{
  Code, code, errrun, errsyntax, errmem, errerr, errfile, Ended, returned, errored, Loaded, chunk,
  rejected, Host, Disposition, sig_dfl, laction, Collector, Called, Shell, Outcome, done, thrown, S,
  give, throw, look, change, ◌>>=◌, ◌>>◌,
}

-- The value on top of the stack; below an empty stack lies the entry of the main function, nil.
abbrev pub top : List Value → Value
top [] = nil
top (v ∷ vs) = v

abbrev pub is_string : (H : Host) → Value → Bool
is_string H v = elim (H.to_text v) [ none ↦ false | some t ↦ true ]

abbrev pub is_nil : Value → Bool
is_nil nil = true
is_nil _ = false

-- k is the index i - n.
abbrev pub same_index : ℤ → ℕ → ℕ → Bool
same_index (pos k) n i = k + n == i
same_index (negsuc k) n i = i + (k + 1) == n

module _ (H : Host) where
  abbrev pub push : Value → S H.World (Unit {0})
  push v = change (λ s. record s { stack = v ∷ s.stack })

  abbrev pub pop : ℕ → S H.World (Unit {0})
  pop n = change (λ s. record s { stack = drop n s.stack })

  unfoldable pub l_message : Option Text → Text → S H.World (Unit {0})
  l_message pname msg = change (λ s. record s {
    messages = elim pname [ some p ↦ p ++ (text ": " ++ msg) | none ↦ msg ] ∷ s.messages;
  })

  -- A Boolean result decides the status, a message is printed.
  unfoldable pub report : ℕ → S H.World ℕ
  unfolding l_message
  report status = do
    v ← look (λ s. top s.stack)
    if status == 0
        then (elim v [ boolean b ↦ give (if b then 0 else 1) | _ ↦ give 0 ])
        else if is_nil v
        then give status
        else (do
          name ← look (λ s. s.progname)
          l_message (some name)
              (elim (H.to_text v) [ some msg ↦ msg | none ↦ text "(error object is not a string)" ])
          pop 1
          give status)

  -- The message handler: a string gets a traceback, if the library for it is there.
  unfoldable pub traceback : Value → H.World → Value × H.World
  traceback v w =
      let debug = H.debug_library w in
      let f = H.traceback_of debug w in
      if not (is_string H v) || not (H.is_table debug) || not (H.is_function f)
      then (v, w)
      else H.call_traceback f v 2 w

  -- Without memory the message handler is not called.
  unfoldable pub handled : Code → Value → H.World → Value × H.World
  unfolding traceback
  handled errmem v w = (v, w)
  handled _ v w = traceback v w

  -- What a protected call leaves: `rest` are the values below the function.
  unfoldable pub after_call :
      Called → List Value → Bool → Shell H.World → Ended × H.World → Outcome ℕ × Shell H.World
  unfolding handled
  after_call now rest clear s (returned rs, w) = (
    done 0,
    record s {
      stack = if clear then rest else reverse rs ++ rest;
      sigint = sig_dfl;
      called = now ∷ s.called;
      world = w;
    },
  )
  after_call now rest clear s (errored c v, w) =
      let (v', w') = handled c v w in
      (
        done (code c),
        record s {
          stack = v' ∷ rest;
          sigint = sig_dfl;
          collector = Collector.collect ∷ s.collector;
          called = now ∷ s.called;
          finalizing = sig_dfl ∷ s.finalizing;
          world = H.collect_garbage w';
        },
      )

  -- `lua_pcall`, and what follows it.
  unfoldable pub pcall : Value → List Value → List Value → Bool → S H.World ℕ
  unfolding after_call
  pcall f args rest clear s =
      after_call (record { function = f; arguments = args; on_interrupt = s.sigint }) rest clear s
        (H.protected_call f args s.world)

  -- The function lies below its arguments; with `clear` its results are dropped. All garbage is
  -- collected in the case of an error.
  unfoldable pub docall : ℕ → Bool → S H.World ℕ
  unfolding pcall
  docall narg clear s =
      pcall (top (drop narg s.stack)) (reverse (take narg s.stack)) (drop (narg + 1) s.stack) clear
        (record s { sigint = laction })

  -- The elements i and above of argv, stored at the index i - n.
  unfoldable pub set_args : ℕ → ℕ → List Text → (ℤ → Option Text) → ℤ → Option Text
  set_args n i [] t = t
  set_args n i (a ∷ rest) t =
      set_args n (i + 1) rest (λ k. if same_index k n i then some a else t k)

  -- Pushes the arguments behind the n-th, and the table, which `lua_setglobal` takes off at once.
  unfoldable pub getargs : List Text → ℕ → S H.World ℕ
  unfolding set_args
  getargs argv n = do
    let narg = length argv - (n + 1)
    full ← look (λ s. H.check_stack (narg + 3) s.world)
    elim full [
      | some v ↦ throw v
      | none ↦ (do
        change (λ s. record s {
          stack = reverse (map string (drop (n + 1) argv)) ++ s.stack;
          arg = set_args n 0 argv (λ _. none);
        })
        give narg)
    ]

  -- `luaL_loadfile( L, name ) || docall( L, 0, 1 )`: 0 or 1
  abbrev pub run_chunk : Loaded → S H.World ℕ
  run_chunk (rejected c v) = do push v; give 1
  run_chunk (chunk f) = do push f; status ← docall 0 true; give (if status == 0 then 0 else 1)

  abbrev pub load : (H.World → Loaded × H.World) → S H.World Loaded
  load f s = let (l, w) = f s.world in (done l, record s { world = w })

  unfoldable pub dofile : Text → S H.World ℕ
  unfolding docall report
  dofile name = do l ← load (H.load_file name); status ← run_chunk l; report status

  unfoldable pub dostring : Text → Text → S H.World ℕ
  unfolding docall report
  dostring code name = do l ← load (H.load_buffer code name); status ← run_chunk l; report status

  -- The script, by what loading it gives: the function is put below its arguments, the message is
  -- put in their place.
  unfoldable pub run_script : ℕ → Loaded → S H.World ℕ
  unfolding docall report
  run_script narg (chunk f) = do
    change (λ s. record s { stack = take narg s.stack ++ (f ∷ drop narg s.stack) })
    status ← docall narg false
    report status
  run_script narg (rejected c v) = do
    change (λ s. record s { stack = v ∷ drop narg s.stack })
    report (code c)

  unfoldable pub handle_script : List Text → ℕ → S H.World ℕ
  unfolding getargs run_script
  handle_script argv n = do
    narg ← getargs argv n
    l ← load (H.load_buffer H.build_lua (text "@build.lua"))
    run_script narg l

  -- By the value of LUA_INIT.
  unfoldable pub run_init : Option Text → S H.World ℕ
  unfolding dofile dostring
  run_init none = give 0
  run_init (some []) = dostring [] (text "=LUA_INIT")
  run_init (some (b ∷ code)) =
      if b == b'@' then dofile code else dostring (b ∷ code) (text "=LUA_INIT")

  unfoldable pub handle_luainit : S H.World ℕ
  unfolding run_init
  handle_luainit = do run_init (← look (λ s. H.init_variable s.world))

  abbrev pub collect : Collector → S H.World (Unit {0})
  collect c = change (λ s. record s { collector = c ∷ s.collector })

  -- The names of the modules that are linked in.
  abbrev pub preload_libs : List Text
  preload_libs = text "bci" ∷ text "ape" ∷ []

  -- A module, the name of its chunk, and its code.
  abbrev pub preload_mods : List (Text × Text × Text)
  preload_mods =
      (text "make", text "@make.lua", H.included (text "make.lua.h"))
      ∷ (text "base", text "@base.lua", H.included (text "base.lua.h"))
      ∷ (text "strace", text "@strace.lua", H.included (text "strace.lua.h"))
      ∷ (text "ktrace", text "@ktrace.lua", H.included (text "ktrace.lua.h"))
      ∷ (text "preload", text "@preload.lua", H.included (text "preload.lua.h"))
      ∷ (text "tracker", text "@tracker.lua", H.included (text "tracker.lua.h"))
      ∷ []

  -- The next step, unless an error has been raised.
  abbrev unless_raised :
      Option Value × H.World → (H.World → Option Value × H.World) → Option Value × H.World
  unless_raised (some v, w) f = (some v, w)
  unless_raised (none, w) f = f w

  -- The libraries and modules that `pmain` opens, and the error that they raise.
  unfoldable pub open_libraries : H.World → Option Value × H.World
  open_libraries w =
      unless_raised (unless_raised (H.open_standard w) (H.preload_c preload_libs))
        (H.preload_lua preload_mods)

  -- `pmain` behind the libraries, by the error that they raise.
  unfoldable pub behind_libraries : Text → List Text → Option Value → S H.World ℕ
  unfolding handle_luainit handle_script
  behind_libraries name args (some v) = throw v
  behind_libraries name args none = do
    collect Collector.restart
    status ← handle_luainit
    if not (status == 0) then give status else handle_script (name ∷ args) 0

  -- `s->status` is the result; the stack holds the pointer to `s`.
  unfoldable pub pmain : Text → List Text → S H.World ℕ
  unfolding behind_libraries
  pmain name args = do
    change (λ s. record s { progname = elim name [ [] ↦ s.progname | b ∷ rest ↦ b ∷ rest ] })
    collect Collector.stop
    error ← (λ s. let (e, w) = open_libraries s.world in (done e, record s { world = w }))
    behind_libraries name args error

  abbrev pub start : H.World → Shell H.World
  start w = record {
    stack = [];
    arg = λ _. none;
    progname = text "buildsh";
    messages = [];
    sigint = sig_dfl;
    collector = [];
    called = [];
    finalizing = [];
    world = w;
  }

  -- `lua_close`
  abbrev pub close : Shell H.World → Shell H.World
  close s = record s { finalizing = s.sigint ∷ s.finalizing; world = H.close_state s.world }

  -- The end of `main`, behind `pmain`. `EXIT_SUCCESS` is 0 and `EXIT_FAILURE` 1. `lua_cpcall` takes
  -- everything off the stack when `pmain` returns, and leaves the error value alone when it raises
  -- one.
  unfoldable pub leave : Outcome ℕ × Shell H.World → ℕ × Shell H.World
  unfolding report
  leave (done status, s) =
      (if status == 0 then 0 else 1, close (report 0 (record s { stack = [] })).1)
  leave (thrown v, s) = (1, close (report (code errrun) (record s { stack = v ∷ [] })).1)

  -- `lua_cpcall` hands `pmain` a pointer.
  unfoldable pub main : Text → List Text → H.World → ℕ × Shell H.World
  unfolding pmain l_message leave
  main name args w =
      let (made, w') = H.open_state w in
      if made
      then leave (pmain name args (record (start w') { stack = Value.userdata 0 ∷ [] }))
      else (1, (l_message (some name) (text "cannot create state: not enough memory") (start w')).1)

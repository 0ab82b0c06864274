-- ===== src/Lib.antt =====
-- The bindings of the build shell: `ape`, which gives Lua scripts the Apache Portable Runtime
-- (APR) and a few functions that a build tool needs.
--
-- The program is a copy of Lua 5.1, the C files src/ape*.c with the bindings, src/buildsh.c with
-- the main function, and scripts in Lua. Modelled are the bindings and the main function. A
-- binding is a C function on a Lua stack: it checks its arguments, calls APR and the moon library
-- (userdata types, flag values), changes the blocks of userdata objects and tables, pushes results
-- and returns their number, most often by `ape_status`, or it raises a Lua error.
--
-- Machine models this convention. State holds the arguments, what has been pushed, the word in
-- each userdata block, the tables, the outside world and the trace of the calls made so far; M is
-- a function of it that may raise. The names of the operations are those of the Lua API where
-- there is one (settop, push, rawset). Two parameters stand for code that is not in the
-- repository: the record Lua, for the conversions that Lua and moon make, and the record Apr,
-- whose function `run` answers each call (the constructors of Call) from a world of any type. Its
-- laws are documented behaviour: the error codes named there are not APR_SUCCESS,
-- APR_STATUS_IS_ENOENT holds of APR_ENOENT and neither of APR_EGENERAL nor of APR_SUCCESS, and
-- APR_STATUS_IS_CHILD_DONE is the test for APR_CHILD_DONE, which APR_CHILD_NOTDONE is not. The
-- record Lua has the law that a double holds an integer of at most 2 ^ 53 exactly. What the
-- conversions between UTF-8 and words of 16 bits do is asked for by the theorems about them
-- (Extra.Codec.IsCodec), and which keys lua_next walks by the one about environments
-- (Proc.Environment.Traverses).
--
-- A C function in a Lua table is the text that a parameter `code` of the set-up functions gives for
-- it. Lua numbers are integers: a cast to lua_Number is written out where a time is returned
-- (`to_number`), and other numbers that the bindings return are taken to be small enough.
--
-- luaopen_ape calls one set-up function for each part, which registers the part's functions, types
-- and constants. The main function has a state of its own, Shell.Outside.Shell: the stack of
-- `pmain`, the global `arg`, the messages on stderr, what an interrupt does, the calls of the
-- collector, the protected calls of Lua functions, and under which behaviour finalizers ran, in a
-- collection or when lua_close closed the state. The record Host stands for Lua as this file
-- uses it, for the environment and for the embedded scripts. main calls pmain, which runs the code
-- in LUA_INIT and then the build script, each by docall, when it has opened the libraries and
-- preloaded the modules.
--
-- Which file models what (a function of the C file has a definition of the same name):
--   Machine/ApeStatus   src/ape.c: ape_status
--   Machine/Values      src/ape.h: the types of userdata objects
--   Ape                 src/ape.c: the set-up of the module and its finalizer
--   Ape/Entries         the calls of moon_register and of define_flag, with the flags' names
--   Ape/Setup           src/ape_*.c: the functions ape_*_setup
--   Shell               src/buildsh.c
--   Shell/Outside       src/buildsh.c: its state, and what it uses of Lua and of the C library
--   Shell/Signals       src/buildsh.c: laction and lstop, and what `docall` does with signals
--   Pool                src/ape_pool.c
--   File/Handles        src/ape_file.c: what a script does with an open file
--   File/Paths          src/ape_file.c: the functions on path names
--   File/Open           src/ape_file.c: open, dup, pipes, temporary files, directories
--   File/Info           src/ape_file.c: table2want, finfo2table and their macros
--   File/Dirs           src/ape_file.c: information, directory handles
--   File/Names          src/ape_file.c: the tables of methods and functions
--   Errno               src/ape_errno.c
--   Time                src/ape_time.c
--   User                src/ape_user.c
--   Env                 src/ape_env.c
--   FilePath            src/ape_fpath.c
--   Fnmatch             src/ape_fnmatch.c
--   Random              src/ape_random.c
--   Proc/Attr           src/ape_proc.c: the attributes of a process
--   Proc/Create         src/ape_proc.c: proc_create, the streams of a process, tokenize_to_argv
--   Proc/Wait           src/ape_proc.c: waiting, detach, kill, pool_note_subprocess
--   Proc/Vectors        src/ape_proc.c: ape_table2argv and ape_table2env
--   Proc/Names          src/ape_proc.c: the tables of methods and functions
--   Extra/Dirsep        src/ape_extra.c: find_dirsep
--   Extra/Names         src/ape_extra.c: basename and dirname
--   Extra/Search        src/ape_extra.c: find_file and find_exec
--   Extra/HashFile      src/ape_extra.c: hash_file
--   Extra/Collect       src/ape_extra.c: run_collect
--   Extra/Glob          src/ape_extra.c: path_glob
--   Extra/Wide          src/ape_extra.c: ucs2_to_utf8 and wupper
--   Extra/Registered    src/ape_extra.c: the table of functions
-- The other files hold theorems about these, and Prelude the numbers, lists and bytes they share.
-- Tests has a small world to run the bindings on.
--
-- Choices: Lua numbers are integers, since the bindings pass no fractions on. A mask of APR_FINFO
-- bits is a set of fields. LUA_DIRSEP is a parameter of one byte, as in luaconf.h. A `lua_Number`
-- that is cast to `apr_time_t` wraps at 64 bits, and one that is cast to `wchar_t` at 16, as on
-- Windows; towupper is a parameter. Tables have no metamethods. The order in which arguments are
-- checked is the source's where the C code fixes it. The flag of a moon_finalizer begins at 0.
-- Which error macros, platform, numbers of fcntl.h and functions for Windows there are is decided
-- when the C code is compiled: they are parameters (Macros, Platform, Fcntl, Options). The shell is
-- started with a name, argv[0]; EXIT_SUCCESS is 0 and EXIT_FAILURE 1. The message handler is not called for an error of
-- memory. Strings live as long as they are used: what the garbage collector frees is not modelled.
--
-- Fuel: the loops that read until APR reports a failure (hash_file, run_collect, path_glob) and
-- the loop that waits until a process of a table has ended (proc_wait_all_procs) run on rounds,
-- and end in the error `out_of_fuel`, which the program does not have, when there are too few of
-- them. ape_table2env gives its own loop one round more than the table has keys: a loop of lua_next
-- that needs more comes to a key again and never ends. More rounds than reads, or than processes
-- that are passed over, are enough. So are more rounds than bytes or words for the loops of the
-- conversions (wupper, ucs2_to_utf8), in a buffer of 6 bytes or more; the inner loop of wupper has
-- one round more than there are words. All other loops are recursion on a
-- length.
--
-- Not modelled: Lua itself and its tools, moon and APR (not in the repository); the scripts; the
-- second version of ape_proc_wait_all_procs, which is not compiled (`#if 1`); when during a
-- protected call of Lua interrupts arrive, which Shell/Signals takes as a list of events.
pub mod Prelude
pub mod Machine
pub mod Errno
pub mod Pool
pub mod Time
pub mod User
pub mod File
pub mod Env
pub mod Random
pub mod Proc
pub mod FilePath
pub mod Fnmatch
pub mod Extra
pub mod Ape
pub mod Shell
pub mod Tests

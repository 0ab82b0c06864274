-- ===== src/Ape/Entries.antt =====
-- The entries of the module table: functions and flag values. src/ape_file.c, src/ape_fpath.c and
-- src/ape_fnmatch.c define flag values.
use prg_buildsh.Prelude.{ℤ, ℕ, List, [], ◌∷◌, Text, text}
use prg_buildsh.Machine.{
  number, FlagKind, fattrs, oflags, fperms, flock, field, Call, Apr, M, pure, ◌>>=◌, ◌>>◌, call,
  set_table,
}
use prg_buildsh.Machine.{cfunction, fnmflags, fpflags}

-- The calls of `define_flag`, but FOPEN_NULL.
abbrev pub file_flags : List (FlagKind × Text)
file_flags =
    (fattrs, text "FILE_ATTR_READONLY")
    ∷ (fattrs, text "FILE_ATTR_EXECUTABLE")
    ∷ (fattrs, text "FILE_ATTR_HIDDEN")
    ∷ (oflags, text "FOPEN_READ")
    ∷ (oflags, text "FOPEN_WRITE")
    ∷ (oflags, text "FOPEN_CREATE")
    ∷ (oflags, text "FOPEN_APPEND")
    ∷ (oflags, text "FOPEN_TRUNCATE")
    ∷ (oflags, text "FOPEN_BINARY")
    ∷ (oflags, text "FOPEN_BUFFERED")
    ∷ (oflags, text "FOPEN_EXCL")
    ∷ (oflags, text "FOPEN_DELONCLOSE")
    ∷ (oflags, text "FOPEN_XTHREAD")
    ∷ (oflags, text "FOPEN_SHARELOCK")
    ∷ (oflags, text "FOPEN_LARGEFILE")
    ∷ (oflags, text "FOPEN_SPARSE")
    ∷ (fperms, text "FPROT_USETID")
    ∷ (fperms, text "FPROT_UREAD")
    ∷ (fperms, text "FPROT_UWRITE")
    ∷ (fperms, text "FPROT_UEXECUTE")
    ∷ (fperms, text "FPROT_GSETID")
    ∷ (fperms, text "FPROT_GREAD")
    ∷ (fperms, text "FPROT_GWRITE")
    ∷ (fperms, text "FPROT_GEXECUTE")
    ∷ (fperms, text "FPROT_WSTICKY")
    ∷ (fperms, text "FPROT_WREAD")
    ∷ (fperms, text "FPROT_WWRITE")
    ∷ (fperms, text "FPROT_WEXECUTE")
    ∷ (fperms, text "FPROT_OS_DEFAULT")
    ∷ (fperms, text "FPROT_FILE_SOURCE_PERMS")
    ∷ (flock, text "FLOCK_SHARED")
    ∷ (flock, text "FLOCK_EXCLUSIVE")
    ∷ (flock, text "FLOCK_NONBLOCK")
    ∷ []

-- The calls of `define_flag`, but FILEPATH_NULL.
abbrev pub fpath_flags : List (FlagKind × Text)
fpath_flags =
    (fpflags, text "FILEPATH_NOTABOVEROOT")
    ∷ (fpflags, text "FILEPATH_SECUREROOT")
    ∷ (fpflags, text "FILEPATH_NOTRELATIVE")
    ∷ (fpflags, text "FILEPATH_NOTABSOLUTE")
    ∷ (fpflags, text "FILEPATH_NATIVE")
    ∷ (fpflags, text "FILEPATH_TRUENAME")
    ∷ []

abbrev pub fnmatch_flags : List (FlagKind × Text)
fnmatch_flags =
    (fnmflags, text "FNM_NOESCAPE")
    ∷ (fnmflags, text "FNM_PATHNAME")
    ∷ (fnmflags, text "FNM_PERIOD")
    ∷ (fnmflags, text "FNM_CASE_BLIND")
    ∷ []

abbrev pub names_of : {F : Type 0} → List (Text × F) → List Text
names_of [] = []
names_of ((name, f) ∷ fs) = name ∷ names_of fs

abbrev pub flag_names : List (FlagKind × Text) → List Text
flag_names [] = []
flag_names ((k, name) ∷ fs) = name ∷ flag_names fs

module _ (E : Apr) (code : M E.World ℕ → Text) (t : ℕ) where
  -- `moon_register`, on the table at t: each function goes under its name. A function is a value by
  -- its code, which tells it from the others.
  unfoldable pub register : List (Text × M E.World ℕ) → M E.World (Unit {0})
  register [] = pure tt
  register ((name, f) ∷ fs) = do set_table t (field name) (cfunction (code f)); register fs

module _ (E : Apr) (t : ℕ) where
  -- `moon_flag_new_*( L, v ); lua_setfield( L, -2, name );`
  unfoldable pub set_flag : FlagKind → ℕ → Text → M E.World (Unit {0})
  set_flag k v name = do flag ← call E (Call.flag_new k v); set_table t (field name) flag

  -- `define_flag`, for a list of calls
  unfoldable pub define_flags : List (FlagKind × Text) → M E.World (Unit {0})
  unfolding set_flag
  define_flags [] = pure tt
  define_flags ((k, name) ∷ flags) = do set_flag k (E.constant name) name; define_flags flags

  unfoldable pub set_numbers : List (Text × ℤ) → M E.World (Unit {0})
  set_numbers [] = pure tt
  set_numbers ((name, n) ∷ rest) = do set_table t (field name) (number n); set_numbers rest

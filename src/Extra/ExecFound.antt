-- ===== src/Extra/ExecFound.antt =====
-- The results of `find_exec`, by what the file system and the environment say: src/ape_extra.c.
use prg_buildsh.Prelude.{
  ℕ, ◌≡◌, true, false, Option, none, some, List, [], ◌∷◌, ◌==◌, Text, c_string,
}
use prg_buildsh.Machine.{
  Value, nil, string, Finfo, Lua, Status, Apr, Result, ok, raised, State, results, failure,
}
use prg_buildsh.Extra.Search.{has_separator}
use prg_buildsh.Extra.Located.{Where, at, nowhere, broken, Direct, InPath}

module _ (L : Lua) (E : Apr) (fs : Text → Status × Finfo)
    (merge : Text → Text → Status × Option Text) (dirsep : ℕ) where
  -- Where a name leads: one with a directory separator is a path by itself.
  pub data Located (dirs : List Text) (name : Text) (r : Where) : Type 0 where
    direct : has_separator L E dirsep name ≡ true → Direct E fs name r → Located dirs name r
    searched :
        has_separator L E dirsep name ≡ false → InPath E fs merge name dirs r → Located dirs name r

  -- The results of a search for names, in order: the first name that leads somewhere, or whose
  -- search fails, decides, and without one the result is nil.
  pub data Finds (dirs : List Text) : List Text → List Value → Type 0 where
    nothing : Finds dirs [] (nil ∷ [])
    found :
        {name path : Text} {names : List Text}
        → Located dirs (c_string name) (at path)
        → Finds dirs (name ∷ names) (string (c_string name) ∷ string path ∷ [])
    failed_at :
        {name : Text} {names : List Text} {rv : Status}
        → Located dirs (c_string name) (broken rv)
        → Finds dirs (name ∷ names) (failure E rv)
    passed :
        {name : Text} {names : List Text} {out : List Value}
        → Located dirs (c_string name) nowhere
        → Finds dirs names out
        → Finds dirs (name ∷ names) out

  -- The results by the value of PATH and the directories in it.
  pub data FindsExec (variable : Status × Option Text) (split : Text → Status × Option (List Text))
      (names : List Text) (out : List Value) : Type 0 where
    no_variable :
        (variable.0 == 0) ≡ false → out ≡ failure E variable.0 → FindsExec variable split names out
    no_value :
        (variable.0 == 0) ≡ true
        → variable.1 ≡ none
        → out ≡ failure E E.egeneral
        → FindsExec variable split names out
    not_split :
        {value : Text}
        → (variable.0 == 0) ≡ true
        → variable.1 ≡ some value
        → ((split value).0 == 0) ≡ false
        → out ≡ failure E (split value).0
        → FindsExec variable split names out
    no_list :
        {value : Text}
        → (variable.0 == 0) ≡ true
        → variable.1 ≡ some value
        → ((split value).0 == 0) ≡ true
        → (split value).1 ≡ none
        → out ≡ failure E E.egeneral
        → FindsExec variable split names out
    in_directories :
        {value : Text} {dirs : List Text}
        → (variable.0 == 0) ≡ true
        → variable.1 ≡ some value
        → ((split value).0 == 0) ≡ true
        → (split value).1 ≡ some dirs
        → Finds dirs names out
        → FindsExec variable split names out

  -- A call with these results that changes no memory and raises no error.
  abbrev pub Leaves : (List Value → Type 0) → State E.World → Result ℕ × State E.World → Type 0
  Leaves P s (ok n, t) = (t.block ≡ s.block) × (t.tables ≡ s.tables) × P (results n t)
  Leaves P s (raised e, t) = ⊥

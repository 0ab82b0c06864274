-- ===== src/Proc/Passed.antt =====
-- The arguments that a new process gets: src/ape_proc.c, ape_table2argv.
use prg_buildsh.Prelude.{
  ℕ, suc, ◌+◌, ◌≡◌, refl, ap, ◌∙◌, true, some, List, [], ◌∷◌, map, arith, length, get_elem?, Text,
  c_string,
}
use prg_buildsh.Machine.{string, index, Table, Lua, Call, Apr, ok, State}
use prg_buildsh.Proc.Vectors.{table_strings, ape_table2argv}

module _ (L : Lua) where
  -- The elements of a table from i on are these strings.
  abbrev pub Elements : Table → ℕ → List Text → Type 0
  Elements t i xs = (j : ℕ) (x : Text) → get_elem? xs j ≡ some x → t (index (i + j)) ≡ string x

  pub table_strings-Elements :
      (t : Table) (i : ℕ) (xs : List Text)
      → Elements t i xs
      → table_strings L t i (length xs) ≡ map c_string xs
  unfolding table_strings
  table_strings-Elements t i [] e = refl
  table_strings-Elements t i (x ∷ xs) e =
      let here : t (index i) ≡ string x = ap (λ m. t (index m)) (omega arith) ∙ e 0 x refl in
      let rest =
        table_strings-Elements t (i + 1) xs
          (λ j y at. ap (λ m. t (index m)) (omega arith) ∙ e (suc j) y at) in
      rw (here, L.string_of-string x) (ap (λ r. c_string x ∷ r) rest)

  -- A new process gets all its arguments: if a table holds exactly these strings, in the order of
  -- their indices from 1, and there is memory for the array, the vector has each of them, in order,
  -- cut at its first zero byte.
  pub table2argv-Elements :
      (E : Apr) (t pool : ℕ) (xs : List Text) (s : State E.World)
      → L.rawlen (s.tables t) ≡ length xs
      → Elements (s.tables t) 1 xs
      → (E.run (Call.array_make pool (length xs + 1)) s.world).0 ≡ true
      → (ape_table2argv L E t pool s).0 ≡ ok (some (map c_string xs))
  unfolding ape_table2argv
  table2argv-Elements E t pool xs s len e made =
      rw (len, made) (ap (λ r. ok (some r)) (table_strings-Elements (s.tables t) 1 xs e))

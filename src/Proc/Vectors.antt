-- ===== src/Proc/Vectors.antt =====
-- Argument vectors and environments of new processes: src/ape_proc.c.
use prg_buildsh.Prelude.{
  ℕ, zero, suc, ◌+◌, Option, none, some, List, [], ◌∷◌, ◌++◌, if◌then◌else◌, Text, c_string, pos,
  length,
}
use prg_buildsh.Machine.{
  other, Value, nil, number, string, Key, field, index, Table, Lua, Call, Apr, M, pure, raise,
  invalid_key, out_of_fuel, gets, ◌>>=◌, call,
}

module _ (L : Lua) where
  -- The loop over the indices i and above of a table: what is a string or a number is pushed to the
  -- array, anything else is passed over.
  unfoldable pub table_strings : Table → ℕ → ℕ → List Text
  table_strings t i zero = []
  table_strings t i (suc left) =
      let rest = table_strings t (i + 1) left in
      elim (L.string_of (t (index i))) [ none ↦ rest | some s ↦ c_string s ∷ rest ]

  -- The key as `lua_next` leaves it on the stack.
  abbrev pub key_value : Key → Value
  key_value (field s) = string s
  key_value (index i) = number (pos i)
  key_value (Key.object i) = other i

module _ (L : Lua) (E : Apr) where
  -- `none` stands for APR_ENOMEM.
  unfoldable pub ape_table2argv : ℕ → ℕ → M E.World (Option (List Text))
  unfolding table_strings
  ape_table2argv t pool = do
    tab ← gets (λ s. s.tables t)
    made ← call E (Call.array_make pool (L.rawlen tab + 1))
    pure (if made then some (table_strings L tab 1 (L.rawlen tab)) else none)

  -- One slot of the array, which may not be had.
  abbrev array_push : ℕ → M E.World (Option (List Text)) → M E.World (Option (List Text))
  array_push pool k = do slot ← call E (Call.array_push pool); if slot then k else pure none

  -- One round: `name=value`, if the key k and the value are strings or numbers. `lua_tostring` puts
  -- the text of a number in the place of the number on the stack, so the next round goes on behind
  -- the string s1, which is another key than a number k.
  unfoldable pub push_pair :
      ℕ
      → Value
      → Option Text
      → Option Text
      → (Value → M E.World (Option (List Text)))
      → M E.World (Option (List Text))
  push_pair pool k none v rest = rest k
  push_pair pool k (some s1) none rest = rest k
  push_pair pool k (some s1) (some s2) rest = array_push pool (do
    pair ← call E (Call.pstrcat pool (c_string s1 ++ (b'=' ∷ c_string s2)))
    elim pair [
      | none ↦ pure none
      | some p ↦ (do
        env ← rest (string s1)
        pure (elim env [ none ↦ none | some e ↦ some (p ∷ e) ]))
    ])

  -- The loop of `lua_next`, behind a key.
  unfoldable pub table_pairs : ℕ → Table → Value → ℕ → M E.World (Option (List Text))
  unfolding push_pair
  table_pairs zero t last pool = raise out_of_fuel
  table_pairs (suc fuel) t last pool = elim (L.next t last) [
    | none ↦ raise invalid_key
    | some none ↦ array_push pool (pure (some []))
    | some (some k) ↦
        push_pair pool (key_value L k) (L.string_of (key_value L k)) (L.string_of (t k))
          (λ left. table_pairs fuel t left pool)
  ]

  -- A traversal with more rounds than there are keys comes to a key again, and so never ends.
  unfoldable pub ape_table2env : ℕ → ℕ → M E.World (Option (List Text))
  unfolding table_pairs
  ape_table2env t pool = do
    tab ← gets (λ s. s.tables t)
    made ← call E (Call.array_make pool 16)
    if made then table_pairs (suc (length (L.next_keys tab))) tab nil pool else pure none

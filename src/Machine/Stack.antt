-- ===== src/Machine/Stack.antt =====
-- The Lua stack, the argument checks and the memory, as the bindings use them.
use prg_buildsh.Prelude.{
  text_eq_refl, ◌≡◌, arith, ℕ, zero, suc, ◌-◌, Bool, true, false, Option, none, some, List, [], ◌∷◌,
  ◌++◌, reverse, ◌==◌, if◌then◌else◌, Text, text_eq, c_string, ℤ, length, get_elem?, set, take,
}
use prg_buildsh.Machine.Values.{
  Value, nil, boolean, table, Kind, FlagKind, Key, field, index, Table, Lua,
}
use prg_buildsh.Machine.Monad.{State, M, pure, ok, gets, modify, arg_or_raise, ◌>>=◌}

-- The value at index i ≥ 1: an argument, or what was pushed above the arguments.
abbrev pub value_at : {W : Type 0} → ℕ → State W → Option Value
value_at i s = elim (get_elem? s.args (i - 1)) [
  | some v ↦ some v
  | none ↦ get_elem? (reverse s.pushed) (i - 1 - length s.args)
]

-- `lua_isnoneornil`
abbrev pub is_none_or_nil : Option Value → Bool
is_none_or_nil none = true
is_none_or_nil (some nil) = true
is_none_or_nil (some _) = false

-- `lua_toboolean`
abbrev pub to_boolean : Option Value → Bool
to_boolean none = false
to_boolean (some nil) = false
to_boolean (some (boolean b)) = b
to_boolean (some _) = true

-- `s != NULL ? s : ""`
abbrev pub or_empty : Option Text → Text
or_empty none = []
or_empty (some s) = s

-- What an out parameter that began as NULL holds.
abbrev pub pointer_of : Option ℕ → ℕ
pointer_of none = 0
pointer_of (some p) = p

-- The n topmost values, the lowest first: what a C function with result n hands to Lua.
abbrev pub results : {W : Type 0} → ℕ → State W → List Value
results n s = reverse (take n (s.pushed ++ reverse s.args))

-- n arguments exactly: what is missing is nil.
abbrev pub pad : ℕ → List Value → List Value
pad zero xs = []
pad (suc n) [] = nil ∷ pad n []
pad (suc n) (x ∷ xs) = x ∷ pad n xs

module _ {W : Type 0} where
  abbrev pub push : Value → M W (Unit {0})
  push v = modify (λ s. record s { pushed = v ∷ s.pushed })

  -- `lua_settop` down to the arguments
  abbrev pub settop : ℕ → M W (Unit {0})
  settop n = modify (λ s. record s { args = pad n s.args; pushed = [] })

  -- `lua_replace( L, i )` of an argument by a value just pushed
  abbrev pub replace_arg : ℕ → Value → M W (Unit {0})
  replace_arg i v = modify (λ s. record s { args = set s.args (i - 1) v })

  -- `*p`, and `*p = w`
  abbrev pub read_block : ℕ → M W ℕ
  read_block p = gets (λ s. s.block p)

  abbrev pub write_block : ℕ → ℕ → M W (Unit {0})
  write_block p w = modify (λ s. record s { block = λ q. if p == q then w else s.block q })

  -- An out parameter that the callee may leave alone.
  abbrev pub store_block : ℕ → Option ℕ → M W (Unit {0})
  store_block p none = pure tt
  store_block p (some w) = write_block p w

abbrev pub key_eq : Key → Key → Bool
key_eq (field s) (field t) = text_eq s t
key_eq (index i) (index j) = i == j
key_eq (Key.object i) (Key.object j) = i == j
key_eq _ _ = false

pub key_eq_refl : (k : Key) → key_eq k k ≡ true
key_eq_refl (field s) = text_eq_refl s
key_eq_refl (index i) = ground arith
key_eq_refl (Key.object i) = ground arith

abbrev pub rawset : Key → Value → Table → Table
rawset k v t j = if key_eq k j then v else t j

module _ {W : Type 0} where
  -- Writing field k of the table at address t.
  abbrev pub set_table : ℕ → Key → Value → M W (Unit {0})
  set_table t k v =
      modify
        (λ s. record s { tables = λ u. if t == u then rawset k v (s.tables t) else s.tables u })

-- `luaL_checktype( L, i, LUA_TTABLE )`
abbrev pub table_of : Value → Option ℕ
table_of (table t) = some t
table_of _ = none

-- `flags[ luaL_checkoption( L, i, d, names ) ]`, over the pairs of a name and its flag.
abbrev pub option_of : {A : Type 0} → List (Text × A) → Text → Option A
option_of [] s = none
option_of ((name, flag) ∷ rest) s = if text_eq name s then some flag else option_of rest s

module _ {W : Type 0} where
  -- `lua_setfield` on the table at address t, which takes the value off the stack.
  abbrev pub set_field : ℕ → Text → M W (Unit {0})
  set_field t fname s = elim s.pushed [
    | [] ↦ (ok tt, s)
    | v ∷ rest ↦ set_table t (field fname) v (record s { pushed = rest })
  ]

module _ (L : Lua) {W : Type 0} where
  open L use {string_of, number_of, udata_of, flag_of}

  abbrev pub check_value : {A : Type 0} → (Value → Option A) → ℕ → M W A
  check_value f i s = arg_or_raise i (elim (value_at i s) [ some v ↦ f v | none ↦ none ]) s

  -- `luaL_checklstring`: the bytes, and `luaL_checkstring`: the C string in them
  abbrev pub check_bytes : ℕ → M W Text
  check_bytes = check_value string_of

  abbrev pub check_string : ℕ → M W Text
  check_string i = do pure (c_string (← check_bytes i))

  abbrev pub check_number : ℕ → M W ℤ
  check_number = check_value number_of

  -- `luaL_optnumber`
  abbrev pub opt_number : ℕ → ℤ → M W ℤ
  opt_number i d s = if is_none_or_nil (value_at i s) then pure d s else check_number i s

  -- `moon_checkudata`
  abbrev pub check_udata : Kind → ℕ → M W ℕ
  check_udata k = check_value (udata_of k)

  -- `moon_flag_get_*`
  abbrev pub flag_get : FlagKind → ℕ → M W ℕ
  flag_get k i s = arg_or_raise i (flag_of k (value_at i s)) s

  abbrev pub check_table : ℕ → M W ℕ
  check_table = check_value table_of

  abbrev pub check_option : {A : Type 0} → ℕ → List (Text × A) → M W A
  check_option i names = do s ← check_string i; arg_or_raise i (option_of names s)

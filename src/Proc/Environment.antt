-- ===== src/Proc/Environment.antt =====
-- The environment that a new process gets: src/ape_proc.c, ape_table2env.
use mathlib.Core.Option.{some-injective}
use mathlib.Core.Path.{subst}
use prg_buildsh.Prelude.{
  pos, zero, suc, ◌<◌, length, arith, sym, ap, ◌∙◌, ◌⊎◌, inl, inr, ℕ, ◌≡◌, refl, true, Option, none,
  some, List, [], ◌∷◌, ◌++◌, Text, c_string,
}
use prg_buildsh.Machine.{
  number, index, invalid_key, Value, nil, string, field, Key, Table, Lua, Call, Apr, ok, State, M,
  Result, raised, pure, ◌>>=◌,
}
use prg_buildsh.Proc.Vectors.{key_value, push_pair, table_pairs, ape_table2env}

-- The entry of a key and a value, if they are strings or numbers.
abbrev pub entry : Option Text → Option Text → List Text → List Text
entry none v es = es
entry (some s1) none es = es
entry (some s1) (some s2) es = (c_string s1 ++ (b'=' ∷ c_string s2)) ∷ es

abbrev pub entries : Lua → Table → List Key → List Text
entries L t [] = []
entries L t (k ∷ ks) =
    let es = entries L t ks in entry (L.string_of (key_value L k)) (L.string_of (t k)) es

-- `lua_tostring` changes the key k on the stack only if it and the value can be converted, and it is
-- not a string already.
abbrev pub IsKept : Lua → Table → Key → Type 0
IsKept L t k =
    (L.string_of (key_value L k) ≡ none)
    ⊎ (L.string_of (t k) ≡ none)
    ⊎ ((name : Text) × (k ≡ field name))

-- From a key on, `lua_next` walks these keys, and the conversions leave them as they are.
abbrev pub Traverses : Lua → Table → Value → List Key → Type 0
Traverses L t last [] = L.next t last ≡ some none
Traverses L t last (k ∷ ks) =
    (L.next t last ≡ some (some k)) × IsKept L t k × Traverses L t (key_value L k) ks

module _ (L : Lua) (E : Apr) (pool : ℕ)
    (room : (w : E.World) → (E.run (Call.array_push pool) w).0 ≡ true)
    (copies : (s : Text) (w : E.World) → (E.run (Call.pstrcat pool s) w).0 ≡ some s) where
  cons_result :
      (p : Text) (es : List Text) (r : Result (Option (List Text)) × State E.World)
      (s : State E.World)
      → r.0 ≡ ok (some es)
      → (((λ _. r) >>= λ env. pure (elim env [ none ↦ none | some e ↦ some (p ∷ e) ])) s).0
        ≡ ok (some (p ∷ es))
  cons_result p es (ok (some e), u) s h = cc
  cons_result p es (ok none, u) s h = absurd cc
  cons_result p es (raised e, u) s h = absurd cc

  -- What a round leads to, if the rounds behind it give a list.
  push_pair-entry :
      (key : Value) (k v : Option Text) (rest : Value → M E.World (Option (List Text)))
      (es : List Text)
      → ((left : Value) (s : State E.World)
          → (left ≡ key) ⊎ ((s1 s2 : Text) × (k ≡ some s1) × (v ≡ some s2) × (left ≡ string s1))
          → (rest left s).0 ≡ ok (some es))
      → (s : State E.World) → (push_pair L E pool key k v rest s).0 ≡ ok (some (entry k v es))
  unfolding push_pair
  push_pair-entry key none v rest es h s = h key s (inl refl)
  push_pair-entry key (some s1) none rest es h s = h key s (inl refl)
  push_pair-entry key (some s1) (some s2) rest es h s =
      let pair = c_string s1 ++ (b'=' ∷ c_string s2) in
      let w = (E.run (Call.array_push pool) s.world).1 in
      let u = record s {
        world = (E.run (Call.pstrcat pool pair) w).1;
        trace = Call.pstrcat pool pair ∷ Call.array_push pool ∷ s.trace;
      } in
      rw (room s.world) (
        rw (copies pair w) (
          cons_result pair es (rest (string s1) u) u
            (h (string s1) u (inr (s1, s2, refl, refl, refl)))))

  -- `lua_tostring` leaves the key on the stack as it is.
  left_lem :
      (t : Table) (k : Key) (left : Value)
      → IsKept L t k
      → (left ≡ key_value L k)
        ⊎ ((s1 s2 : Text) × (L.string_of (key_value L k) ≡ some s1)
            × (L.string_of (t k) ≡ some s2)
            × (left ≡ string s1))
      → left ≡ key_value L k
  left_lem t k left kept (inl e) = e
  left_lem t k left (inl missing) (inr (s1, s2, e1, e2, e)) = absurd cc
  left_lem t k left (inr (inl missing)) (inr (s1, s2, e1, e2, e)) = absurd cc
  left_lem t k left (inr (inr (name, is))) (inr (s1, s2, e1, e2, e)) =
      let at : L.string_of (string name) ≡ some s1 =
        sym (ap (λ z. L.string_of (key_value L z)) is) ∙ e1 in
      e
      ∙ ap string (some-injective s1 name (sym at ∙ L.string_of-string name))
      ∙ sym (ap (key_value L) is)

  table_pairs-entries :
      (fuel : ℕ) (t : Table) (last : Value) (ks : List Key) (s : State E.World)
      → length ks < fuel
      → Traverses L t last ks
      → (table_pairs L E fuel t last pool s).0 ≡ ok (some (entries L t ks))
  unfolding table_pairs
  table_pairs-entries zero t last ks s lt h = absurd (omega arith)
  table_pairs-entries (suc fuel) t last [] s lt h = rw (table_pairs, h, room s.world)
  table_pairs-entries (suc fuel) t last (k ∷ ks) s lt (h, kept, hs) =
      rw (table_pairs, h)
        (push_pair-entry (key_value L k) (L.string_of (key_value L k)) (L.string_of (t k))
          (λ left. table_pairs L E fuel t left pool) (entries L t ks)
          (λ left u at.
            subst (λ z. (table_pairs L E fuel t z pool u).0 ≡ ok (some (entries L t ks)))
              (sym (left_lem t k left kept at))
              (table_pairs-entries fuel t (key_value L k) ks u (omega arith) hs))
          s)

  -- A new process gets its whole environment: where there is memory, `apr_pstrcat` gives the text
  -- that it is asked for, and `lua_next` walks the keys of the table, none of which is a number with
  -- a string or a number as its value, the vector has one element `name=value`, cut at zero bytes,
  -- for each key of the table that is a string with such a value, in the order of `lua_next`.
  pub table2env-entries :
      (t : ℕ) (s : State E.World)
      → (E.run (Call.array_make pool 16) s.world).0 ≡ true
      → Traverses L (s.tables t) nil (L.next_keys (s.tables t))
      → (ape_table2env L E t pool s).0
        ≡ ok (some (entries L (s.tables t) (L.next_keys (s.tables t))))
  unfolding ape_table2env
  table2env-entries t s made walk =
      let u = record s {
        world = (E.run (Call.array_make pool 16) s.world).1;
        trace = Call.array_make pool 16 ∷ s.trace;
      } in
      let tab = s.tables t in
      rw made (
        table_pairs-entries (suc (length (L.next_keys tab))) tab nil (L.next_keys tab) u
          (omega arith) walk)

  number_key-raises :
      (fuel : ℕ) (t : Table) {i : ℕ} {s1 s2 : Text} (s : State E.World)
      → L.next t nil ≡ some (some (index i))
      → L.string_of (number (pos i)) ≡ some s1
      → L.string_of (t (index i)) ≡ some s2
      → L.next t (string s1) ≡ none
      → (table_pairs L E (suc (suc fuel)) t nil pool s).0 ≡ raised invalid_key
  unfolding table_pairs push_pair
  number_key-raises fuel t {i} {s1} {s2} s first converted is missing =
      let pair = c_string s1 ++ (b'=' ∷ c_string s2) in
      let w = (E.run (Call.array_push pool) s.world).1 in
      rw (table_pairs, first, converted, is, room s.world, copies pair w, missing)

  -- A number as a key stops it: where there is memory, and `apr_pstrcat` gives the text that it is
  -- asked for, a table whose first key is a number with a string or a number as its value, and which
  -- has no key that is the text of this number, leads to the error of `lua_next`.
  pub table2env-raises :
      (t : ℕ) {i : ℕ} {s1 s2 : Text} {k : Key} {ks : List Key} (s : State E.World)
      → (E.run (Call.array_make pool 16) s.world).0 ≡ true
      → L.next_keys (s.tables t) ≡ k ∷ ks
      → L.next (s.tables t) nil ≡ some (some (index i))
      → L.string_of (number (pos i)) ≡ some s1
      → L.string_of (s.tables t (index i)) ≡ some s2
      → L.next (s.tables t) (string s1) ≡ none
      → (ape_table2env L E t pool s).0 ≡ raised invalid_key
  unfolding ape_table2env
  table2env-raises t {ks = ks} s made keys first converted is missing =
      let u = record s {
        world = (E.run (Call.array_make pool 16) s.world).1;
        trace = Call.array_make pool 16 ∷ s.trace;
      } in
      rw (made, keys) (number_key-raises (length ks) (s.tables t) u first converted is missing)

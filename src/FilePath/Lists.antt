-- ===== src/FilePath/Lists.antt =====
-- Lists of paths, split and merged again: src/ape_fpath.c.
use mathlib.Core.Path.{subst}
use prg_buildsh.Prelude.{
  ℕ, zero, suc, ◌+◌, ◌≤◌, ◌<◌, ◌≡◌, refl, sym, ap, ◌∙◌, true, false, Option, some, List, [], ◌∷◌,
  map, arith, ◌==◌, length, Text, c_string,
}
use prg_buildsh.Machine.{
  string, table, userdata, apr_pool, index, Table, Lua, Call, Apr, Result, ok, raised, State, M,
  set_table, rawset, results, invoke, ape_status, Status, count, when, ◌>>=◌, ◌>>◌,
}
use prg_buildsh.Pool.{ape_opt_pool}
use prg_buildsh.Proc.Passed.{Elements, table_strings-Elements}
use prg_buildsh.FilePath.{set_array, push_array, ape_filepath_list_split, ape_filepath_list_merge}

same_index : (i : ℕ) → (i == i) ≡ true
same_index i = ground arith

-- A table with strings stored from index i on.
abbrev pub store : ℕ → List Text → Table → Table
store i [] t = t
store i (x ∷ xs) t = store (i + 1) xs (rawset (index i) (string x) t)

store-below : (i k : ℕ) (xs : List Text) (t : Table) → k < i → store i xs t (index k) ≡ t (index k)
store-below i k [] t lt = refl
store-below i k (x ∷ xs) t lt =
    let other : (i == k) ≡ false = ground arith in
    store-below (i + 1) k xs (rawset (index i) (string x) t) (omega arith) ∙ rw other

store-above :
    (i k : ℕ) (xs : List Text) (t : Table)
    → i + length xs ≤ k
    → store i xs t (index k) ≡ t (index k)
store-above i k [] t le = refl
store-above i k (x ∷ xs) t le =
    let other : (i == k) ≡ false = ground arith in
    store-above (i + 1) k xs (rawset (index i) (string x) t) (omega arith) ∙ rw other

store-Elements : (L : Lua) (i : ℕ) (xs : List Text) (t : Table) → Elements L (store i xs t) i xs
store-Elements L i [] t j x at = absurd (cc)
store-Elements L i (y ∷ xs) t zero x at =
    ap (λ k. store (i + 1) xs (rawset (index i) (string y) t) (index k)) {y = i} (omega arith)
    ∙ (store-below (i + 1) i xs (rawset (index i) (string y) t) (omega arith)
        ∙ rw (same_index i) (cc))
store-Elements L i (y ∷ xs) t (suc j) x at =
    ap (λ k. store (i + 1) xs (rawset (index i) (string y) t) (index k)) {y = i + 1 + j}
      (omega arith)
    ∙ store-Elements L (i + 1) xs (rawset (index i) (string y) t) j x at

-- All strings of the array are stored, and the rest of the state stays.
set_array_lem :
    {W : Type 0} (t i : ℕ) (xs : List Text) (s : State W)
    → let (r, u) = set_array t i xs s in
      (r ≡ ok tt)
      × (u.args ≡ s.args)
      × (u.pushed ≡ s.pushed)
      × (u.block ≡ s.block)
      × (u.world ≡ s.world)
      × (u.trace ≡ s.trace)
      × (u.tables t ≡ store i xs (s.tables t))
set_array_lem t i [] s = (refl, refl, refl, refl, refl, refl, refl)
set_array_lem t i (x ∷ xs) s =
    let u = (set_table t (index i) (string x) s).1 in
    let (r, a, p, b, w, c, e) = set_array_lem t (i + 1) xs u in
    let now : u.tables t ≡ rawset (index i) (string x) (s.tables t) = rw (same_index t) in
    (r, a, p, b, w, c, e ∙ ap (store (i + 1) xs) now)

module _ (L : Lua) (E : Apr) (path : Text) (q p : ℕ) (xs : List Text) (s : State E.World)
    (pool : L.udata_of apr_pool (userdata q) ≡ some p) where
  abbrev split_call : Call
  split_call = Call.filepath_list_split (c_string path) (s.block p)

  -- The address of the table that is returned.
  abbrev pub address : ℕ
  address = (E.run Call.newtable (E.run split_call s.world).1).0

  -- Where the strings are stored, with the table on the stack.
  abbrev before_store : State E.World
  before_store = record s {
    args = string path ∷ userdata q ∷ [];
    pushed = table address ∷ [];
    world = (E.run Call.newtable (E.run split_call s.world).1).1;
    trace = Call.newtable ∷ split_call ∷ s.trace;
  }

  -- One result, the table with the strings.
  abbrev Divided : Result ℕ × State E.World → Type 0
  Divided (ok n, u) =
      (n ≡ 1)
      × (results 1 u ≡ table address ∷ [])
      × (u.block ≡ s.block)
      × (u.trace ≡ before_store.trace)
      × (u.tables address ≡ store 1 xs (s.tables address))
  Divided (raised e, u) = ⊥

  stored-Divided :
      (r : Result (Unit {0}) × State E.World)
      → (r.0 ≡ ok tt)
        × (r.1.args ≡ before_store.args)
        × (r.1.pushed ≡ before_store.pushed)
        × (r.1.block ≡ before_store.block)
        × (r.1.world ≡ before_store.world)
        × (r.1.trace ≡ before_store.trace)
        × (r.1.tables address ≡ store 1 xs (s.tables address))
      → Divided (((λ _. r) >>= λ _. ape_status E (count 1) 0) before_store)
  unfolding ape_status
  stored-Divided (ok a, u) (r, args, p', b, w, c, e) =
      (refl, ap (λ vs. results 1 (record u { pushed = vs })) p', b, c, e)
  stored-Divided (raised x, u) (r, args, p', b, w, c, e) = absurd (cc)

  list_split-Divided :
      (E.run split_call s.world).0 ≡ (0, some xs)
      → Divided (invoke (ape_filepath_list_split L E) (string path ∷ userdata q ∷ []) s)
  unfolding ape_filepath_list_split ape_status ape_opt_pool
  list_split-Divided answer =
      let into : Status × Option (List Text) → M E.World ℕ =
        λ z. (do when (z.0 == 0) (push_array L E z.1); ape_status E (count 1) z.0) in
      let asked : State E.World = record s {
        args = string path ∷ userdata q ∷ [];
        pushed = [];
        world = (E.run split_call s.world).1;
        trace = split_call ∷ s.trace;
      } in
      let e : ape_filepath_list_split L E
            (record s { args = string path ∷ userdata q ∷ []; pushed = [] })
          ≡ into (E.run split_call s.world).0 asked =
        ground (arith, L.string_of-string path, pool) in
      subst Divided (sym e) (
        subst (λ z. Divided (into z asked)) (sym answer)
          (stored-Divided (set_array address 1 xs before_store)
            (set_array_lem address 1 xs before_store)))

  -- What is passed on: the strings of a table, as C strings.
  merged_trace :
      (t : ℕ) (u : State E.World)
      → u.block ≡ s.block
      → L.rawlen (u.tables t) ≡ length xs
      → Elements L (u.tables t) 1 xs
      → ((n : ℕ) (w : E.World) → (E.run (Call.array_make (s.block p) n) w).0 ≡ true)
      → (invoke (ape_filepath_list_merge L E) (table t ∷ userdata q ∷ []) u).1.trace
        ≡ Call.filepath_list_merge (map c_string xs) (s.block p)
          ∷ Call.array_make (s.block p) (length xs)
          ∷ u.trace
  unfolding ape_filepath_list_merge ape_status ape_opt_pool
  merged_trace t u b len e made =
      ground (
        arith,
        pool,
        b,
        len,
        made (length xs) u.world,
        table_strings-Elements L (u.tables t) 1 xs e,
      )

  -- `filepath_list_split` on a path and a pool, where APR gives an array: it returns one table, and
  -- `filepath_list_merge` on that table hands APR the same array again: the same strings, in order,
  -- each as a C string. No other call is made but those for the table and the array. This holds
  -- where the length of the new table is the number of its strings and there is memory for an array.
  pub list_merge-list_split :
      (E.run split_call s.world).0 ≡ (0, some xs)
      → L.rawlen (store 1 xs (s.tables address)) ≡ length xs
      → ((n : ℕ) (w : E.World) → (E.run (Call.array_make (s.block p) n) w).0 ≡ true)
      → let (r, u) = invoke (ape_filepath_list_split L E) (string path ∷ userdata q ∷ []) s in
        let v = (invoke (ape_filepath_list_merge L E) (table address ∷ userdata q ∷ []) u).1 in
        (r ≡ ok 1)
        × (results 1 u ≡ table address ∷ [])
        × (v.trace
            ≡ Call.filepath_list_merge (map c_string xs) (s.block p)
              ∷ Call.array_make (s.block p) (length xs)
              ∷ Call.newtable
              ∷ split_call
              ∷ s.trace)
  list_merge-list_split answer len made =
      both_ways (invoke (ape_filepath_list_split L E) (string path ∷ userdata q ∷ []) s)
        (list_split-Divided answer)
    where
      both_ways :
          (z : Result ℕ × State E.World)
          → Divided z
          → (z.0 ≡ ok 1)
            × (results 1 z.1 ≡ table address ∷ [])
            × ((invoke (ape_filepath_list_merge L E) (table address ∷ userdata q ∷ []) z.1).1.trace
                ≡ Call.filepath_list_merge (map c_string xs) (s.block p)
                  ∷ Call.array_make (s.block p) (length xs)
                  ∷ before_store.trace)
      both_ways (ok n, u) (one, out, b, c, e) = (
        ap ok one,
        out,
        merged_trace address u b (ap L.rawlen e ∙ len)
              (subst (λ t. Elements L t 1 xs) (sym e) (store-Elements L 1 xs (s.tables address)))
              made
            ∙ ap
                (λ tr.
                  Call.filepath_list_merge (map c_string xs) (s.block p)
                  ∷ Call.array_make (s.block p) (length xs)
                  ∷ tr)
                c,
      )
      both_ways (raised x, u) h = absurd h

-- ===== src/Extra/Suffix.antt =====
-- What `basename` strips.
use prg_buildsh.Prelude.{
  ℕ, suc, ◌+◌, ◌-◌, ◌≡◌, refl, sym, ap, ◌∙◌, ◌≢◌, inl, inr, true, some, List, [], ◌∷◌, ◌++◌, map,
  append_assoc, arith, Bool-cases, length, get_elem?, take, drop, length-append, drop-append,
  take-append-drop, text_eq_refl, eq_of_text_eq, Text, c_string,
}
use prg_buildsh.Machine.{Value, string, Lua, Apr, ok, State, invoke}
use prg_buildsh.Extra.Names.{has_suffix, strip_suffixes, ape_extra_basename}

-- The name without the first of the suffixes that it ends in; the name itself if there is none.
pub data Stripped (name : Text) : List Text → Text → Type 0 where
  unchanged : Stripped name [] name
  here : {s r : Text} {ss : List Text} → name ≡ r ++ s → Stripped name (s ∷ ss) r
  later :
      {s r : Text} {ss : List Text}
      → ((q : Text) → name ≢ q ++ s)
      → Stripped name ss r
      → Stripped name (s ∷ ss) r

has_suffix-append : (r s : Text) → has_suffix (r ++ s) s ≡ true
unfolding has_suffix
has_suffix-append r s =
    let e : length (r ++ s) - length s ≡ length r = omega (arith, length-append r s) in
    rw (e, drop-append r s, text_eq_refl s) (ground (arith, length-append r s))

split_suffix :
    (name s : Text) → has_suffix name s ≡ true → name ≡ take (length name - length s) name ++ s
unfolding has_suffix
split_suffix name s h =
    let k : ℕ = length name - length s in
    let e : drop k name ≡ s = sym (eq_of_text_eq s (drop k name) (ground arith)) in
    sym (ap (λ (t : Text). take k name ++ t) (sym e) ∙ take-append-drop k name)

pub get_elem?-append :
    (xs : List Value) (x : Value) (ys : List Value)
    → get_elem? (xs ++ (x ∷ ys)) (length xs) ≡ some x
get_elem?-append [] x ys = refl
get_elem?-append (z ∷ xs) x ys = get_elem?-append xs x ys

pub position : (n : ℕ) → n + 1 - 1 ≡ n
position n = omega arith

pub next_index :
    (pre : List Value) (x : Text) → length (pre ++ (string x ∷ [])) + 1 ≡ length pre + 1 + 1
next_index pre x = omega (arith, length-append pre (string x ∷ []))

pub next_args :
    {W : Type 0} (pre : List Value) (v : Value) (ys : List Value) (s : State W)
    → s.args ≡ pre ++ (v ∷ ys)
    → s.args ≡ (pre ++ (v ∷ [])) ++ ys
next_args pre v ys s e = e ∙ sym (append_assoc pre (v ∷ []) ys)

module _ (L : Lua) (E : Apr) (name : Text) where
  -- The loop, on a list of suffixes that ends the arguments.
  strip_suffixes-Stripped :
      (pre : List Value) (suffixes : List Text) (s : State E.World)
      → s.args ≡ pre ++ map string suffixes
      → (r : Text) × (strip_suffixes L E name (length pre + 1) (length suffixes) s ≡ (ok r, s))
        × Stripped name suffixes r
  unfolding strip_suffixes
  strip_suffixes-Stripped pre [] s e = (name, refl, unchanged)
  strip_suffixes-Stripped pre (x ∷ xs) s e =
      let a : get_elem? s.args (length pre + 1 - 1) ≡ some (string x) =
        rw (e, position (length pre)) (get_elem?-append pre (string x) (map string xs)) in
      let (r, run, stripped) =
        strip_suffixes-Stripped (pre ++ (string x ∷ [])) xs s
          (next_args pre (string x) (map string xs) s e) in
      elim (Bool-cases (has_suffix name x)) [
        | inl fits ↦ (
          take (length name - length x) name,
          ground (arith, a, L.string_of-string x),
          here (split_suffix name x fits),
        )
        | inr other ↦ (
          r,
          ground (arith, a, L.string_of-string x, rw (next_index pre x) at run),
          later (λ q same. cc (has_suffix-append q x, ap (λ (t : Text). has_suffix t x) same))
              stripped,
        )
      ]

pub length-map_string : (xs : List Text) → length (map string xs) ≡ length xs
length-map_string [] = refl
length-map_string (x ∷ xs) = ap suc (length-map_string xs)

count_args : (path : Text) (xs : List Text) → length (string path ∷ map string xs) - 1 ≡ length xs
count_args path xs = omega (arith, length-map_string xs)

-- `basename` on a path and suffixes returns the file name of the path, stripped of the first suffix
-- that it ends in, and changes nothing else.
pub basename_strips :
    (L : Lua) (E : Apr) (path : Text) (suffixes : List Text) (s : State E.World)
    → (r : Text) × (invoke (ape_extra_basename L E) (string path ∷ map string suffixes) s
        ≡ (ok 1, record s { args = string path ∷ map string suffixes; pushed = string r ∷ [] }))
      × Stripped (E.name_get (c_string path)) suffixes r
unfolding ape_extra_basename
basename_strips L E path suffixes s =
    let t : State E.World = record s { args = string path ∷ map string suffixes; pushed = [] } in
    let (r, run, stripped) =
      strip_suffixes-Stripped L E (E.name_get (c_string path)) (string path ∷ []) suffixes t refl in
    (r, ground (arith, L.string_of-string path, count_args path suffixes, run), stripped)

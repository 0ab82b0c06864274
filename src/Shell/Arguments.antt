-- ===== src/Shell/Arguments.antt =====
-- The global table `arg` that src/buildsh.c hands to the script.
use prg_buildsh.Prelude.{
  ℕ, zero, suc, ◌+◌, ◌-◌, ◌<◌, ◌≡◌, refl, ap, ◌∙◌, Bool, false, Option, none, some, List, [], ◌∷◌,
  arith, leb, ◌==◌, if◌then◌else◌, get_elem?, Text, ℤ, pos, negsuc,
}
use prg_buildsh.Shell.Outside.{Host}
use prg_buildsh.Shell.{same_index, set_args}

-- The number of the element of argv that belongs at an index, if the script is the n-th.
abbrev pub place : ℕ → ℤ → Option ℕ
place n (pos k) = some (k + n)
place n (negsuc k) = if leb (k + 1) n then some (n - (k + 1)) else none

abbrev is_place : Option ℕ → ℕ → Bool
is_place none i = false
is_place (some j) i = j == i

same_index_lem : (k : ℤ) (n i : ℕ) → same_index k n i ≡ is_place (place n k) i
same_index_lem (pos k) n i = refl
same_index_lem (negsuc k) n i = ground arith

-- The element with the number j, if the numbers begin at i, or else d.
abbrev lookup : ℕ → List Text → ℕ → Option Text → Option Text
lookup i [] j d = d
lookup i (x ∷ xs) j d = lookup (i + 1) xs j (if j == i then some x else d)

lookup-before : (i j : ℕ) (xs : List Text) (d : Option Text) → j < i → lookup i xs j d ≡ d
lookup-before i j [] d h = refl
lookup-before i j (x ∷ xs) d h =
    lookup-before (i + 1) j xs (if j == i then some x else d) (omega arith) ∙ ground arith

lookup_lem : (i j m : ℕ) (xs : List Text) → j ≡ m + i → lookup i xs j none ≡ get_elem? xs m
lookup_lem i j m [] e = refl
lookup_lem i j zero (x ∷ xs) e =
    lookup-before (i + 1) j xs (if j == i then some x else none) (omega arith) ∙ ground arith
lookup_lem i j (suc m) (x ∷ xs) e =
    ap (lookup (i + 1) xs j) (ground arith) ∙ lookup_lem (i + 1) j m xs (omega arith)

-- What becomes of an index, by its place.
abbrev stored : ℕ → List Text → Option Text → Option ℕ → Option Text
stored i xs d none = d
stored i xs d (some j) = lookup i xs j d

module _ (H : Host) where
  set_args-stored :
      (n i : ℕ) (xs : List Text) (t : ℤ → Option Text) (k : ℤ)
      → set_args H n i xs t k ≡ stored i xs (t k) (place n k)
  unfolding set_args
  set_args-stored n i [] t k = elim (place n k) as (λ o. t k ≡ stored i [] (t k) o) [
    | none ↦ refl
    | some j ↦ refl
  ]
  set_args-stored n i (x ∷ xs) t k =
      set_args-stored n (i + 1) xs (λ k'. if same_index k' n i then some x else t k') k
      ∙ rw (same_index_lem k n i)
          (elim (place n k)
            as (λ o.
              stored (i + 1) xs (if is_place o i then some x else t k) o
              ≡ stored i (x ∷ xs) (t k) o) [ none ↦ refl | some j ↦ refl ])

  -- The table `arg` is argv with the index 0 at the script: the element with the number j stands at
  -- the index j - n, and there is nothing at any other index.
  pub set_args-place :
      (n : ℕ) (argv : List Text) (k : ℤ)
      → set_args H n 0 argv (λ _. none) k
        ≡ (elim (place n k) [ none ↦ none | some j ↦ get_elem? argv j ])
  set_args-place n argv k =
      set_args-stored n 0 argv (λ _. none) k
      ∙ (elim (place n k)
          as (λ o. stored 0 argv none o ≡ (elim o [ none ↦ none | some j ↦ get_elem? argv j ])) [
            | none ↦ refl
            | some j ↦ lookup_lem 0 j j argv (omega arith)
          ])

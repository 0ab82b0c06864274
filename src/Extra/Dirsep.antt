-- ===== src/Extra/Dirsep.antt =====
-- `find_dirsep` of src/ape_extra.c, which splits a path at its last directory separator.
-- LUA_DIRSEP is one byte on every platform (luaconf.h), here the parameter `dirsep`.
use prg_buildsh.Prelude.{
  ◌-◌, ◌↔◌, ℕ, zero, suc, ◌≤◌, ◌<◌, ◌≡◌, inl, inr, Bool, true, false, not, ◌&&◌, ◌||◌, [], ◌∷◌,
  arith, ◌==◌, if◌then◌else◌, Bool-cases, length, Text,
}

-- The byte at an offset; behind the end it is the terminator.
abbrev pub byte_at : Text → ℕ → ℕ
byte_at [] i = 0
byte_at (b ∷ s) zero = b
byte_at (b ∷ s) (suc i) = byte_at s i

module _ (dirsep : ℕ) where
  -- `have_sep` is false where LUA_DIRSEP is "/" itself.
  abbrev have_sep : Bool
  have_sep = not (dirsep == b'/')

  unfoldable pub is_separator : ℕ → Bool
  is_separator b = (b == b'/') || (have_sep && (b == dirsep))

  -- The inner loop: remove all trailing separators of the first `len` bytes.
  unfoldable strip_separators : Text → ℕ → ℕ
  strip_separators path zero = 0
  strip_separators path (suc len) =
      let shorter = strip_separators path len in
      if is_separator (byte_at path len) then shorter else suc len

  -- The outer loop, from the end. The offsets of the separators and of the base name.
  unfoldable find_from : Text → ℕ → ℕ × ℕ
  unfolding strip_separators
  find_from path zero = (0, 0)
  find_from path (suc len) =
      let before = find_from path len in
      if is_separator (byte_at path len) then (strip_separators path len, suc len) else before

  unfoldable pub find_dirsep : Text → ℕ × ℕ
  unfolding find_from
  find_dirsep path = find_from path (length path)

  -- Where a path is split: the offsets d of the separators and b of the base name. The base name
  -- holds no separator, all between the two offsets is separators, and the directory part ends in
  -- none. With no separator at all both offsets are 0.
  pub record IsSplit (path : Text) (d b : ℕ) : Type 0 where
    pub ordered : d ≤ b
    pub inside : b ≤ length path
    pub base : (i : ℕ) → b ≤ i → i < length path → is_separator (byte_at path i) ≡ false
    pub middle : (i : ℕ) → d ≤ i → i < b → is_separator (byte_at path i) ≡ true
    pub front : (i : ℕ) → d ≡ suc i → is_separator (byte_at path i) ≡ false
    pub found : 0 < b → d < b

  strip_separators-le : (path : Text) (n : ℕ) → strip_separators path n ≤ n
  unfolding strip_separators
  strip_separators-le path zero = omega arith
  strip_separators-le path (suc n) = ground (arith, strip_separators-le path n)

  strip_separators-middle :
      (path : Text) (n i : ℕ)
      → strip_separators path n ≤ i
      → i < n
      → is_separator (byte_at path i) ≡ true
  unfolding strip_separators
  strip_separators-middle path zero i h lt = absurd (omega arith)
  strip_separators-middle path (suc n) i h lt = ground (arith, strip_separators-middle path n i)

  strip_separators-front :
      (path : Text) (n i : ℕ)
      → strip_separators path n ≡ suc i
      → is_separator (byte_at path i) ≡ false
  unfolding strip_separators
  strip_separators-front path zero i e = absurd (omega arith)
  strip_separators-front path (suc n) i e = ground (arith, strip_separators-front path n i)

  strip_separators-lt :
      (path : Text) (n : ℕ)
      → is_separator (byte_at path n) ≡ true
      → strip_separators path (suc n) ≤ n
  unfolding strip_separators
  strip_separators-lt path n h = ground (arith, strip_separators-le path n)

  -- What the outer loop has found when it began at n.
  record Found (path : Text) (n d b : ℕ) : Type 0 where
    ordered : d ≤ b
    inside : b ≤ n
    base : (i : ℕ) → b ≤ i → i < n → is_separator (byte_at path i) ≡ false
    middle : (i : ℕ) → d ≤ i → i < b → is_separator (byte_at path i) ≡ true
    front : (i : ℕ) → d ≡ suc i → is_separator (byte_at path i) ≡ false
    found : 0 < b → d < b

  find_from-Found : (path : Text) (n : ℕ) → Found path n (find_from path n).0 (find_from path n).1
  unfolding find_from
  find_from-Found path zero = record {
    ordered = omega arith;
    inside = omega arith;
    base = λ i h k. absurd (omega arith);
    middle = λ i h k. absurd (omega arith);
    front = λ i e. absurd (omega arith);
    found = λ h. absurd (omega arith);
  }
  find_from-Found path (suc n) =
      let r = find_from-Found path n in
      elim (Bool-cases (is_separator (byte_at path n))) [
        | inl here ↦ rw here (record {
          ordered = omega (arith, strip_separators-le path n);
          inside = omega arith;
          base = λ i h k. absurd (omega arith);
          middle = λ i h k. ground (arith, strip_separators-middle path n i);
          front = λ i e. strip_separators-front path n i e;
          found = λ h. omega (arith, strip_separators-le path n);
        })
        | inr other ↦ rw other (record {
          ordered = r.ordered;
          inside = omega (arith, r.inside);
          base = λ i h k. ground (arith, r.base i);
          middle = r.middle;
          front = r.front;
          found = r.found;
        })
      ]

  -- The two offsets of `find_dirsep` split the path at its last separators.
  find_dirsep-IsSplit : (path : Text) → IsSplit path (find_dirsep path).0 (find_dirsep path).1
  unfolding find_dirsep
  find_dirsep-IsSplit path =
      let r = find_from-Found path (length path) in
      record {
        ordered = r.ordered;
        inside = r.inside;
        base = r.base;
        middle = r.middle;
        front = r.front;
        found = r.found;
      }

  base_offset-le : {path : Text} {d b d' b' : ℕ} → IsSplit path d b → IsSplit path d' b' → b' ≤ b
  base_offset-le {path} {d} {b} {d'} {b'} r r' =
      ground (arith, r.base (b' - 1), r'.middle (b' - 1), r'.found, r'.inside)

  separator_offset-le :
      {path : Text} {d b d' b' : ℕ} → IsSplit path d b → IsSplit path d' b' → d' ≤ d
  separator_offset-le {path} {d} {b} {d'} {b'} r r' = ground (
    arith,
    base_offset-le r r',
    base_offset-le r' r,
    r.middle (d' - 1),
    r'.front (d' - 1),
    r'.ordered,
  )

  -- A path has one split only, so `find_dirsep` returns offsets d and b exactly if they split it.
  pub find_dirsep_iff : (path : Text) (d b : ℕ) → IsSplit path d b ↔ (find_dirsep path ≡ (d, b))
  find_dirsep_iff path d b = (
    λ r.
        let q = find_dirsep-IsSplit path in
        ground (
          arith,
          base_offset-le q r,
          base_offset-le r q,
          separator_offset-le q r,
          separator_offset-le r q,
        ),
    λ e. rw e at (find_dirsep-IsSplit path),
  )

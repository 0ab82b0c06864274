-- ===== src/Extra/Candidates.antt =====
-- What the searches of src/ape_extra.c take a candidate for, by what `apr_stat` says of its path.
use prg_buildsh.Prelude.{ℕ, ◌≡◌, Bool, true, false, ◌&&◌, ◌==◌}
use prg_buildsh.Machine.{Finfo, Status, Apr}
use prg_buildsh.Machine.{type, uprot}
use prg_buildsh.Extra.Search.{is_regular}

module _ (E : Apr) where
  -- A regular file that the user may use,
  pub record IsSuitable (may : ℕ → Bool) (a : Status × Finfo) : Type 0 where
    pub success : (a.0 == 0) ≡ true
    pub protection_known : a.1.valid uprot ≡ true
    pub type_known : a.1.valid type ≡ true
    pub usable : (is_regular a.1.filetype && may a.1.protection) ≡ true

  -- nothing, or something else than such a file,
  pub data IsAbsent (may : ℕ → Bool) (a : Status × Finfo) : Type 0 where
    no_entry : E.is_enoent a.0 ≡ true → IsAbsent may a
    unsuitable :
        (a.0 == 0) ≡ true
        → a.1.valid uprot ≡ true
        → a.1.valid type ≡ true
        → (is_regular a.1.filetype && may a.1.protection) ≡ false
        → IsAbsent may a

  -- or a failure.
  pub data IsFault (a : Status × Finfo) : Status → Type 0 where
    error : (a.0 == 0) ≡ false → E.is_enoent a.0 ≡ false → IsFault a a.0
    incomplete :
        (a.0 == 0) ≡ true → (a.1.valid uprot && a.1.valid type) ≡ false → IsFault a E.egeneral

-- ===== src/File/Fields.antt =====
-- What a table asks for, and what it is given: `table2want` and `finfo2table` of src/ape_file.c.
use prg_buildsh.Prelude.{
  ℕ, ◌≡◌, refl, ◌∙◌, inl, inr, Bool, true, false, not, ◌||◌, some, List, [], ◌∷◌, arith, ◌==◌,
  if◌then◌else◌, Bool-cases, Text, text,
}
use prg_buildsh.Machine.{table, Field, Mask, field, Table, Lua, Apr, ok, State, value_at}
use prg_buildsh.Machine.{
  link, mtime, ctime, atime, size, csize, nlink, type, user, group, prot, icase, name, uprot,
}
use prg_buildsh.File.Info.{named_fields, field_code, with_bit, is_nil, check_flags, table2want}

-- P holds of every name and field of a list.
abbrev pub EachField : (Text → Field → Type 0) → List (Text × Field) → Type 0
EachField P [] = Unit
EachField P ((n, f) ∷ fs) = P n f × EachField P fs

-- Whether a table has a value under the name of the field g.
abbrev asks : List (Text × Field) → Table → Field → Bool
asks [] t g = false
asks ((n, f) ∷ fs) t g =
    let rest = asks fs t g in
    if field_code f == field_code g then not (is_nil (t (field n))) || rest else rest

check_flags-asks :
    (fs : List (Text × Field)) (t : Table) (want : Mask) (g : Field)
    → check_flags fs t want g ≡ (want g || asks fs t g)
unfolding check_flags
check_flags-asks [] t want g = ground arith
check_flags-asks ((n, f) ∷ fs) t want g = elim (Bool-cases (is_nil (t (field n)))) [
  | inl absent ↦ ground (arith, check_flags-asks fs t want g)
  | inr present ↦ ground (arith, check_flags-asks fs t (with_bit want f) g)
]

or_false : (b : Bool) → (b || false) ≡ b
or_false true = refl
or_false false = refl

module _ (L : Lua) (E : Apr) (i : ℕ) (s : State E.World) where
  -- `table2want` of a table wants exactly the fields under whose names the table has a value, and
  -- never the user's permissions alone; it changes nothing.
  pub table2want_asks :
      {t : ℕ}
      → value_at i s ≡ some (table t)
      → (want : Mask) × (table2want L E i s ≡ (ok want, s))
        × EachField (λ n f. want f ≡ not (is_nil (s.tables t (field n)))) named_fields
        × (want uprot ≡ false)
  unfolding table2want
  table2want_asks {t} at =
      let tab : Table = s.tables t in
      let wanted : (g : Field) (n : Text)
          → asks named_fields tab g ≡ (not (is_nil (tab (field n))) || false)
          → check_flags named_fields tab (λ _. false) g ≡ not (is_nil (tab (field n))) =
        λ g n e.
          check_flags-asks named_fields tab (λ _. false) g
          ∙ e
          ∙ or_false (not (is_nil (tab (field n)))) in
      (
        check_flags named_fields tab (λ _. false),
        ground arith,
        (
          wanted link (text "link") refl,
          (
            wanted mtime (text "mtime") refl,
            (
              wanted ctime (text "ctime") refl,
              (
                wanted atime (text "atime") refl,
                (
                  wanted size (text "size") refl,
                  (
                    wanted csize (text "csize") refl,
                    (
                      wanted nlink (text "nlink") refl,
                      (
                        wanted type (text "type") refl,
                        (
                          wanted user (text "user") refl,
                          (
                            wanted group (text "group") refl,
                            (
                              wanted prot (text "prot") refl,
                              (
                                wanted icase (text "icase") refl,
                                (wanted name (text "name") refl, tt),
                              ),
                            ),
                          ),
                        ),
                      ),
                    ),
                  ),
                ),
              ),
            ),
          ),
        ),
        check_flags-asks named_fields tab (λ _. false) uprot,
      )

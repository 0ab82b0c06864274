-- ===== src/File/Info.antt =====
-- File information: `table2want`, `type2string` and `finfo2table` of src/ape_file.c.
use prg_buildsh.Prelude.{
  ℕ, Bool, true, false, ◌||◌, none, some, List, [], ◌∷◌, ◌==◌, if◌then◌else◌, Text, text,
}
use prg_buildsh.Time.{ape_time_userdata}
use prg_buildsh.User.{ape_uid_userdata, ape_gid_userdata}
use prg_buildsh.Prelude.{arith, ◌≡◌, ◌⊎◌, inl, inr, Option-cases}
use prg_buildsh.Machine.{
  State, ok, raised, bad_argument, value_at, table_of, push, set_field, Value, nil, boolean, number,
  string, fperms, Field, Mask, Finfo, FileType, field, Table, Lua, Call, Apr, M, pure, gets, when,
  ◌>>=◌, ◌>>◌, call, check_table,
}
use prg_buildsh.Machine.{
  link, mtime, ctime, atime, size, csize, nlink, type, user, group, prot, icase, name, uprot, reg,
  dir, chr, blk, pipe, lnk, sock, nofile, unkfile,
}

-- The fields that a table can ask for, under their Lua names and in the order of the macro calls.
abbrev pub named_fields : List (Text × Field)
named_fields =
    (text "link", link)
    ∷ (text "mtime", mtime)
    ∷ (text "ctime", ctime)
    ∷ (text "atime", atime)
    ∷ (text "size", size)
    ∷ (text "csize", csize)
    ∷ (text "nlink", nlink)
    ∷ (text "type", type)
    ∷ (text "user", user)
    ∷ (text "group", group)
    ∷ (text "prot", prot)
    ∷ (text "icase", icase)
    ∷ (text "name", name)
    ∷ []

abbrev pub field_code : Field → ℕ
field_code link = 0
field_code mtime = 1
field_code ctime = 2
field_code atime = 3
field_code size = 4
field_code csize = 5
field_code nlink = 6
field_code type = 7
field_code user = 8
field_code group = 9
field_code prot = 10
field_code icase = 11
field_code name = 12
field_code uprot = 13

-- `want | bit`
abbrev pub with_bit : Mask → Field → Mask
with_bit want f g = want g || (field_code f == field_code g)

abbrev pub is_nil : Value → Bool
is_nil nil = true
is_nil _ = false

-- The chain of `check_flag`.
unfoldable pub check_flags : List (Text × Field) → Table → Mask → Mask
check_flags [] t want = want
check_flags ((fname, f) ∷ rest) t want =
    check_flags rest t (if is_nil (t (field fname)) then want else with_bit want f)

unfoldable pub type2string : FileType → Text
type2string reg = text "regular file"
type2string dir = text "directory"
type2string chr = text "character device"
type2string blk = text "block device"
type2string pipe = text "pipe"
type2string lnk = text "symbolic link"
type2string sock = text "socket"
type2string nofile = text "no file"
type2string unkfile = text "unknown"

module _ (L : Lua) (E : Apr) where
  unfoldable pub table2want : ℕ → M E.World Mask
  unfolding check_flags
  table2want i = do
    t ← check_table L i
    tab ← gets (λ s. s.tables t)
    pure (check_flags named_fields tab (λ _. false))

  -- Reading the wishes changes nothing.
  pub table2want-cases :
      (i : ℕ) (s : State E.World)
      → (table2want i s ≡ (raised (bad_argument i), s))
        ⊎ ((want : Mask) × (table2want i s ≡ (ok want, s)))
  unfolding table2want
  table2want-cases i s = elim (Option-cases (value_at i s)) [
    | inl e ↦ inl (ground arith)
    | inr (v, e) ↦ elim (Option-cases (table_of v)) [
      | inl f ↦ inl (ground arith)
      | inr (t, f) ↦ inr (check_flags named_fields (s.tables t) (λ _. false), ground arith)
    ]
  ]

module _ (E : Apr) where
  -- What the macro call of a field pushes when the field is valid.
  unfoldable pub push_value : Finfo → Field → M E.World (Unit {0})
  unfolding type2string ape_time_userdata ape_uid_userdata ape_gid_userdata
  push_value fi link = push (boolean false)
  push_value fi mtime = ape_time_userdata E fi.mtime
  push_value fi ctime = ape_time_userdata E fi.ctime
  push_value fi atime = ape_time_userdata E fi.atime
  push_value fi size = push (number fi.size)
  push_value fi csize = push (number fi.csize)
  push_value fi nlink = push (number fi.nlink)
  push_value fi type = push (string (type2string fi.filetype))
  push_value fi user = ape_uid_userdata E fi.user
  push_value fi group = ape_gid_userdata E fi.group
  push_value fi prot = do v ← call E (Call.flag_new fperms fi.protection); push v
  push_value fi icase = push (boolean false)
  push_value fi name = push (elim fi.name [ some s ↦ string s | none ↦ boolean false ])
  push_value fi uprot = push (boolean false)

  -- `push_if_flag`
  unfoldable pub push_if_flag : ℕ → Mask → Finfo → Text → Field → M E.World (Unit {0})
  unfolding push_value
  push_if_flag t want fi fname f =
      when (want f)
        (do if fi.valid f then push_value fi f else push (boolean false); set_field t fname)

  unfoldable pub push_fields : List (Text × Field) → ℕ → Mask → Finfo → M E.World (Unit {0})
  unfolding push_if_flag
  push_fields [] t want fi = pure tt
  push_fields ((fname, f) ∷ rest) t want fi = do
    push_if_flag t want fi fname f
    push_fields rest t want fi

  unfoldable pub finfo2table : ℕ → Mask → Finfo → M E.World (Unit {0})
  unfolding push_fields
  finfo2table t want fi = push_fields named_fields t want fi

-- ===== src/File/Shown.antt =====
-- What stands for a field of APR's file information in a table: finfo2table of src/ape_file.c.
use prg_buildsh.Prelude.{
  ℕ, ◌≡◌, ◌∙◌, inl, inr, Bool, true, false, none, some, List, [], ◌∷◌, if◌then◌else◌, Bool-cases,
  Text, text_eq,
}
use prg_buildsh.Machine.{
  Value, boolean, number, string, userdata, Kind, apr_uid, apr_gid, apr_time, fperms, Field, Mask,
  Finfo, Call, Apr, State,
}
use prg_buildsh.Machine.{
  link, mtime, ctime, atime, size, csize, nlink, type, user, group, prot, icase, name, uprot,
}
use prg_buildsh.File.Info.{type2string}

-- Which objects are live in a world: a new object is, and was not before, and objects stay live when
-- an object or a flag value is made.
pub record HasObjects (E : Apr) (live : ℕ → E.World → Bool) : Type 0 where
  pub fresh : (k : Kind) (w : E.World) → live (E.run (Call.newobject k) w).0 w ≡ false
  pub fresh_ref : (k : Kind) (w : E.World) → live (E.run (Call.newobject_ref k) w).0 w ≡ false
  pub created :
      (k : Kind) (w : E.World) → let (p, w') = E.run (Call.newobject k) w in live p w' ≡ true
  pub created_ref :
      (k : Kind) (w : E.World) → let (p, w') = E.run (Call.newobject_ref k) w in live p w' ≡ true
  pub kept :
      (k : Kind) (w : E.World) (q : ℕ)
      → live q w ≡ true
      → live q (E.run (Call.newobject k) w).1 ≡ true
  pub kept_ref :
      (k : Kind) (w : E.World) (q : ℕ)
      → live q w ≡ true
      → live q (E.run (Call.newobject_ref k) w).1 ≡ true
  pub kept_flag :
      (n : ℕ) (w : E.World) (q : ℕ)
      → live q w ≡ true
      → live q (E.run (Call.flag_new fperms n) w).1 ≡ true

module _ (E : Apr) (live : ℕ → E.World → Bool) where
  -- The value is a live object that the call has made, with the word n in its block.
  pub record Holds (made : E.World → ℕ) (n : ℕ) (v : Value) (u : State E.World) : Type 0 where
    pub address : ℕ
    pub before : E.World
    pub is_object : v ≡ userdata address
    pub is_made : made before ≡ address
    pub is_live : live address u.world ≡ true
    pub holds : u.block address ≡ n

  abbrev pub time_object : E.World → ℕ
  time_object w = (E.run (Call.newobject apr_time) w).0

  abbrev pub user_object : E.World → ℕ
  user_object w = (E.run (Call.newobject_ref apr_uid) w).0

  abbrev pub group_object : E.World → ℕ
  group_object w = (E.run (Call.newobject_ref apr_gid) w).0

  -- A value that stands for a valid field in the state u: of times, users and groups it is an object
  -- of this type that holds the field, and of the permissions what moon has made of them.
  abbrev pub Shows : Finfo → Field → Value → State E.World → Type 0
  Shows fi mtime v u = Holds time_object fi.mtime v u
  Shows fi ctime v u = Holds time_object fi.ctime v u
  Shows fi atime v u = Holds time_object fi.atime v u
  Shows fi user v u = Holds user_object fi.user v u
  Shows fi group v u = Holds group_object fi.group v u
  Shows fi size v u = v ≡ number fi.size
  Shows fi csize v u = v ≡ number fi.csize
  Shows fi nlink v u = v ≡ number fi.nlink
  Shows fi type v u = v ≡ string (type2string fi.filetype)
  Shows fi name v u = v ≡ elim fi.name [ some s ↦ string s | none ↦ boolean false ]
  Shows fi prot v u = (w : E.World) × (v ≡ (E.run (Call.flag_new fperms fi.protection) w).0)
  Shows fi _ v u = v ≡ boolean false

  -- What becomes of a field: it stays if it is not wanted, is false if it is wanted and not valid,
  -- and is shown if it is both.
  abbrev pub Filled : Mask → Finfo → Field → Value → Value → State E.World → Type 0
  Filled want fi f old new u =
      if want f then (if fi.valid f then Shows fi f new u else new ≡ boolean false) else new ≡ old

  -- What becomes of the entry under the name m.
  abbrev pub Entry :
      List (Text × Field) → Mask → Finfo → Text → Value → Value → State E.World → Type 0
  Entry [] want fi m old new u = new ≡ old
  Entry ((n, f) ∷ fs) want fi m old new u =
      if text_eq n m then Filled want fi f old new u else Entry fs want fi m old new u

  -- Live objects stay live, and their blocks as they are.
  abbrev pub Grows : State E.World → State E.World → Type 0
  Grows s u = (q : ℕ) → live q s.world ≡ true → (live q u.world ≡ true) × (u.block q ≡ s.block q)

  pub Grows-trans : (s u w : State E.World) → Grows s u → Grows u w → Grows s w
  Grows-trans s u w g h q l = let (l', b) = g q l in let (l'', b') = h q l' in (l'', b' ∙ b)

  pub Holds-Grows :
      (made : E.World → ℕ) (n : ℕ) (v : Value) (s u : State E.World)
      → Grows s u
      → Holds made n v s
      → Holds made n v u
  Holds-Grows made n v s u g h =
      let (l, b) = g h.address h.is_live in
      record {
        address = h.address;
        before = h.before;
        is_object = h.is_object;
        is_made = h.is_made;
        is_live = l;
        holds = b ∙ h.holds;
      }

  pub Shows-Grows :
      (fi : Finfo) (f : Field) (v : Value) (s u : State E.World)
      → Grows s u
      → Shows fi f v s
      → Shows fi f v u
  Shows-Grows fi mtime v s u g h = Holds-Grows time_object fi.mtime v s u g h
  Shows-Grows fi ctime v s u g h = Holds-Grows time_object fi.ctime v s u g h
  Shows-Grows fi atime v s u g h = Holds-Grows time_object fi.atime v s u g h
  Shows-Grows fi user v s u g h = Holds-Grows user_object fi.user v s u g h
  Shows-Grows fi group v s u g h = Holds-Grows group_object fi.group v s u g h
  Shows-Grows fi size v s u g h = h
  Shows-Grows fi csize v s u g h = h
  Shows-Grows fi nlink v s u g h = h
  Shows-Grows fi type v s u g h = h
  Shows-Grows fi name v s u g h = h
  Shows-Grows fi prot v s u g h = h
  Shows-Grows fi link v s u g h = h
  Shows-Grows fi icase v s u g h = h
  Shows-Grows fi uprot v s u g h = h

  pub Filled-Grows :
      (want : Mask) (fi : Finfo) (f : Field) (old new : Value) (s u : State E.World)
      → Grows s u
      → Filled want fi f old new s
      → Filled want fi f old new u
  Filled-Grows want fi f old new s u g h = elim (Bool-cases (want f)) [
    | inr unwanted ↦ rw unwanted (rw unwanted at h)
    | inl wanted ↦ elim (Bool-cases (fi.valid f)) [
      | inr invalid ↦ rw (wanted, invalid) (rw (wanted, invalid) at h)
      | inl valid ↦ rw (wanted, valid) (Shows-Grows fi f new s u g (rw (wanted, valid) at h))
    ]
  ]

  pub Entry-Grows :
      (fs : List (Text × Field)) (want : Mask) (fi : Finfo) (m : Text) (old new : Value)
      (s u : State E.World)
      → Grows s u
      → Entry fs want fi m old new s
      → Entry fs want fi m old new u
  Entry-Grows [] want fi m old new s u g h = h
  Entry-Grows ((n, f) ∷ fs) want fi m old new s u g h = elim (Bool-cases (text_eq n m)) [
    | inl same ↦ rw same (Filled-Grows want fi f old new s u g (rw same at h))
    | inr other ↦ rw other (Entry-Grows fs want fi m old new s u g (rw other at h))
  ]

-- ===== src/Machine/Values.antt =====
-- Lua values as the bindings see them, the kinds of userdata of src/ape.h, and the conversions that
-- the Lua API and the moon library make, which are parameters.
use prg_buildsh.Prelude.{
  ℕ, Bool, Option, none, some, Text, ℤ, pos, negsuc, ◌≡◌, ◌≤◌, ◌<◌, ◌^◌, List,
}

-- A table or a userdata is its address, and a C function what tells it from others. Numbers
-- are integers: the bindings pass no others on.
pub data Value : Type 0 where
  nil : Value
  boolean : Bool → Value
  number : ℤ → Value
  string : Text → Value
  table : ℕ → Value
  userdata : ℕ → Value
  cfunction : Text → Value
  other : ℕ → Value

-- The userdata types of ape.h, lines 36 to 44.
pub data Kind : Type 0 where
  apr_pool apr_file apr_dir apr_uid apr_gid apr_time apr_procattr apr_proc apr_crypto_hash : Kind

-- The flag types that `moon_flag.h` is instantiated at.
pub data FlagKind : Type 0 where
  fnmflags fpflags fattrs oflags fperms flock : FlagKind

-- The fields of an `apr_finfo_t`, one for each bit of a `wanted` mask.
pub data Field : Type 0 where
  link mtime ctime atime size csize nlink type user group prot icase name uprot : Field

-- A mask is the set of its bits: APR documents them as disjoint (`uprot` stands for the user's part
-- of `prot`, which only the search functions ask for).
abbrev pub Mask : Type 0
Mask = Field → Bool

pub data FileType : Type 0 where
  reg dir chr blk pipe lnk sock nofile unkfile : FileType

pub record Finfo : Type 0 where
  pub valid : Mask
  pub mtime : ℕ
  pub ctime : ℕ
  pub atime : ℕ
  pub size : ℤ
  pub csize : ℤ
  pub nlink : ℤ
  pub filetype : FileType
  pub user : ℕ
  pub group : ℕ
  pub protection : ℕ
  pub name : Option Text

-- A key of a Lua table: a string, a number, or a value of another type by its identity.
pub data Key : Type 0 where
  field : Text → Key
  index : ℕ → Key
  object : ℕ → Key

abbrev pub Table : Type 0
Table = Key → Value

-- The integers that a double holds exactly, up to 2 ^ 53 in size.
abbrev pub IsExact : ℤ → Type 0
IsExact (pos n) = n ≤ 2 ^ 53
IsExact (negsuc n) = n < 2 ^ 53

-- What the Lua API and moon decide about a value. Each function is a call of the C code, `none`
-- where that call would raise an argument error. An absent argument is `none` too.
pub record Lua : Type 0 where
  -- `lua_tolstring`: strings and numbers
  pub string_of : Value → Option Text
  -- `luaL_checknumber`: numbers and numerals
  pub number_of : Value → Option ℤ
  -- `moon_checkudata`: the address of the block
  pub udata_of : Kind → Value → Option ℕ
  -- `moon_flag_get_*`
  pub flag_of : FlagKind → Option Value → Option ℕ
  -- the cast of a number to `apr_size_t`, which C leaves open for a negative one
  pub size_of : ℤ → ℕ
  -- `moon_rawlen`, and the keys in the order of `lua_next`
  pub rawlen : Table → ℕ
  pub next_keys : Table → List Key
  -- `lua_next` behind the key on the stack, nil at first: `none` where it raises an error because
  -- the table has no such key, and no key at the end
  pub next : Table → Value → Option (Option Key)
  -- the cast of a 64-bit integer to `lua_Number`, and where a double is exact
  pub to_number : ℤ → ℤ
  pub to_number_exact : (n : ℤ) → IsExact n → to_number n ≡ n
  -- `luaL_getmetafield( L, i, "__name" )`
  pub name_of : Value → Option Value
  -- the string that `lua_tolstring` leaves for a string is that string
  pub string_of-string : (s : Text) → string_of (string s) ≡ some s
  pub string_of-nil : string_of nil ≡ none

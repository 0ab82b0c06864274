-- ===== src/Time.antt =====
-- Time values: src/ape_time.c. An `apr_time_t` is a signed 64-bit word, kept as its bit pattern;
-- sums and differences wrap.
pub mod Laws
use prg_buildsh.Prelude.{
  true, false, ℕ, ◌+◌, ◌-◌, ◌%◌, Bool, true, Option, none, some, List, [], ◌∷◌, ◌++◌, ltb, ◌==◌,
  if◌then◌else◌, Text, text, ℤ, pos, negsuc,
}
use prg_buildsh.Machine.{
  Value, boolean, number, string, userdata, apr_time, Lua, Call, Apr, M, pure, gets, when, ◌>>=◌,
  ◌>>◌, call, value_at, push, read_block, write_block, check_number, check_udata, count, ape_status,
}

abbrev pub word_mod : ℕ
word_mod = 18446744073709551616

abbrev pub half_mod : ℕ
half_mod = 9223372036854775808

-- The cast of a number to `apr_time_t`.
unfoldable pub word_of : ℤ → ℕ
word_of (pos n) = n % word_mod
word_of (negsuc n) = word_mod - 1 - n % word_mod

-- The number that a word stands for.
unfoldable pub signed : ℕ → ℤ
signed w = if ltb w half_mod then pos w else negsuc (word_mod - 1 - w)

unfoldable pub time_sum : ℕ → ℕ → ℕ
time_sum a b = (a + b) % word_mod

unfoldable pub time_difference : ℕ → ℕ → ℕ
time_difference a b = (a + word_mod - b) % word_mod

unfoldable ltb_ℤ : ℤ → ℤ → Bool
ltb_ℤ (pos m) (pos n) = ltb m n
ltb_ℤ (pos m) (negsuc n) = false
ltb_ℤ (negsuc m) (pos n) = true
ltb_ℤ (negsuc m) (negsuc n) = ltb n m

-- `<` on words compares the numbers that they stand for.
unfoldable pub time_before : ℕ → ℕ → Bool
unfolding signed ltb_ℤ
time_before a b = ltb_ℤ (signed a) (signed b)

-- `lua_type( L, i ) == LUA_TNUMBER`
abbrev number_at : Option Value → Option ℤ
number_at (some (number n)) = some n
number_at _ = none

module _ (E : Apr) where
  unfoldable pub ape_time_userdata : ℕ → M E.World (Unit {0})
  ape_time_userdata time = do
    p ← call E (Call.newobject apr_time)
    push (userdata p)
    write_block p time

module _ (L : Lua) (E : Apr) where
  abbrev check_time : ℕ → M E.World ℕ
  check_time i = do read_block (← check_udata L apr_time i)

  unfoldable pub ape_time_eq : M E.World ℕ
  ape_time_eq = do a ← check_time 1; b ← check_time 2; push (boolean (a == b)); pure 1

  unfoldable pub ape_time_lt : M E.World ℕ
  ape_time_lt = do a ← check_time 1; b ← check_time 2; push (boolean (time_before a b)); pure 1

  unfoldable pub ape_time_add : M E.World ℕ
  unfolding ape_time_userdata
  ape_time_add = do
    first ← gets (λ s. number_at (value_at 1 s))
    elim first [
      | some n ↦ (do b ← check_time 2; ape_time_userdata E (time_sum (word_of n) b); pure 1)
      | none ↦ (do
        a ← check_time 1
        n ← check_number L 2
        ape_time_userdata E (time_sum a (word_of n))
        pure 1)
    ]

  unfoldable pub ape_time_sub : M E.World ℕ
  unfolding ape_time_userdata
  ape_time_sub = do
    a ← check_time 1
    second ← gets (λ s. number_at (value_at 2 s))
    elim second [
      | some n ↦ (do ape_time_userdata E (time_difference a (word_of n)); pure 1)
      | none ↦ (do
        b ← check_time 2
        push (number (L.to_number (signed (time_difference a b))))
        pure 1)
    ]

  unfoldable pub ape_time_tostring : M E.World ℕ
  ape_time_tostring = do
    t ← check_time 1
    (rv, s) ← call E (Call.ctime t)
    push (string (if rv == 0 then s else text "[apr_time_t]: " ++ E.time_format t))
    pure 1

  unfoldable pub ape_rfc822_date : M E.World ℕ
  ape_rfc822_date = do
    t ← check_time 1
    (rv, s) ← call E (Call.rfc822_date t)
    when (rv == 0) (push (string s))
    ape_status E (count 1) rv

  unfoldable pub ape_ctime : M E.World ℕ
  ape_ctime = do
    t ← check_time 1
    (rv, s) ← call E (Call.ctime t)
    when (rv == 0) (push (string s))
    ape_status E (count 1) rv

  unfoldable pub ape_sleep : M E.World ℕ
  unfolding word_of
  ape_sleep = do t ← check_number L 1; call E (Call.sleep (word_of t)); push (boolean true); pure 1

  unfoldable pub ape_time_make : M E.World ℕ
  unfolding ape_time_userdata
  ape_time_make = do
    sec ← check_number L 1
    usec ← check_number L 2
    ape_time_userdata E (E.time_make sec usec)
    pure 1

  unfoldable pub ape_time_now : M E.World ℕ
  unfolding ape_time_userdata
  ape_time_now = do t ← call E Call.time_now; ape_time_userdata E t; pure 1

  unfoldable pub ape_time_metamethods : List (Text × M E.World ℕ)
  ape_time_metamethods =
      (text "__eq", ape_time_eq)
      ∷ (text "__lt", ape_time_lt)
      ∷ (text "__add", ape_time_add)
      ∷ (text "__sub", ape_time_sub)
      ∷ (text "__tostring", ape_time_tostring)
      ∷ []

  unfoldable pub ape_time_methods : List (Text × M E.World ℕ)
  ape_time_methods = (text "rfc822_date", ape_rfc822_date) ∷ (text "ctime", ape_ctime) ∷ []

  unfoldable pub ape_time_functions : List (Text × M E.World ℕ)
  ape_time_functions =
      (text "time_now", ape_time_now)
      ∷ (text "time_make", ape_time_make)
      ∷ (text "rfc822_date", ape_rfc822_date)
      ∷ (text "ctime", ape_ctime)
      ∷ (text "sleep", ape_sleep)
      ∷ []

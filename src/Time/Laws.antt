-- ===== src/Time/Laws.antt =====
-- The arithmetic and the order of time values.
use prg_buildsh.Prelude.{
  ltb, ◌+◌, ◌%◌, ◌&&◌, ◌||◌, not, ℕ, ◌<◌, ◌≡◌, ◌⊎◌, true, false, some, [], ◌∷◌, arith, ℤ, pos,
  negsuc,
}
use prg_buildsh.Machine.{
  IsExact, boolean, Untouched, number, userdata, apr_time, Lua, Call, Apr, ok, State, results,
  invoke,
}
use prg_buildsh.Time.{
  word_mod, word_of, signed, time_sum, time_difference, time_before, ape_time_add, ape_time_sub,
  ape_time_lt, half_mod,
}

difference_sum :
    (a b : ℕ)
    → a < word_mod
    → b < word_mod
    → time_sum b (word_of (signed (time_difference a b))) ≡ a
unfolding time_sum word_of signed time_difference
difference_sum a b ha hb = ground arith

-- Adding a number to a time and taking it away again gives the time back, also where the sum wraps.
pub time_sum_difference :
    (t : ℕ) (n : ℤ) → t < word_mod → time_difference (time_sum t (word_of n)) (word_of n) ≡ t
unfolding time_sum time_difference word_of
time_sum_difference t (pos n) h = omega arith
time_sum_difference t (negsuc n) h = omega arith

before_irrefl : (a : ℕ) → time_before a a ≡ false
unfolding time_before
before_irrefl a = ground arith

before_total :
    (a b : ℕ)
    → a < word_mod
    → b < word_mod
    → (time_before a b ≡ true) ⊎ (a ≡ b) ⊎ (time_before b a ≡ true)
unfolding time_before
before_total a b ha hb = ground arith

before_trans :
    (a b c : ℕ)
    → a < word_mod
    → b < word_mod
    → c < word_mod
    → time_before a b ≡ true
    → time_before b c ≡ true
    → time_before a c ≡ true
unfolding time_before
before_trans a b c ha hb hc h k = ground arith

-- The order of `__lt` on 64-bit words a, b and c is strict and total: no time is before itself, of
-- two different times one is before the other, and a is before c if it is before b and b before c.
pub time_before_order :
    (a b c : ℕ)
    → a < word_mod
    → b < word_mod
    → c < word_mod
    → (time_before a a ≡ false)
      × ((time_before a b ≡ true) ⊎ (a ≡ b) ⊎ (time_before b a ≡ true))
      × ((not (time_before a b && time_before b c) || time_before a c) ≡ true)
time_before_order a b c ha hb hc =
    (before_irrefl a, before_total a b ha hb, ground (arith, before_trans a b c ha hb hc))

before_biased :
    (a b : ℕ)
    → a < word_mod
    → b < word_mod
    → time_before a b ≡ ltb ((a + half_mod) % word_mod) ((b + half_mod) % word_mod)
unfolding time_before
before_biased a b ha hb = ground arith

-- `__lt` on two time objects returns whether the time of the first one is the smaller one of the two
-- as signed 64-bit numbers, which are in the order of the numbers 2 ^ 63 above them, modulo 2 ^ 64.
-- Nothing changes.
pub time_lt-results :
    (L : Lua) (E : Apr) (s : State E.World) {v w : ℕ} {p q : ℕ}
    → L.udata_of apr_time (userdata v) ≡ some p
    → L.udata_of apr_time (userdata w) ≡ some q
    → s.block p < word_mod
    → s.block q < word_mod
    → let (r, t) = invoke (ape_time_lt L E) (userdata v ∷ userdata w ∷ []) s in
      let earlier = ltb ((s.block p + half_mod) % word_mod) ((s.block q + half_mod) % word_mod) in
      (r ≡ ok 1) × (results 1 t ≡ boolean earlier ∷ []) × Untouched s t
unfolding ape_time_lt
time_lt-results L E s {v} {w} {p} {q} hv hw bp bq =
    let e = before_biased (s.block p) (s.block q) bp bq in
    (ground arith, ground (arith, e), (ground arith, ground arith, ground arith, ground arith))

-- The difference of two time objects, where a double holds it exactly, added to the second one,
-- makes a new time object that holds the time of the first.
pub difference_added_back :
    (L : Lua) (E : Apr) (s : State E.World) {v w : ℕ} {p q : ℕ}
    → L.udata_of apr_time (userdata v) ≡ some p
    → L.udata_of apr_time (userdata w) ≡ some q
    → ((n : ℤ) → L.number_of (number n) ≡ some n)
    → s.block p < word_mod
    → s.block q < word_mod
    → IsExact (signed (time_difference (s.block p) (s.block q)))
    → let n = signed (time_difference (s.block p) (s.block q)) in
      let (made, _) = E.run (Call.newobject apr_time) s.world in
      let (r, t) = invoke (ape_time_sub L E) (userdata v ∷ userdata w ∷ []) s in
      let (r', t') = invoke (ape_time_add L E) (userdata w ∷ number n ∷ []) t in
      (r ≡ ok 1)
      × (results 1 t ≡ number n ∷ [])
      × (r' ≡ ok 1)
      × (results 1 t' ≡ userdata made ∷ [])
      × (t'.block made ≡ s.block p)
unfolding ape_time_sub ape_time_add
difference_added_back L E s {v} {w} {p} {q} hv hw num bp bq exact = ground (
  L.to_number_exact (signed (time_difference (s.block p) (s.block q))) exact,
  arith,
  num (signed (time_difference (s.block p) (s.block q))),
  difference_sum (s.block p) (s.block q),
)

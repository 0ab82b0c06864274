-- ===== src/Errno/Laws.antt =====
-- What the status tests return, and under which names they are registered.
use mathlib.Core.List.{reverse_aux}
use prg_buildsh.Prelude.{
  text_eq_sym, text_eq_refl, ℕ, zero, suc, ◌≡◌, refl, ap, ◌∙◌, Bool, true, false, not, ◌&&◌, Option,
  none, some, List, [], ◌∷◌, ◌++◌, reverse, arith, if◌then◌else◌, get_elem?, take, Text, text,
  text_eq, ℤ,
}
use prg_buildsh.Machine.{Value, Lua, ok, State, results, is_listed, invoke}
use prg_buildsh.Errno.{
  Macros, apr_error_tests, apr_status_tests, os_error_tests, network_error_tests, registered_tests,
  ape_status_is, register, ape_errno_functions,
}

-- The function that a table of functions holds under a name.
abbrev pub find : {F : Type 0} → Text → List (Text × F) → Option F
find n [] = none
find n ((m, f) ∷ fs) = if text_eq n m then some f else find n fs

abbrev pub distinct : List Text → Bool
distinct [] = true
distinct (t ∷ ts) = not (is_listed ts t) && distinct ts

abbrev pub last : {A : Type 0} → A → List A → A
last a [] = a
last a (b ∷ bs) = last b bs

-- The tests for which the file uses the macro DEF, in order.
abbrev pub compiled_tests : List Text
compiled_tests = apr_error_tests ++ (apr_status_tests ++ (os_error_tests ++ network_error_tests))

-- Every test that is compiled is registered, in the same order, and no other.
registered_tests-defined : registered_tests ≡ compiled_tests
registered_tests-defined = refl

distinct_tests : distinct registered_tests ≡ true
distinct_tests = refl

not_listed :
    (es : List Text) (i : ℕ) (a e : Text)
    → get_elem? es i ≡ some e
    → is_listed es a ≡ false
    → text_eq e a ≡ false
not_listed [] i a e at none_is = absurd (cc)
not_listed (b ∷ es) zero a e at none_is = ground arith
not_listed (b ∷ es) (suc i) a e at none_is = ground (arith, not_listed es i a e at)

take-reverse_aux :
    (v : Value) (rest acc : List Value) → take 1 (reverse_aux rest (v ∷ acc)) ≡ last v rest ∷ []
take-reverse_aux v [] acc = refl
take-reverse_aux v (b ∷ bs) acc = take-reverse_aux b bs (v ∷ acc)

module _ (L : Lua) (X : Macros) (W : Type 0) where
  find-register_absent :
      (es : List Text) (e : Text)
      → is_listed es e ≡ false
      → find (text "is_" ++ e) (register L X {W = W} es) ≡ none
  unfolding register
  find-register_absent [] e h = refl
  find-register_absent (a ∷ es) e h = ground (arith, text_eq_sym a e, find-register_absent es e)

  find-register :
      (es : List Text) (i : ℕ) (e : Text)
      → get_elem? es i ≡ some e
      → distinct es ≡ true
      → find (text "is_" ++ e) (register L X {W = W} es)
        ≡ (if X.defined e then some (ape_status_is L X e) else none)
  unfolding register
  find-register [] i e at d = absurd (cc)
  find-register (a ∷ es) zero e at d = ground (arith, text_eq_refl a, find-register_absent es e)
  find-register (a ∷ es) (suc i) e at d =
      ground (arith, not_listed es i a e at, find-register es i e at)

  -- For each test X that the file compiles, the module has the test of X under the name is_X where
  -- APR defines its macro, and nothing under that name where APR does not define it.
  pub ape_errno_functions-find :
      (i : ℕ) (e : Text)
      → get_elem? compiled_tests i ≡ some e
      → find (text "is_" ++ e) (ape_errno_functions L X {W = W})
        ≡ (if X.defined e then some (ape_status_is L X e) else none)
  unfolding ape_errno_functions
  ape_errno_functions-find i e at =
      find-register registered_tests i e (ap (λ es. get_elem? es i) registered_tests-defined ∙ at)
        distinct_tests

  ape_status_is_run :
      (e : Text) (v : Value) (rest : List Value) (status : ℤ) (s : State W)
      → L.number_of v ≡ some status
      → invoke (ape_status_is L X e) (v ∷ rest) s
        ≡ (ok (if X.status_is e status then 1 else 0), record s { args = v ∷ rest; pushed = [] })
  unfolding ape_status_is
  ape_status_is_run e v rest status s h = ground arith

  results_last :
      (b : Bool) (v : Value) (rest : List Value)
      → reverse (take (if b then 1 else 0) (reverse (v ∷ rest)))
        ≡ (if b then last v rest ∷ [] else [])
  results_last true v rest = ap reverse (take-reverse_aux v rest [])
  results_last false v rest = refl

  -- A test called with a status, and perhaps with further arguments, returns its last argument if
  -- the macro holds of the status, and nothing if not.
  pub ape_status_is-results :
      (e : Text) (v : Value) (rest : List Value) (status : ℤ) (s : State W)
      → L.number_of v ≡ some status
      → let (r, t) = invoke (ape_status_is L X e) (v ∷ rest) s in
        (r ≡ ok (if X.status_is e status then 1 else 0))
        × (results (if X.status_is e status then 1 else 0) t
            ≡ (if X.status_is e status then last v rest ∷ [] else []))
  ape_status_is-results e v rest status s h =
      rw (ape_status_is_run e v rest status s h) (refl, results_last (X.status_is e status) v rest)

-- ===== src/Extra/Find.antt =====
-- What `find_file` finds, in a file system that does not change during the search.
use mathlib.Core.Path.{subst}
use prg_buildsh.Prelude.{
  none, length-append, arith, ◌-◌, ℕ, ◌+◌, ◌-◌, ◌≡◌, refl, sym, ◌∙◌, inl, inr, true, false, ◌&&◌,
  some, List, [], ◌∷◌, ◌++◌, map, arith, ◌==◌, if◌then◌else◌, Bool-cases, length, get_elem?, Text,
  c_string,
}
use prg_buildsh.Machine.{
  userdata, apr_pool, invoke, Value, nil, string, Finfo, Lua, Call, Status, Apr, Result, ok, raised,
  State, M, results, failure, count, ape_status,
}
use prg_buildsh.Machine.{type, uprot}
use prg_buildsh.Extra.Search.{
  is_regular, search_mask, check_read, find_file_loop, trailing_pool, ape_extra_find_file,
}
use prg_buildsh.Extra.Candidates.{
  IsSuitable, IsAbsent, no_entry, unsuitable, IsFault, error, incomplete,
}
use prg_buildsh.Extra.Suffix.{length-map_string, get_elem?-append, position, next_index, next_args}

module _ (E : Apr) where
  -- The results of a search for names, in order: the first name that is no absent file decides, and
  -- without one the result is nil.
  pub data Finds (fs : Text → Status × Finfo) : List Text → List Value → Type 0 where
    nothing : Finds fs [] (nil ∷ [])
    found :
        {name : Text} {names : List Text}
        → IsSuitable E E.may_read (fs (c_string name))
        → Finds fs (name ∷ names) (string (c_string name) ∷ [])
    failed_at :
        {name : Text} {names : List Text} {rv : Status}
        → IsFault E (fs (c_string name)) rv
        → Finds fs (name ∷ names) (failure E rv)
    passed :
        {name : Text} {names : List Text} {out : List Value}
        → IsAbsent E E.may_read (fs (c_string name))
        → Finds fs names out
        → Finds fs (name ∷ names) out

  module _ (path : Text) (h : ℕ) (s : State E.World) where
    abbrev answer : Status × Finfo
    answer = (E.run (Call.stat path search_mask h) s.world).0

    abbrev after : State E.World
    after = record s {
      world = (E.run (Call.stat path search_mask h) s.world).1;
      trace = Call.stat path search_mask h ∷ s.trace;
    }

    -- How the check of one path ends.
    data Checked : Result Status × State E.World → Type 0 where
      readable :
          IsSuitable E E.may_read answer
          → Checked (ok 0, record after { pushed = string path ∷ s.pushed })
      absent :
          {rv : Status}
          → IsAbsent E E.may_read answer
          → E.is_enoent rv ≡ true
          → Checked (ok rv, after)
      fault :
          {rv : Status}
          → IsFault E answer rv
          → E.is_enoent rv ≡ false
          → (rv == 0) ≡ false
          → Checked (ok rv, after)

    check_read-Checked : Checked (check_read E path h s)
    unfolding check_read
    check_read-Checked = elim (Bool-cases (answer.0 == 0)) [
      | inl fine ↦ elim (Bool-cases (answer.1.valid uprot && answer.1.valid type)) [
        | inl known ↦
            elim (Bool-cases (is_regular answer.1.filetype && E.may_read answer.1.protection)) [
              | inl yes_read ↦
                  let e : check_read E path h s
                      ≡ (ok 0, record after { pushed = string path ∷ s.pushed }) =
                    ground arith in
                  subst Checked (sym e) (readable (ground arith))
              | inr not_read ↦
                  let e : check_read E path h s ≡ (ok E.enoent, after) = ground arith in
                  subst Checked (sym e) (
                    absent (unsuitable fine (ground arith) (ground arith) not_read)
                      E.is_enoent-enoent)
            ]
        | inr unknown ↦
            let e : check_read E path h s ≡ (ok E.egeneral, after) = ground arith in
            subst Checked (sym e)
              (fault (incomplete fine unknown) E.is_enoent-egeneral E.egeneral_ne)
      ]
      | inr bad ↦
          let e : check_read E path h s ≡ (ok answer.0, after) = ground arith in
          elim (Bool-cases (E.is_enoent answer.0)) [
            | inl gone ↦ subst Checked (sym e) (absent (no_entry gone) gone)
            | inr other ↦ subst Checked (sym e) (fault (error bad other) other bad)
          ]
    ]

pub last_position :
    (names : List Text) (q : ℕ)
    → length (map string names ++ (userdata q ∷ [])) - 1 ≡ length (map string names)
last_position names q = omega (arith, length-append (map string names) (userdata q ∷ []))

module _ (L : Lua) (E : Apr) (h : ℕ) (fs : Text → Status × Finfo) where
  -- The search through the names that end the arguments, the first of them at index i.
  abbrev pub Searched : List Text → State E.World → Result ℕ × State E.World → Type 0
  Searched names s (ok n, t) =
      (t.block ≡ s.block) × (t.tables ≡ s.tables) × Finds E fs names (results n t)
  Searched names s (raised e, t) = ⊥

  passed_on :
      (x : Text) (xs : List Text) (s t : State E.World) (r : Result ℕ × State E.World)
      → t.block ≡ s.block
      → t.tables ≡ s.tables
      → IsAbsent E E.may_read (fs (c_string x))
      → Searched xs t r
      → Searched (x ∷ xs) s r
  passed_on x xs s t (ok n, u) b tb ab ih = (ih.0 ∙ b, ih.1 ∙ tb, passed ab ih.2)
  passed_on x xs s t (raised e, u) b tb ab ih = ih

  -- What the loop does with the status of a check.
  abbrev go_on : M E.World ℕ → Result Status × State E.World → Result ℕ × State E.World
  go_on rest (ok rv, t) = (if E.is_enoent rv then rest else ape_status E (count 1) rv) t
  go_on rest (raised e, t) = (raised e, t)

  round :
      (x : Text) (xs : List Text) (s : State E.World) (rest : M E.World ℕ)
      → answer E (c_string x) h s ≡ fs (c_string x)
      → Searched xs (after E (c_string x) h s) (rest (after E (c_string x) h s))
      → (r : Result Status × State E.World) → Checked E (c_string x) h s r
      → Searched (x ∷ xs) s (go_on rest r)
  unfolding ape_status
  round x xs s rest same ih _ (readable good) =
      rw E.is_enoent-success (refl, refl, found (subst (IsSuitable E E.may_read) same good))
  round x xs s rest same ih _ (absent ab gone) = rw gone (
      passed_on x xs s (after E (c_string x) h s) (rest (after E (c_string x) h s)) refl refl
        (subst (IsAbsent E E.may_read) same ab) ih)
  round x xs s rest same ih _ (fault {rv} bad other err) =
      rw (other, err) (refl, refl, failed_at (subst (λ a. IsFault E a rv) same bad))

  loop_step :
      (tail pre : List Value) (x : Text) (xs : List Text) (s : State E.World)
      → s.args ≡ pre ++ (map string (x ∷ xs) ++ tail)
      → find_file_loop L E h (length pre + 1) (length (x ∷ xs)) s
        ≡ go_on
            (find_file_loop L E h (length pre + 1 + 1) (length xs))
            (check_read E (c_string x) h s)
  unfolding find_file_loop
  loop_step tail pre x xs s e =
      let a : get_elem? s.args (length pre + 1 - 1) ≡ some (string x) =
        rw (e, position (length pre)) (get_elem?-append pre (string x) (map string xs ++ tail)) in
      ground (arith, a, L.string_of-string x)

  find_file_loop-Searched :
      (frozen : (path : Text) (w : E.World) → (E.run (Call.stat path search_mask h) w).0 ≡ fs path)
      (tail pre : List Value) (names : List Text) (s : State E.World)
      → s.args ≡ pre ++ (map string names ++ tail)
      → Searched names s (find_file_loop L E h (length pre + 1) (length names) s)
  find_file_loop-Searched frozen tail pre [] s e = unfold find_file_loop in (refl, refl, nothing)
  find_file_loop-Searched frozen tail pre (x ∷ xs) s e =
      let u = after E (c_string x) h s in
      let ih : Searched xs u (find_file_loop L E h (length pre + 1 + 1) (length xs) u) =
        rw (next_index pre x) at (
          find_file_loop-Searched frozen tail (pre ++ (string x ∷ [])) xs u
            (next_args pre (string x) (map string xs ++ tail) s e)) in
      subst (Searched (x ∷ xs) s) (sym (loop_step tail pre x xs s e)) (
        round x xs s (find_file_loop L E h (length pre + 1 + 1) (length xs))
          (frozen (c_string x) s.world) ih (check_read E (c_string x) h s)
          (check_read-Checked E (c_string x) h s))

  -- `find_file` on names and a pool, in a file system that answers `apr_stat` alike at all times:
  -- the results are those of the first name that is no absent file, or nil; no memory changes.
  pub find_file_finds :
      (frozen : (path : Text) (w : E.World) → (E.run (Call.stat path search_mask h) w).0 ≡ fs path)
      (names : List Text) (q : ℕ) {p : ℕ} (s : State E.World)
      → L.udata_of apr_pool (userdata q) ≡ some p
      → L.string_of (userdata q) ≡ none
      → s.block p ≡ h
      → Searched names s
          (invoke (ape_extra_find_file L E) (map string names ++ (userdata q ∷ [])) s)
  unfolding ape_extra_find_file trailing_pool
  find_file_finds frozen names q {p} s pool no_string at =
      let args = map string names ++ (userdata q ∷ []) in
      let t : State E.World = record s { args = args; pushed = [] } in
      let n : length args ≡ length names + 1 =
        omega
          (arith, length-append (map string names) (userdata q ∷ []), length-map_string names) in
      let l : get_elem? args (length args - 1) ≡ some (userdata q) =
        rw (last_position names q) (get_elem?-append (map string names) (userdata q) []) in
      let e : ape_extra_find_file L E t ≡ find_file_loop L E h 1 (length names) t =
        ground (arith, n, l, no_string, pool, at) in
      subst (Searched names s) (sym e)
        (find_file_loop-Searched frozen (userdata q ∷ []) [] names t refl)

-- ===== src/Proc/Found.antt =====
-- The search for a process ID among the process objects of a table: src/ape_proc.c,
-- ape_proc_wait_all_procs.
use prg_buildsh.Prelude.{
  ℕ, zero, suc, ◌+◌, ◌<◌, ◌≡◌, refl, ap, ◌∙◌, inl, inr, Bool, true, false, Option, none, some,
  arith, ◌==◌, if◌then◌else◌, Bool-cases,
}
use prg_buildsh.Machine.{Value, apr_proc, index, Table, Lua}
use prg_buildsh.Proc.Wait.{find_proc}

module _ (L : Lua) (block : ℕ → ℕ) (tab : Table) (pid : ℕ) where
  -- The value is a process object with the process ID.
  abbrev pub has_pid : Value → Bool
  has_pid v = elim (L.udata_of apr_proc v) [ none ↦ false | some p ↦ block p == pid ]

  -- A value that was found is the first one of the n elements from i on that is a process object
  -- with the process ID; if none was found there is none.
  abbrev pub IsFirst : ℕ → ℕ → Option Value → Type 0
  IsFirst i n none = (j : ℕ) → j < n → has_pid (tab (index (i + j))) ≡ false
  IsFirst i n (some v) =
      (j : ℕ) × (j < n)
      × (tab (index (i + j)) ≡ v)
      × (has_pid v ≡ true)
      × ((k : ℕ) → k < j → has_pid (tab (index (i + k))) ≡ false)

  find_proc-suc :
      (i n : ℕ)
      → find_proc L block tab pid i (suc n) ≡ (
          if has_pid (tab (index i))
          then some (tab (index i))
          else find_proc L block tab pid (i + 1) n)
  unfolding find_proc
  find_proc-suc i n =
      let here = some (tab (index i)) in
      let rest = find_proc L block tab pid (i + 1) n in
      elim (L.udata_of apr_proc (tab (index i)))
        as (λ o.
          (elim o [ none ↦ rest | some p ↦ if block p == pid then here else rest ])
          ≡ (if (elim o [ none ↦ false | some p ↦ block p == pid ]) then here else rest)) [
            | none ↦ refl
            | some p ↦ refl
          ]

  shift_before :
      (i n : ℕ)
      → has_pid (tab (index i)) ≡ false
      → ((j : ℕ) → j < n → has_pid (tab (index (i + 1 + j))) ≡ false)
      → (j : ℕ) → j < suc n
      → has_pid (tab (index (i + j))) ≡ false
  shift_before i n h rest zero lt = ap (λ m. has_pid (tab (index m))) (omega arith) ∙ h
  shift_before i n h rest (suc j) lt =
      ap (λ m. has_pid (tab (index m))) (omega arith) ∙ rest j (omega arith)

  shift-IsFirst :
      (i n : ℕ) (o : Option Value)
      → has_pid (tab (index i)) ≡ false
      → IsFirst (i + 1) n o
      → IsFirst i (suc n) o
  shift-IsFirst i n none h r = shift_before i n h r
  shift-IsFirst i n (some v) h (j, lt, at, has, before) = (
    suc j,
    omega arith,
    ap (λ m. tab (index m)) (omega arith) ∙ at,
    has,
    shift_before i j h before,
  )

  -- The search finds the first process object with the process ID among the n elements from i on,
  -- and finds nothing only if there is none.
  pub find_proc-IsFirst : (i n : ℕ) → IsFirst i n (find_proc L block tab pid i n)
  unfolding find_proc
  find_proc-IsFirst i zero = λ j lt. absurd (omega arith)
  find_proc-IsFirst i (suc n) = elim (Bool-cases (has_pid (tab (index i)))) [
    | inl here ↦ rw (find_proc-suc i n) (
        rw here (
          0,
          omega arith,
          ap (λ m. tab (index m)) (omega arith),
          here,
          λ k lt. absurd (omega arith),
        ))
    | inr not_here ↦ rw (find_proc-suc i n) (
        rw not_here (
          shift-IsFirst i n (find_proc L block tab pid (i + 1) n) not_here
            (find_proc-IsFirst (i + 1) n)))
  ]

-- ===== src/Extra/Located.antt =====
-- What a search for an executable file says of a name, where neither the file system nor the path
-- names change meanwhile: src/ape_extra.c.
use mathlib.Core.Path.{subst}
use prg_buildsh.Prelude.{
  ℕ, ◌≡◌, refl, sym, inl, inr, true, false, ◌&&◌, Option, none, some, List, [], ◌∷◌, arith, ◌==◌,
  Bool-cases, Text,
}
use prg_buildsh.Machine.{string, Finfo, Call, Status, Apr, Result, ok, raised, State}
use prg_buildsh.Machine.{type, uprot}
use prg_buildsh.Extra.Search.{is_regular, search_mask, check_exec}
use prg_buildsh.Extra.Candidates.{
  IsSuitable, IsAbsent, no_entry, unsuitable, IsFault, error, incomplete,
}

-- The outcome of a search for one name.
pub data Where : Type 0 where
  at : Text → Where
  nowhere : Where
  broken : Status → Where

module _ (E : Apr) (fs : Text → Status × Finfo) where
  -- A path by itself.
  pub data Direct (path : Text) : Where → Type 0 where
    executable : IsSuitable E E.may_execute (fs path) → Direct path (at path)
    absent : IsAbsent E E.may_execute (fs path) → Direct path nowhere
    fault : {rv : Status} → IsFault E (fs path) rv → Direct path (broken rv)

  -- A name in the directories of the search path: the first one decides in which the path of the
  -- name cannot be made, or has been found executable or faulty.
  pub data InPath (merge : Text → Text → Status × Option Text) (name : Text)
      : List Text → Where → Type 0 where
    no_more : InPath merge name [] nowhere
    unmerged_absent :
        {dir : Text} {dirs : List Text}
        → ((merge dir name).0 == 0) ≡ false
        → E.is_enoent (merge dir name).0 ≡ true
        → InPath merge name (dir ∷ dirs) nowhere
    unmerged :
        {dir : Text} {dirs : List Text}
        → ((merge dir name).0 == 0) ≡ false
        → E.is_enoent (merge dir name).0 ≡ false
        → InPath merge name (dir ∷ dirs) (broken (merge dir name).0)
    no_path :
        {dir : Text} {dirs : List Text}
        → ((merge dir name).0 == 0) ≡ true
        → (merge dir name).1 ≡ none
        → InPath merge name (dir ∷ dirs) (broken E.egeneral)
    here :
        {dir path : Text} {dirs : List Text}
        → ((merge dir name).0 == 0) ≡ true
        → (merge dir name).1 ≡ some path
        → IsSuitable E E.may_execute (fs path)
        → InPath merge name (dir ∷ dirs) (at path)
    faulty :
        {dir path : Text} {dirs : List Text} {rv : Status}
        → ((merge dir name).0 == 0) ≡ true
        → (merge dir name).1 ≡ some path
        → IsFault E (fs path) rv
        → InPath merge name (dir ∷ dirs) (broken rv)
    further :
        {dir path : Text} {dirs : List Text} {r : Where}
        → ((merge dir name).0 == 0) ≡ true
        → (merge dir name).1 ≡ some path
        → IsAbsent E E.may_execute (fs path)
        → InPath merge name dirs r
        → InPath merge name (dir ∷ dirs) r

module _ (E : Apr) (name : Text) (s : State E.World) where
  -- What the check of a name returns and pushes on the stack of s, by the outcome of the search for it.
  pub data Verdict (Located : Where → Type 0) (rv : Status) (u : State E.World) : Type 0 where
    hit :
        {path : Text}
        → Located (at path)
        → rv ≡ 0
        → u.pushed ≡ string path ∷ string name ∷ s.pushed
        → Verdict Located rv u
    miss : Located nowhere → E.is_enoent rv ≡ true → u.pushed ≡ s.pushed → Verdict Located rv u
    bad :
        Located (broken rv)
        → E.is_enoent rv ≡ false
        → (rv == 0) ≡ false
        → u.pushed ≡ s.pushed
        → Verdict Located rv u

  abbrev pub Looks : (Where → Type 0) → Result Status × State E.World → Type 0
  Looks Located (ok rv, u) =
      (u.args ≡ s.args) × (u.block ≡ s.block) × (u.tables ≡ s.tables) × Verdict Located rv u
  Looks Located (raised e, u) = ⊥

module _ (E : Apr) (fs : Text → Status × Finfo) (h : ℕ)
    (frozen : (path : Text) (w : E.World)
      → (E.run (Call.stat path search_mask h) w).0 ≡ fs path) where
  pub check_exec-Looks :
      (name path : Text) (s : State E.World)
      → Looks E name s (Direct E fs path) (check_exec E name path h s)
  unfolding check_exec
  check_exec-Looks name path s =
      let a = (E.run (Call.stat path search_mask h) s.world).0 in
      let u : State E.World = record s {
        world = (E.run (Call.stat path search_mask h) s.world).1;
        trace = Call.stat path search_mask h ∷ s.trace;
      } in
      let same : a ≡ fs path = frozen path s.world in
      elim (Bool-cases (a.0 == 0)) [
        | inl fine ↦ elim (Bool-cases (a.1.valid uprot && a.1.valid type)) [
          | inl known ↦
              elim (Bool-cases (is_regular a.1.filetype && E.may_execute a.1.protection)) [
                | inl usable ↦
                    let e : check_exec E name path h s
                        ≡ (ok 0, record u { pushed = string path ∷ string name ∷ s.pushed }) =
                      ground arith in
                    subst (Looks E name s (Direct E fs path)) (sym e) (
                      refl,
                      refl,
                      refl,
                      hit (executable (subst (IsSuitable E E.may_execute) same (ground arith))) refl
                          refl,
                    )
                | inr unusable ↦
                    let e : check_exec E name path h s ≡ (ok E.enoent, u) = ground arith in
                    subst (Looks E name s (Direct E fs path)) (sym e) (
                      refl,
                      refl,
                      refl,
                      miss
                          (absent (
                            subst (IsAbsent E E.may_execute) same
                              (unsuitable fine (ground arith) (ground arith) unusable)))
                          E.is_enoent-enoent refl,
                    )
              ]
          | inr unknown ↦
              let e : check_exec E name path h s ≡ (ok E.egeneral, u) = ground arith in
              subst (Looks E name s (Direct E fs path)) (sym e) (
                refl,
                refl,
                refl,
                bad (fault (subst (λ z. IsFault E z E.egeneral) same (incomplete fine unknown)))
                    E.is_enoent-egeneral E.egeneral_ne refl,
              )
        ]
        | inr ill ↦
            let e : check_exec E name path h s ≡ (ok a.0, u) = ground arith in
            elim (Bool-cases (E.is_enoent a.0)) [
              | inl gone ↦ subst (Looks E name s (Direct E fs path)) (sym e) (
                refl,
                refl,
                refl,
                miss (absent (subst (IsAbsent E E.may_execute) same (no_entry gone))) gone refl,
              )
              | inr other ↦ subst (Looks E name s (Direct E fs path)) (sym e) (
                refl,
                refl,
                refl,
                bad (fault (subst (λ z. IsFault E z a.0) same (error ill other))) other ill refl,
              )
            ]
      ]

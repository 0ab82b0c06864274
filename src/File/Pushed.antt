-- ===== src/File/Pushed.antt =====
-- What the macro calls in finfo2table of src/ape_file.c push.
use mathlib.Core.Bool.{true≢false}
use prg_buildsh.Prelude.{
  ℕ, ◌≡◌, refl, sym, ap, ◌∙◌, inl, inr, Bool, true, false, List, ◌∷◌, arith, ◌==◌, if◌then◌else◌,
  Bool-cases,
}
use prg_buildsh.Machine.{
  Value, userdata, apr_uid, apr_gid, apr_time, Field, Finfo, Call, Apr, Result, ok, State,
}
use prg_buildsh.Machine.{
  link, mtime, ctime, atime, size, csize, nlink, type, user, group, prot, icase, name, uprot,
}
use prg_buildsh.Time.{ape_time_userdata}
use prg_buildsh.User.{ape_uid_userdata, ape_gid_userdata}
use prg_buildsh.File.Info.{push_value}
use prg_buildsh.File.Shown.{HasObjects, Holds, time_object, user_object, group_object, Shows, Grows}

module _ (E : Apr) (live : ℕ → E.World → Bool) (objects : HasObjects E live) (fi : Finfo) where
  -- An object lies where none was live.
  apart_lem : (p q : ℕ) (w : E.World) → live p w ≡ false → live q w ≡ true → (p == q) ≡ false
  apart_lem p q w no_p is_q = elim (Bool-cases (p == q)) [
    | inr differ ↦ differ
    | inl same ↦
        absurd
          (true≢false (sym is_q ∙ ap (λ x. live x w) {x = q} {y = p} (ground (arith, same)) ∙ no_p))
  ]

  same_number : (n : ℕ) → (n == n) ≡ true
  same_number n = ground arith

  -- A value has been pushed, and of the memory in use nothing but the stack has changed.
  abbrev pub Pushes : Value → State E.World → Result (Unit {0}) × State E.World → Type 0
  Pushes v s (r, u) =
      (r ≡ ok tt)
      × (u.args ≡ s.args)
      × (u.pushed ≡ v ∷ s.pushed)
      × (u.tables ≡ s.tables)
      × Grows E live s u

  -- A new object with a word in its block.
  abbrev with_object : ℕ → E.World → ℕ → List Call → State E.World → State E.World
  with_object p w n trace s = record s {
    pushed = userdata p ∷ s.pushed;
    block = λ q. if p == q then n else s.block q;
    world = w;
    trace = trace;
  }

  object-Holds :
      (made : E.World → ℕ) (n : ℕ) (w : E.World) (trace : List Call) (s : State E.World)
      → live (made s.world) w ≡ true
      → Holds E live made n (userdata (made s.world)) (with_object (made s.world) w n trace s)
  object-Holds made n w trace s l = record {
    address = made s.world;
    before = s.world;
    is_object = refl;
    is_made = refl;
    is_live = l;
    holds = rw (same_number (made s.world)) refl;
  }

  object-Grows :
      (p n : ℕ) (w : E.World) (trace : List Call) (s : State E.World)
      → live p s.world ≡ false
      → ((q : ℕ) → live q s.world ≡ true → live q w ≡ true)
      → Grows E live s (with_object p w n trace s)
  object-Grows p n w trace s no_p stays q l = (stays q l, rw (apart_lem p q s.world no_p l) refl)

  push_time-Holds :
      (n : ℕ) (s : State E.World)
      → (v : Value) × Holds E live (time_object E live) n v (ape_time_userdata E n s).1
        × Pushes v s (ape_time_userdata E n s)
  unfolding ape_time_userdata
  push_time-Holds n s =
      let c = Call.newobject apr_time in
      let (p, w) = E.run c s.world in
      (
        userdata p,
        object-Holds (time_object E live) n w (c ∷ s.trace) s (objects.created apr_time s.world),
        (
          refl,
          refl,
          refl,
          refl,
          object-Grows p n w (c ∷ s.trace) s (objects.fresh apr_time s.world)
              (objects.kept apr_time s.world),
        ),
      )

  push_uid-Holds :
      (n : ℕ) (s : State E.World)
      → (v : Value) × Holds E live (user_object E live) n v (ape_uid_userdata E n s).1
        × Pushes v s (ape_uid_userdata E n s)
  unfolding ape_uid_userdata
  push_uid-Holds n s =
      let c = Call.newobject_ref apr_uid in
      let (p, w) = E.run c s.world in
      (
        userdata p,
        object-Holds (user_object E live) n w (c ∷ s.trace) s (objects.created_ref apr_uid s.world),
        (
          refl,
          refl,
          refl,
          refl,
          object-Grows p n w (c ∷ s.trace) s (objects.fresh_ref apr_uid s.world)
              (objects.kept_ref apr_uid s.world),
        ),
      )

  push_gid-Holds :
      (n : ℕ) (s : State E.World)
      → (v : Value) × Holds E live (group_object E live) n v (ape_gid_userdata E n s).1
        × Pushes v s (ape_gid_userdata E n s)
  unfolding ape_gid_userdata
  push_gid-Holds n s =
      let c = Call.newobject_ref apr_gid in
      let (p, w) = E.run c s.world in
      (
        userdata p,
        object-Holds (group_object E live) n w (c ∷ s.trace) s
            (objects.created_ref apr_gid s.world),
        (
          refl,
          refl,
          refl,
          refl,
          object-Grows p n w (c ∷ s.trace) s (objects.fresh_ref apr_gid s.world)
              (objects.kept_ref apr_gid s.world),
        ),
      )

  pub push_value-Shows :
      (f : Field) (s : State E.World)
      → (v : Value) × Shows E live fi f v (push_value E fi f s).1 × Pushes v s (push_value E fi f s)
  unfolding push_value
  push_value-Shows link s = (_, refl, (refl, refl, refl, refl, λ q l. (l, refl)))
  push_value-Shows icase s = (_, refl, (refl, refl, refl, refl, λ q l. (l, refl)))
  push_value-Shows uprot s = (_, refl, (refl, refl, refl, refl, λ q l. (l, refl)))
  push_value-Shows size s = (_, refl, (refl, refl, refl, refl, λ q l. (l, refl)))
  push_value-Shows csize s = (_, refl, (refl, refl, refl, refl, λ q l. (l, refl)))
  push_value-Shows nlink s = (_, refl, (refl, refl, refl, refl, λ q l. (l, refl)))
  push_value-Shows type s = (_, refl, (refl, refl, refl, refl, λ q l. (l, refl)))
  push_value-Shows name s = (_, refl, (refl, refl, refl, refl, λ q l. (l, refl)))
  push_value-Shows prot s = (
    _,
    (s.world, refl),
    (refl, refl, refl, refl, λ q l. (objects.kept_flag fi.protection s.world q l, refl)),
  )
  push_value-Shows mtime s = push_time-Holds fi.mtime s
  push_value-Shows ctime s = push_time-Holds fi.ctime s
  push_value-Shows atime s = push_time-Holds fi.atime s
  push_value-Shows user s = push_uid-Holds fi.user s
  push_value-Shows group s = push_gid-Holds fi.group s

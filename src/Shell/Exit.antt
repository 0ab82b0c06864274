-- ===== src/Shell/Exit.antt =====
-- The exit status of the program: src/buildsh.c, pmain and main.
use prg_buildsh.Prelude.{
  not, ℕ, ◌≡◌, refl, ap, ◌∙◌, inl, inr, Bool, true, false, ◌&&◌, Option, none, some, List, [], ◌∷◌,
  ◌==◌, if◌then◌else◌, Text, Bool-cases,
}
use prg_buildsh.Machine.{Value}
use prg_buildsh.Shell.Outside.{Host, Shell, Outcome, done, thrown, S}
use prg_buildsh.Shell.Outside.{◌>>=◌, give, Collector}
use prg_buildsh.Shell.{
  open_libraries, pmain, main, start, handle_luainit, run_init, handle_script, behind_libraries,
  leave,
}
use prg_buildsh.Shell.Success.{init_runs, script_accepts, all_runs, succeeds}
use prg_buildsh.Shell.Chunks.{Ran, run_init-Ran}
use prg_buildsh.Shell.Script.{exit_status, handle_script_status}

module _ (H : Host) where
  -- What `pmain` does behind the initial code.
  behind_init : Text → List Text → ℕ → S H.World ℕ
  unfolding handle_script
  behind_init name args status =
      if not (status == 0) then give status else handle_script H (name ∷ args) 0

  behind_init-Ran :
      (name : Text) (args : List Text) (p : ℕ) (fine : Bool × H.World) (s : Shell H.World)
      (r : Outcome ℕ × Shell H.World)
      → s.stack ≡ Value.userdata p ∷ []
      → Ran H fine s r
      → exit_status H (((λ _. r) >>= behind_init name args) s).0
        ≡ (if fine.0 && script_accepts H args fine.1 then 0 else 1)
  unfolding behind_init
  behind_init-Ran name args p (false, w) s (done n, u) at (e, h) = rw e refl
  behind_init-Ran name args p (true, w) s (done n, u) at (e, h) =
      let (same_world, same_stack) = h refl in
      rw e (
        handle_script_status H name args p u (same_stack ∙ at)
        ∙ ap (λ v. if script_accepts H args v then 0 else 1) same_world)
  behind_init-Ran name args p fine s (thrown v, u) at r = absurd r

  -- The state when the libraries have been loaded or have raised an error.
  abbrev loading : Text → Shell H.World → H.World → Shell H.World
  loading name s w = record s {
    progname = elim name [ [] ↦ s.progname | b ∷ rest ↦ b ∷ rest ];
    collector = Collector.stop ∷ s.collector;
    world = w;
  }

  behind_libraries_status :
      (name : Text) (args : List Text) (p : ℕ) (e : Option Value) (s : Shell H.World)
      → s.stack ≡ Value.userdata p ∷ []
      → exit_status H (behind_libraries H name args e s).0
        ≡ (if all_runs H args (e, s.world) then 0 else 1)
  unfolding behind_libraries handle_luainit behind_init
  behind_libraries_status name args p (some v) s at = refl
  behind_libraries_status name args p none s at =
      let s' = record s { collector = Collector.restart ∷ s.collector } in
      behind_init-Ran name args p (init_runs H (H.init_variable s.world) s.world) s'
        (run_init H (H.init_variable s.world) s') at
        (run_init-Ran H (H.init_variable s.world) p s' at)

  -- `pmain` is its calls behind the libraries.
  pmain_lem :
      (name : Text) (args : List Text) (s : Shell H.World)
      → pmain H name args s
        ≡ behind_libraries H name args
            (open_libraries H s.world).0
            (loading name s (open_libraries H s.world).1)
  unfolding pmain
  pmain_lem name args s = refl

  pmain_status :
      (name : Text) (args : List Text) (p : ℕ) (s : Shell H.World)
      → s.stack ≡ Value.userdata p ∷ []
      → exit_status H (pmain H name args s).0
        ≡ (if all_runs H args (open_libraries H s.world) then 0 else 1)
  pmain_status name args p s at =
      let (e, w) = open_libraries H s.world in
      ap (λ r. exit_status H r.0) (pmain_lem name args s)
      ∙ behind_libraries_status name args p e (loading name s w) at

  leave_status : (r : Outcome ℕ × Shell H.World) → (leave H r).0 ≡ exit_status H r.0
  unfolding leave
  leave_status (done n, s) = refl
  leave_status (thrown v, s) = refl

  -- The program exits with 0 exactly when the build succeeds: there is a state, the libraries load,
  -- the initial code (if any) runs to its end, there is room for the arguments, and the script
  -- loads and runs to its end on all of them without `false` as its last result. It exits with 1
  -- otherwise.
  pub main-succeeds :
      (name : Text) (args : List Text) (w : H.World)
      → (main H name args w).0 ≡ (if succeeds H args w then 0 else 1)
  unfolding main
  main-succeeds name args w = elim (Bool-cases (H.open_state w).0) [
    | inr unmade ↦ rw unmade refl
    | inl made ↦
        let w' = (H.open_state w).1 in
        let s = record (start H w') { stack = Value.userdata 0 ∷ [] } in
        rw made (leave_status (pmain H name args s) ∙ pmain_status name args 0 s refl)
  ]

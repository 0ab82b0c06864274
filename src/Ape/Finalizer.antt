-- ===== src/Ape/Finalizer.antt =====
-- The flag of the finalizer in src/ape.c.
use prg_buildsh.Prelude.{
  ℕ, ◌≡◌, refl, ◌∙◌, inl, inr, true, false, List, [], ◌∷◌, arith, ◌==◌, if◌then◌else◌, Bool-cases,
  Text, text, ℤ,
}
use prg_buildsh.Machine.{
  cfunction, number, table, apr_pool, FlagKind, field, Lua, Call, Status, Apr, Result, ok, raised,
  State, M, pure, ◌>>=◌, call, set_table,
}
use prg_buildsh.Errno.{Macros, ape_errno_functions}
use prg_buildsh.Pool.{ape_pool_functions}
use prg_buildsh.Extra.Registered.{ape_extra_functions, wide_functions}
use prg_buildsh.Ape.Entries.{register, set_flag, define_flags, set_numbers}
use prg_buildsh.Ape.Setup.{
  Options, Fcntl, ape_pool_setup, keep_default_pool, set_hacks, ape_errno_setup, ape_env_setup,
  ape_fnmatch_setup, ape_fpath_setup, ape_file_setup, ape_user_setup, ape_time_setup,
  ape_proc_setup, ape_random_setup, ape_extra_setup,
}
use prg_buildsh.Ape.{Platform, terminate_apr, base_functions, run_all, setups, luaopen_ape}

module _ (E : Apr) (q : ℕ) where
  -- A part of the set-up that does not write the block at q.
  abbrev Keeps : {A : Type 0} → M E.World A → Type 0
  Keeps m = (s : State E.World) → (m s).1.block q ≡ s.block q

  Keeps-bind :
      {A B : Type 0} (m : M E.World A) (f : A → M E.World B)
      → Keeps m
      → ((a : A) → Keeps (f a))
      → Keeps (m >>= f)
  Keeps-bind m f h k s = Keeps-result f (λ a. k a) s (m s).0 (m s).1 ∙ h s
    where
      Keeps-result :
          {A B : Type 0} (f : A → M E.World B) (k : (a : A) → Keeps (f a)) (s : State E.World)
          (r : Result A) (u : State E.World)
          → (((λ _. (r, u)) >>= f) s).1.block q ≡ u.block q
      Keeps-result f k s (ok a) u = k a u
      Keeps-result f k s (raised e) u = refl

  -- A call made for its effect.
  Keeps-then : {B : Type 0} (c : Call) (m : M E.World B) → Keeps m → Keeps (call E c >>= λ _. m)
  Keeps-then c m h = Keeps-bind (call E c) (λ _. m) (λ s. refl) (λ _. h)

  register-Keeps :
      (code : M E.World ℕ → Text) (t : ℕ) (fs : List (Text × M E.World ℕ))
      → Keeps (register E code t fs)
  unfolding register
  register-Keeps code t [] s = refl
  register-Keeps code t ((name, f) ∷ fs) s =
      register-Keeps code t fs (set_table t (field name) (cfunction (code f)) s).1

  define_flags-Keeps : (t : ℕ) (flags : List (FlagKind × Text)) → Keeps (define_flags E t flags)
  unfolding define_flags set_flag
  define_flags-Keeps t [] s = refl
  define_flags-Keeps t ((k, name) ∷ flags) s =
      define_flags-Keeps t flags (set_flag E t k (E.constant name) name s).1

  set_numbers-Keeps : (t : ℕ) (numbers : List (Text × ℤ)) → Keeps (set_numbers E t numbers)
  unfolding set_numbers
  set_numbers-Keeps t [] s = refl
  set_numbers-Keeps t ((name, n) ∷ rest) s =
      set_numbers-Keeps t rest (set_table t (field name) (number n) s).1

module _ (L : Lua) (E : Apr) (code : M E.World ℕ → Text) (q t : ℕ) where
  ape_env_setup-Keeps : Keeps E q (ape_env_setup L E code t)
  unfolding ape_env_setup
  ape_env_setup-Keeps s = refl

  ape_fnmatch_setup-Keeps : Keeps E q (ape_fnmatch_setup L E code t)
  unfolding ape_fnmatch_setup
  ape_fnmatch_setup-Keeps s = refl

  ape_fpath_setup-Keeps : Keeps E q (ape_fpath_setup L E code t)
  unfolding ape_fpath_setup
  ape_fpath_setup-Keeps s = refl

  ape_file_setup-Keeps : Keeps E q (ape_file_setup L E code t)
  unfolding ape_file_setup
  ape_file_setup-Keeps s = refl

  ape_user_setup-Keeps : Keeps E q (ape_user_setup L E code t)
  unfolding ape_user_setup
  ape_user_setup-Keeps s = refl

  ape_time_setup-Keeps : Keeps E q (ape_time_setup L E code t)
  unfolding ape_time_setup
  ape_time_setup-Keeps s = refl

  ape_random_setup-Keeps : Keeps E q (ape_random_setup L E code t)
  unfolding ape_random_setup
  ape_random_setup-Keeps s = refl

  ape_proc_setup-Keeps : (o : Options) → Keeps E q (ape_proc_setup L E code t o)
  unfolding ape_proc_setup
  ape_proc_setup-Keeps o s = refl

  ape_errno_setup-Keeps : (X : Macros) → Keeps E q (ape_errno_setup L E code t X)
  unfolding ape_errno_setup
  ape_errno_setup-Keeps X = register-Keeps E q code t (ape_errno_functions L X {W = E.World})

  set_hacks-Keeps :
      (c : Fcntl) (fs : List (Text × M E.World ℕ)) → Keeps E q (set_hacks L E code t c fs)
  unfolding set_hacks
  set_hacks-Keeps c fs s =
      let (hacks, w) = E.run Call.newtable s.world in
      let named = λ (z : Unit {0}). register E code hacks fs in
      let last = λ (z : Unit {0}). set_table t (field (text "hacks")) (table hacks) in
      Keeps-bind E q (set_numbers E hacks c.numbers) (λ z. named z >>= last)
        (set_numbers-Keeps E q hacks c.numbers)
        (λ z. Keeps-bind E q (named z) last (register-Keeps E q code hacks fs) (λ _ u. refl))
        (call E Call.newtable s).1

  ape_extra_setup-Keeps : (o : Options) (c : Fcntl) → Keeps E q (ape_extra_setup L E code t o c)
  unfolding ape_extra_setup register
  ape_extra_setup-Keeps o c s =
      set_hacks-Keeps c (if o.unicode_fs then wide_functions L E o.buffer_size o.rounds else [])
        (register E code t
          (ape_extra_functions L E o.dirsep o.buffer_size (E.constant (text "FOPEN_READ"))
            (E.constant (text "FPROT_OS_DEFAULT")) o.rounds)
          s).1

  -- A new pool object does not lie where the flag is.
  keep_default_pool-Keeps :
      ((w : E.World) → ((E.run (Call.newobject apr_pool) w).0 == q) ≡ false)
      → Keeps E q (keep_default_pool L E code t)
  unfolding keep_default_pool
  keep_default_pool-Keeps apart s = ground (arith, apart s.world)

  ape_pool_setup-Keeps :
      ((w : E.World) → ((E.run (Call.newobject apr_pool) w).0 == q) ≡ false)
      → Keeps E q (ape_pool_setup L E code t)
  unfolding ape_pool_setup
  ape_pool_setup-Keeps apart =
      Keeps-then E q (Call.defobject apr_pool (text "__gc" ∷ []) (text "child" ∷ []))
        (keep_default_pool L E code t >>= λ _. register E code t (ape_pool_functions L E))
        (Keeps-bind E q (keep_default_pool L E code t)
          (λ _. register E code t (ape_pool_functions L E)) (keep_default_pool-Keeps apart)
          (λ _. register-Keeps E q code t (ape_pool_functions L E)))

  abbrev EachKeeps : List (M E.World (Unit {0})) → Type 0
  EachKeeps [] = Unit
  EachKeeps (m ∷ ms) = Keeps E q m × EachKeeps ms

  run_all-Keeps : (ms : List (M E.World (Unit {0}))) → EachKeeps ms → Keeps E q (run_all L E ms)
  unfolding run_all
  run_all-Keeps [] h s = refl
  run_all-Keeps (m ∷ ms) h s =
      Keeps-bind E q m (λ _. run_all L E ms) h.0 (λ _. run_all-Keeps ms h.1) s

  setups-Keeps :
      (p : Platform) (o : Options) (c : Fcntl) (X : Macros)
      → ((w : E.World) → ((E.run (Call.newobject apr_pool) w).0 == q) ≡ false)
      → Keeps E q (run_all L E (setups L E code t p o c X))
  setups-Keeps p o c X apart = run_all-Keeps (setups L E code t p o c X) (
    ape_pool_setup-Keeps apart,
    (
      ape_errno_setup-Keeps X,
      (
        ape_env_setup-Keeps,
        (
          ape_fnmatch_setup-Keeps,
          (
            ape_fpath_setup-Keeps,
            (
              ape_file_setup-Keeps,
              (
                ape_user_setup-Keeps,
                (
                  ape_time_setup-Keeps,
                  (
                    ape_proc_setup-Keeps o,
                    (
                      ape_random_setup-Keeps,
                      (
                        ape_extra_setup-Keeps o c,
                        (register-Keeps E q code t (base_functions L E p), tt),
                      ),
                    ),
                  ),
                ),
              ),
            ),
          ),
        ),
      ),
    ),
  )

same_number : (n : ℕ) → (n == n) ≡ true
same_number n = ground arith

module _ (L : Lua) (E : Apr) (code : M E.World ℕ → Text) (p : Platform) (o : Options) (c : Fcntl)
    (X : Macros) (s : State E.World) where
  abbrev flag : ℕ
  flag = (E.run Call.finalizer s.world).0

  abbrev pub initialized : Status
  initialized = (E.run Call.initialize (E.run Call.finalizer s.world).1).0

  abbrev pub table_at : ℕ
  table_at = (E.run Call.newtable (E.run Call.initialize (E.run Call.finalizer s.world).1).1).0

  -- Before the set-up, with the module table on the stack.
  abbrev pub before_setup : State E.World
  before_setup = record s {
    pushed = table table_at ∷ s.pushed;
    block = λ q. if flag == q then 1 else if flag == q then 0 else s.block q;
    world = (E.run Call.newtable (E.run Call.initialize (E.run Call.finalizer s.world).1).1).1;
    trace = Call.newtable ∷ Call.initialize ∷ Call.finalizer ∷ s.trace;
  }

  luaopen_ape-flag :
      ((w : E.World) → ((E.run (Call.newobject apr_pool) w).0 == flag) ≡ false)
      → (luaopen_ape L E code p o c X s).1.block flag ≡ (if initialized == 0 then 1 else 0)
  unfolding luaopen_ape
  luaopen_ape-flag apart = elim (Bool-cases (initialized == 0)) [
    | inl good ↦ rw good (
        Keeps-bind E flag (run_all L E (setups L E code table_at p o c X)) (λ _. pure 1)
          (setups-Keeps L E code flag table_at p o c X apart) (λ _ u. refl) before_setup
        ∙ rw (same_number flag) refl)
    | inr bad ↦ ground arith
  ]

  -- APR is terminated if and only if it was initialized: after `luaopen_ape`, whether it returned or
  -- raised an error later on, the finalizer calls `apr_terminate` once where `apr_initialize` had
  -- succeeded, and makes no call where it had failed. This holds where a new pool object does not
  -- lie at the place of the finalizer's flag.
  pub terminate_apr-luaopen_ape :
      (apart : (w : E.World) → ((E.run (Call.newobject apr_pool) w).0 == flag) ≡ false)
      → let u = (luaopen_ape L E code p o c X s).1 in
        let (r, t) = terminate_apr L E flag u in
        (r ≡ ok 0) × (t.trace ≡ (if initialized == 0 then Call.terminate ∷ u.trace else u.trace))
  unfolding terminate_apr
  terminate_apr-luaopen_ape apart = elim (Bool-cases (initialized == 0)) [
    | inl good ↦ ground (arith, luaopen_ape-flag apart)
    | inr bad ↦ ground (arith, luaopen_ape-flag apart)
  ]

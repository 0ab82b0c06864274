-- ===== src/File/Lifecycle.antt =====
-- The life of a file handle: what a script can do with it after `file_close` has succeeded.
use prg_buildsh.Prelude.{
  ℕ, zero, suc, ◌≡◌, refl, ap, ◌∙◌, none, some, List, [], ◌∷◌, get_elem?, Text, text,
}
use prg_buildsh.Machine.{
  Value, apr_file, Lua, Status, Apr, bad_argument, bad_top, invalid_key, failed, out_of_fuel,
  Result, ok, raised, State, M, Untouched, Refuses, Each, except, invoke,
}
use prg_buildsh.File.Names.{ape_file_methods}
use prg_buildsh.File.Closed.{path_methods, closed_methods_refuse}

-- The methods of a file handle that work on the handle itself.
abbrev pub handle_methods : (L : Lua) (E : Apr) → List (Text × M E.World ℕ)
unfolding ape_file_methods
handle_methods L E = except (text "dup" ∷ path_methods) (ape_file_methods L E)

-- One method call: the method at position i, on the value v with further arguments.
abbrev method_call : {W : Type 0} → List (Text × M W ℕ) → Value → ℕ → List Value → State W → State W
method_call fs v i rest s = elim (get_elem? fs i) [
  | none ↦ s
  | some (name, f) ↦ (invoke f (v ∷ rest) s).1
]

-- A sequence of method calls on v.
abbrev pub session :
    {W : Type 0} → List (Text × M W ℕ) → Value → List (ℕ × List Value) → State W → State W
session fs v [] s = s
session fs v ((i, rest) ∷ calls) s = session fs v calls (method_call fs v i rest s)

Refuses-Untouched :
    (E : Apr) (rv : Status) (s : State E.World) (r : Result ℕ × State E.World)
    → Refuses E rv s r
    → Untouched s r.1
Refuses-Untouched E rv s (ok n, t) h = h.0
Refuses-Untouched E rv s (raised (bad_argument i), t) h = h
Refuses-Untouched E rv s (raised bad_top, t) h = absurd h
Refuses-Untouched E rv s (raised invalid_key, t) h = absurd h
Refuses-Untouched E rv s (raised (failed m c), t) h = absurd h
Refuses-Untouched E rv s (raised out_of_fuel, t) h = absurd h

Untouched-trans : {W : Type 0} (s t u : State W) → Untouched s t → Untouched t u → Untouched s u
Untouched-trans s t u h k = (k.0 ∙ h.0, k.1 ∙ h.1, k.2 ∙ h.2, k.3 ∙ h.3)

module _ (E : Apr) (v : Value) where
  -- Functions that refuse leave a call of one of them without effect.
  method_call-Untouched :
      (fs : List (Text × M E.World ℕ)) (rv : Status) (i : ℕ) (rest : List Value) (s : State E.World)
      → Each
          (λ f. Refuses E rv (record s { args = v ∷ rest; pushed = [] }) (invoke f (v ∷ rest) s))
          fs
      → Untouched s (method_call fs v i rest s)
  method_call-Untouched [] rv i rest s h = (refl, refl, refl, refl)
  method_call-Untouched ((name, f) ∷ fs) rv zero rest s h =
      Refuses-Untouched E rv (record s { args = v ∷ rest; pushed = [] }) (invoke f (v ∷ rest) s) h.0
  method_call-Untouched ((name, f) ∷ fs) rv (suc i) rest s h =
      method_call-Untouched fs rv i rest s h.1

module _ (L : Lua) (E : Apr) (v : Value) {p : ℕ} (file : L.udata_of apr_file v ≡ some p) where
  -- No sequence of calls of the methods that work on the handle itself (all but `dup`, `perms_set`,
  -- `attrs_set` and `mtime_set`) on a closed file handle, whatever their arguments, makes a call of
  -- APR or moon or changes memory, tables or the outside world.
  pub closed_for_good :
      (calls : List (ℕ × List Value)) (s : State E.World)
      → s.block p ≡ 0
      → Untouched s (session (handle_methods L E) v calls s)
  unfolding ape_file_methods
  closed_for_good [] s closed = (refl, refl, refl, refl)
  closed_for_good ((i, rest) ∷ calls) s closed =
      let t = method_call (handle_methods L E) v i rest s in
      let h : Untouched s t =
        method_call-Untouched E v (handle_methods L E) E.ebadf i rest s (
          closed_methods_refuse L E (record s { args = v ∷ rest; pushed = [] }) refl file closed) in
      Untouched-trans s t (session (handle_methods L E) v calls t) h
        (closed_for_good calls t (ap (λ (b : ℕ → ℕ). b p) h.0 ∙ closed))

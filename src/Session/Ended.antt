-- ===== src/Session/Ended.antt =====
-- src/cpmdc.c: how `cpmdc_session_set_params_ov` ends.
use cpmdc.Base.{
  ℕ, ◌≡◌, ◌⊎◌, refl, Bool, true, false, inl, inr, Option, none, some, List, Bool-cases,
  Option-cases, arith,
}
use cpmdc.Session.{Session, Cached}
use cpmdc.Session.Params.{
  Params, ParamsStatus, applied, empty_buffer, topology_is_fixed, out_of_memory, not_applied,
  not_available, session_set_params,
}

-- A status behind which the parameters that the session holds are those of the engine, if it was
-- configured for the session.
abbrev pub IsClean : ParamsStatus → Type 0
IsClean applied = Unit
IsClean empty_buffer = Unit
IsClean topology_is_fixed = Unit
IsClean out_of_memory = Unit
IsClean not_applied = ⊥
IsClean not_available = ⊥

-- The call was refused before it wrote anything.
abbrev pub IsRefusal : ParamsStatus → Type 0
IsRefusal applied = ⊥
IsRefusal empty_buffer = Unit
IsRefusal topology_is_fixed = Unit
IsRefusal out_of_memory = Unit
IsRefusal not_applied = ⊥
IsRefusal not_available = ⊥

module _ {A M O D : Type 0} (is_empty : M → Bool) (apply : M → Option O → Option D) where
  -- How a call that sets parameters ends.
  abbrev pub HasEnded :
      Session A (Params M O D)
      → M
      → Option O
      → Bool
      → ParamsStatus × Session A (Params M O D)
      → Type 0
  HasEnded s message overrides ready (status, t) =
      ((deck : D) × (apply message overrides ≡ some deck)
        × (ready ≡ true)
        × (s.topology ≡ none)
        × (status ≡ applied)
        × (t ≡ record s {
          params = record { message = message; overrides = overrides; deck = deck };
          configured = true;
        }))
      ⊎ (IsRefusal status × (t ≡ s))
      ⊎ (IsClean status → ⊥)

  pub session_set_params-HasEnded :
      (s : Session A (Params M O D)) (granted ready : Bool) (message : M) (overrides : Option O)
      → HasEnded s message overrides ready
          (session_set_params is_empty granted apply ready s message overrides)
  unfolding session_set_params
  session_set_params-HasEnded s granted ready message overrides =
      by_topology s.topology s.params s.cached_n_atoms s.cached s.configured s.orbital_key granted
        ready
    where
      by_topology :
          (topology : Option (List ℕ)) (params : Params M O D) (n : ℕ) (cached : Option (Cached A))
          (configured : Bool) (key : Option ℕ) (granted ready : Bool)
          → let t : Session A (Params M O D) = record {
            params = params;
            topology = topology;
            cached_n_atoms = n;
            cached = cached;
            configured = configured;
            orbital_key = key;
          } in
            HasEnded t message overrides ready
              (session_set_params is_empty granted apply ready t message overrides)
      by_topology (some fixed) params n cached configured key granted ready =
          elim (Bool-cases (is_empty message)) [
            | inl e ↦ rw e (inr (inl (tt, refl)))
            | inr e ↦ rw e (inr (inl (tt, refl)))
          ]
      by_topology none params n cached configured key false ready =
          elim (Bool-cases (is_empty message)) [
            | inl e ↦ rw e (inr (inl (tt, refl)))
            | inr e ↦ rw e (inr (inl (tt, refl)))
          ]
      by_topology none params n cached configured key true false =
          elim (Bool-cases (is_empty message)) [
            | inl e ↦ rw e (inr (inl (tt, refl)))
            | inr e ↦ elim (Option-cases (apply message overrides)) [
              | inl f ↦ rw (e, f) (inr (inr (λ clean. clean)))
              | inr (deck, f) ↦ rw (e, f) (inr (inr (λ clean. clean)))
            ]
          ]
      by_topology none params n cached configured key true true =
          elim (Bool-cases (is_empty message)) [
            | inl e ↦ rw e (inr (inl (tt, refl)))
            | inr e ↦ elim (Option-cases (apply message overrides)) [
              | inl f ↦ rw (e, f) (inr (inr (λ clean. clean)))
              | inr (deck, f) ↦ rw (e, f) (inl (deck, refl, refl, refl, refl, refl))
            ]
          ]

  pub session_set_params-topology :
      (s : Session A (Params M O D)) (granted ready : Bool) (message : M) (overrides : Option O)
      → (session_set_params is_empty granted apply ready s message overrides).1.topology
        ≡ s.topology
  unfolding session_set_params
  session_set_params-topology s granted ready message overrides = ground arith

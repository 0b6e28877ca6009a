-- ===== src/Overlay/Install.antt =====
-- src/cpmdc.c: the writing of a message succeeds, and what a session from a configuration holds.
use cpmdc.Base.{
  ℕ, zero, suc, ◌*◌, ◌≤◌, ◌<◌, ◌≡◌, inl, inr, refl, ap, Bool, true, false, Option, none, some,
  if◌then◌else◌, ltb, Bool-cases, ltb→lt, ltb→ge,
}
use cpmdc.Base.Reals.{Reals}
use cpmdc.Base.Results.{Result, ok, err}
use cpmdc.Overlay.Effective.{Params, Overrides}
use cpmdc.Overlay.{Common, Lowered, OverlayError}
use cpmdc.Overlay.Resolve.{
  Arm, write_growing, config_to_params, install, session_create_from_config, Knob, was_applied,
}
use cpmdc.Session.{Session}
use cpmdc.Session.Params.{
  ParamsStatus, applied, empty_buffer, topology_is_fixed, out_of_memory, not_applied, not_available,
  session_create, session_set_params,
}

-- The last capacity that is tried.
abbrev pub last_capacity : ℕ → ℕ → ℕ
last_capacity zero capacity = capacity
last_capacity (suc more) capacity = last_capacity more (capacity * 2)

-- A message of `size` bytes is written into any buffer that has them and into no other.
pub record Needs {M : Type 0} (write : ℕ → Option M) (message : M) (size : ℕ) : Type 0 where
  pub written : (capacity : ℕ) → size ≤ capacity → write capacity ≡ some message
  pub refused : (capacity : ℕ) → capacity < size → write capacity ≡ none

-- A message that fits the last of the capacities, which double from the first, is written in that
-- number of attempts where every buffer is granted.
pub write_growing_total :
    {M : Type 0} (grants : ℕ → Bool) (write : ℕ → Option M) (message : M) (size more capacity : ℕ)
    → ((n : ℕ) → grants n ≡ true)
    → Needs write message size
    → size ≤ last_capacity more capacity
    → write_growing grants write (suc more) capacity ≡ ok message
unfolding write_growing
write_growing_total grants write message size zero capacity granted needs h =
    rw (granted capacity, needs.written capacity h) refl
write_growing_total grants write message size (suc more) capacity granted needs h =
    elim (Bool-cases (ltb capacity size)) [
      | inl short ↦
          rw (granted capacity, needs.refused capacity (ltb→lt capacity size short))
            (write_growing_total grants write message size more (capacity * 2) granted needs h)
      | inr enough ↦
          rw (granted capacity, needs.written capacity (ltb→ge capacity size enough)) refl
    ]

unless :
    {B : Type 0} (t : Bool) {rest : Option B} {b : B}
    → (if t then none else rest) ≡ some b
    → rest ≡ some b
unless true e = absurd cc
unless false e = e

only_if :
    {B : Type 0} (t : Bool) {rest : Option B} {b : B}
    → (if t then rest else none) ≡ some b
    → rest ≡ some b
only_if true e = e
only_if false e = absurd cc

from_some :
    {B C : Type 0} (o : Option B) {f : B → Option C} {c : C}
    → (elim o as (λ _. Option C) [ none ↦ none | some b ↦ f b ]) ≡ some c
    → (b : B) × (o ≡ some b) × (f b ≡ some c)
from_some none e = absurd cc
from_some (some b) e = (b, refl, e)

some_parts : {B : Type 0} {a b : B} → some a ≡ some b → a ≡ b
some_parts e = cc

pair_parts : {B C : Type 0} {b : B} {c d : C} → ◌≡◌ {A = B × C} (b, c) (b, d) → c ≡ d
pair_parts e = ap (λ p. p.1) e

-- A test whose refusal is not the status that was returned.
past :
    {S : Type 0} (t : Bool) (why : ParamsStatus) (x : S) {s : S} {rest : ParamsStatus × S}
    → was_applied why ≡ false
    → (if t then (why, x) else rest) ≡ (applied, s)
    → rest ≡ (applied, s)
past true why x h e = let status : was_applied why ≡ true = ap (λ p. was_applied p.0) e in absurd cc
past false why x h e = e

past_unless :
    {S : Type 0} (t : Bool) (why : ParamsStatus) (x : S) {s : S} {rest : ParamsStatus × S}
    → was_applied why ≡ false
    → (if t then rest else (why, x)) ≡ (applied, s)
    → rest ≡ (applied, s)
past_unless true why x h e = e
past_unless false why x h e =
    let status : was_applied why ≡ true = ap (λ p. was_applied p.0) e in absurd cc

from_apply :
    {D S : Type 0} (o : Option D) (why : ParamsStatus) (x : S) {s : S} {f : D → ParamsStatus × S}
    → was_applied why ≡ false
    → (elim o as (λ _. ParamsStatus × S) [ none ↦ (why, x) | some d ↦ f d ]) ≡ (applied, s)
    → (d : D) × (o ≡ some d) × (f d ≡ (applied, s))
from_apply none why x h e =
    let status : was_applied why ≡ true = ap (λ p. was_applied p.0) e in absurd cc
from_apply (some d) why x h e = (d, refl, e)

module _ {A M D : Type 0} (is_empty : M → Bool) (granted : Bool)
    (apply : M → Option (Overrides A) → Option D) (ready : Bool) where
  -- What a session holds once a message and overrides are installed.
  pub record Holds (message : M) (overrides : Option (Overrides A))
      (session : Session A (Knob A M D)) : Type 0 where
    pub same_message : session.params.message ≡ message
    pub same_overrides : session.params.overrides ≡ overrides
    pub same_deck : apply message overrides ≡ some session.params.deck
    pub open_topology : session.topology ≡ none

  session_create-Holds :
      (message : M) (session : Session A (Knob A M D))
      → session_create is_empty granted apply ready message ≡ some session
      → Holds message none session
  unfolding session_create
  session_create-Holds message session e =
      let e1 = unless (is_empty message) e in
      let e2 = only_if granted e1 in
      let (deck, rendered, e3) = from_some (apply message none) e2 in
      rw (← some_parts e3) (record {
        same_message = refl;
        same_overrides = refl;
        same_deck = rendered;
        open_topology = refl;
      })

  session_set_params-Holds :
      (session after : Session A (Knob A M D)) (message : M) (o : Overrides A)
      → session.topology ≡ none
      → session_set_params is_empty granted apply ready session message (some o) ≡ (applied, after)
      → Holds message (some o) after
  unfolding session_set_params
  session_set_params-Holds session after message o free e =
      let e0 = rw (free, session_set_params) at e in
      let e1 = past (is_empty message) empty_buffer _ refl e0 in
      let e2 = past_unless granted out_of_memory _ refl e1 in
      let (deck, rendered, e3) = from_apply (apply message (some o)) not_applied _ refl e2 in
      let e4 = past_unless ready not_available _ refl e3 in
      rw (← pair_parts e4) (record {
        same_message = refl;
        same_overrides = refl;
        same_deck = rendered;
        open_topology = free;
      })

  was_applied-eq :
      (x : ParamsStatus × Session A (Knob A M D)) {after : Session A (Knob A M D)}
      → (if was_applied x.0 then some x.1 else none) ≡ some after
      → x ≡ (applied, after)
  was_applied-eq (applied, s) e = rw (some_parts e) refl
  was_applied-eq (empty_buffer, s) e = absurd cc
  was_applied-eq (topology_is_fixed, s) e = absurd cc
  was_applied-eq (out_of_memory, s) e = absurd cc
  was_applied-eq (not_applied, s) e = absurd cc
  was_applied-eq (not_available, s) e = absurd cc

  install-Holds :
      (message : M) (overrides : Option (Overrides A)) (session : Session A (Knob A M D))
      → install is_empty granted apply ready message overrides ≡ some session
      → Holds message overrides session
  unfolding install
  install-Holds message none session e = session_create-Holds message session e
  install-Holds message (some o) session e =
      let (first, created, e1) =
        from_some (session_create is_empty granted apply ready message) e in
      let free = (session_create-Holds message first created).open_topology in
      session_set_params-Holds first session message o free
        (was_applied-eq (session_set_params is_empty granted apply ready first message (some o)) e1)

module _ {A M D : Type 0} (r : Reals A) (grants : ℕ → Bool) (write_arm : Params A → ℕ → Option M)
    (write_lowered : Lowered A → ℕ → Option M) (is_empty : M → Bool) (granted : Bool)
    (apply : M → Option (Overrides A) → Option D) (ready : Bool) where
  -- A session that is created from a configuration holds the message and the overrides that the
  -- configuration is resolved to and the deck that is rendered of these two, and its topology is
  -- open.
  pub session_create_from_config-Holds :
      (arm : Arm A) (common : Option (Common A)) (session : Session A (Knob A M D))
      → session_create_from_config r grants write_arm write_lowered is_empty granted apply ready arm
          common
        ≡ some session
      → (message : M) × (overrides : Option (Overrides A)) × (config_to_params r grants write_arm
            write_lowered arm common
          ≡ ok (some (message, overrides)))
        × Holds is_empty granted apply ready message overrides session
  unfolding session_create_from_config
  session_create_from_config-Holds arm common session e =
      resolved (config_to_params r grants write_arm write_lowered arm common) e
    where
      resolved :
          (resolved_to : Result OverlayError (Option (M × Option (Overrides A))))
          → (elim resolved_to as (λ _. Option (Session A (Knob A M D))) [
            | err why ↦ none
            | ok none ↦ none
            | ok (some (message, overrides)) ↦
                install is_empty granted apply ready message overrides
          ])
            ≡ some session
          → (message : M) × (overrides : Option (Overrides A)) × (resolved_to
              ≡ ok (some (message, overrides)))
            × Holds is_empty granted apply ready message overrides session
      resolved (err why) f = absurd cc
      resolved (ok none) f = absurd cc
      resolved (ok (some (message, overrides))) f = (
        message,
        overrides,
        refl,
        install-Holds is_empty granted apply ready message overrides session f,
      )

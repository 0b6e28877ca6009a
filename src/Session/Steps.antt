-- ===== src/Session/Steps.antt =====
-- Every sequence of calls on a session: the stored result is one that the engine gave when it was
-- configured with the parameters of the session, and the elements of the session stay what they were.
use cpmdc.Base.{
  ℕ, ◌*◌, ◌≡◌, refl, sym, ap, subst, ◌∙◌, Bool, true, false, not, ◌&&◌, inl, inr, Option, none,
  some, List, map, length, ◌==◌, if◌then◌else◌, Bool-cases, Option-cases, arith,
}
use cpmdc.Session.{
  Position, Atom, Cached, Session, Answer, session_copy_cached_gradient, session_accept_topology,
  join, session_store_cache, drop_result, grad_len_from_atoms, evaluate_session, configured_session,
  answer_session, session_energy_gradient_cell, failed, CallError, select_key, energy_of,
}
use cpmdc.Session.Topology.{
  Keeps, Keeps-refl, Keeps-trans, Keeps-same, accept-Keeps, energy_call-Keeps,
}
use cpmdc.Session.Ended.{
  IsClean, IsRefusal, HasEnded, session_set_params-HasEnded, session_set_params-topology,
}
use cpmdc.Session.Params.{
  Params, ParamsStatus, applied, empty_buffer, topology_is_fixed, out_of_memory, not_applied,
  not_available, session_set_params, session_select_orbitals, session_create,
}

none-some : {B : Type 0} {b : B} → ◌≡◌ {A = Option B} none (some b) → ⊥
none-some e = absurd cc

some_inj : {B : Type 0} {a b : B} → ◌≡◌ {A = Option B} (some a) (some b) → a ≡ b
some_inj e = cc

second : (t u : Bool) → (t && u) ≡ true → u ≡ true
second true u e = e
second false u e = absurd cc

module _ {A M O D E : Type 0} (near : A → A → Bool) (grants : ℕ → Bool)
    (configure : E → Params M O D → E × Bool) (select : E → ℕ → E)
    (evaluate : E → List (Atom A) → Option (List A) → E × Option (A × List (Position A)))
    (is_empty : M → Bool) (apply : M → Option O → Option D) where
  -- A session, the state of the embed layer, and whether the session is `g_active_session`.
  pub record World : Type 0 where
    pub session : Session A (Params M O D)
    pub engine : E
    pub active : Bool

  -- The states of the engine behind a configuration with these parameters.
  pub data Reached (params : Params M O D) : E → Type 0 where
    configured_to :
        (before after : E) → configure before params ≡ (after, true) → Reached params after
    selected : (before : E) (key : ℕ) → Reached params before → Reached params (select before key)
    evaluated :
        (before : E) (atoms : List (Atom A)) (cell : Option (List A))
        → Reached params before
        → Reached params (evaluate before atoms cell).0

  -- The engine, configured with these parameters, gave this energy and these rows for the atoms and
  -- the cell that are stored with them.
  pub record Computed (params : Params M O D) (c : Cached A) : Type 0 where
    pub state : E
    pub reached : Reached params state
    pub after : E
    pub atoms : List (Atom A)
    pub rows : List (Position A)
    pub answer : evaluate state atoms c.cell ≡ (after, some (c.energy, rows))
    pub kept : c.stored ≡ join atoms rows

  -- A stored result was computed, and the topology is fixed since.
  abbrev pub IsSound : Session A (Params M O D) → Type 0
  IsSound s =
      (c : Cached A)
      → s.cached ≡ some c
      → Computed s.params c × ((numbers : List ℕ) × (s.topology ≡ some numbers))

  -- Where the next call does not configure the engine, it has the parameters of the session.
  abbrev pub IsCurrent : Session A (Params M O D) → E → Bool → Type 0
  IsCurrent s engine active = (s.configured && active) ≡ true → Reached s.params engine

  -- What a call of the session leaves.
  abbrev pub left_by : Answer A × Session A (Params M O D) × E × Bool → World
  left_by (answer, session, engine, active) = record {
    session = session;
    engine = engine;
    active = active;
  }

  -- `configure_embed_from_session` behind the application of a message.
  unfoldable pub attempt : E → M → Option O → E × Bool
  attempt engine message overrides = elim (apply message overrides) [
    | none ↦ (engine, false)
    | some deck ↦
        configure engine (record { message = message; overrides = overrides; deck = deck })
  ]

  -- The engine is configured behind the statuses that say so.
  abbrev settled : World → E → ParamsStatus × Session A (Params M O D) → World
  settled w after (applied, s) = record { session = s; engine = after; active = true }
  settled w after (not_available, s) = record w { session = s; engine = after }
  settled w after (empty_buffer, s) = record w { session = s }
  settled w after (topology_is_fixed, s) = record w { session = s }
  settled w after (out_of_memory, s) = record w { session = s }
  settled w after (not_applied, s) = record w { session = s }

  -- `cpmdc_session_set_params_ov` with its configuration of the engine.
  abbrev pub set_params : World → Bool → M → Option O → ParamsStatus × Session A (Params M O D)
  set_params w granted message overrides =
      session_set_params is_empty granted apply (attempt w.engine message overrides).1 w.session
        message overrides

  -- The calls on a session, and everything that others do to the engine between them.
  pub data Step : World → World → Type 0 where
    energy_call :
        (w : World) (agree has_grad : Bool) (atoms : List (Atom A)) (cell : Option (List A))
        → Step w (
            left_by (
              session_energy_gradient_cell near grants agree configure select evaluate w.engine
                w.active w.session atoms cell has_grad))
    params_call :
        (w : World) (granted : Bool) (message : M) (overrides : Option O)
        → Step w (
            settled w
              (attempt w.engine message overrides).0
              (set_params w granted message overrides))
    orbitals_call :
        (w : World) (key : ℕ)
        → Step w
            (record w { session = session_select_orbitals is_empty true apply true w.session key })
    other_calls :
        (w : World) (engine : E) (active : Bool)
        → Step w (record w { engine = engine; active = active })

  -- Any number of calls.
  pub data Steps : World → World → Type 0 where
    no_call : (w : World) → Steps w w
    one_more : (w u v : World) → Step w u → Steps u v → Steps w v

  -- A call that sets parameters is refused before it writes, or succeeds; and whoever else uses the
  -- engine takes it from the session.
  unfoldable pub CleanStep : {w u : World} → Step w u → Type 0
  CleanStep (energy_call w agree has_grad atoms cell) = Unit
  CleanStep (params_call w granted message overrides) =
      IsClean (set_params w granted message overrides).0
  CleanStep (orbitals_call w key) = Unit
  CleanStep (other_calls w engine active) = active ≡ false

  unfoldable pub CleanSteps : {w u : World} → Steps w u → Type 0
  CleanSteps (no_call w) = Unit
  CleanSteps (one_more w u v call calls) = CleanStep call × CleanSteps calls

  -- What a part of the call makes of a session: it stays sound, and its topology what it was.
  record Kept (s : Session A (Params M O D)) (w : World) : Type 0 where
    pub sound : IsSound w.session
    pub current : IsCurrent w.session w.engine w.active
    pub topology : w.session.topology ≡ s.topology

  Reached-select_key :
      (params : Params M O D) (engine : E) (key : Option ℕ)
      → Reached params engine
      → Reached params (select_key near grants true configure select evaluate engine key)
  Reached-select_key params engine none h = h
  Reached-select_key params engine (some key) h = selected engine key h

  drop-Kept :
      (s : Session A (Params M O D)) (engine : E)
      → Reached s.params engine
      → Kept s (record { session = drop_result s; engine = engine; active = true })
  drop-Kept s engine h = record { sound = λ c e. absurd cc; current = λ e. h; topology = refl }

  store-Kept :
      (s : Session A (Params M O D)) (numbers : List ℕ) (atoms : List (Atom A))
      (rows : List (Position A)) (energy : A) (cell : Option (List A)) (state after : E)
      → s.topology ≡ some numbers
      → Reached s.params state
      → Reached s.params after
      → evaluate state atoms cell ≡ (after, some (energy, rows))
      → Kept s (record {
        session = session_store_cache grants s atoms rows energy cell;
        engine = after;
        active = true;
      })
  unfolding session_store_cache
  store-Kept s numbers atoms rows energy cell state after fixed reached reached_after e =
      elim (Bool-cases (
        not (s.cached_n_atoms == length atoms)
        && not (grants (length atoms * 24) && grants (length atoms * 4)))) [
          | inl full ↦ rw (full, session_store_cache) (drop-Kept s after reached_after)
          | inr room ↦
              rw (room, session_store_cache)
                (record {
                  sound = λ c f.
                      let same : record { stored = join atoms rows; energy = energy; cell = cell }
                          ≡ c =
                        cc in
                      subst (λ d. Computed s.params d × ((n : List ℕ) × (s.topology ≡ some n))) same
                        (
                          record {
                            state = state;
                            reached = reached;
                            after = after;
                            atoms = atoms;
                            rows = rows;
                            answer = e;
                            kept = refl;
                          },
                          (numbers, fixed),
                        );
                  current = λ f. reached_after;
                  topology = refl;
                })
        ]

  evaluate_session-Kept :
      (s : Session A (Params M O D)) (numbers : List ℕ) (state : E) (atoms : List (Atom A))
      (cell : Option (List A)) (has_grad agree : Bool)
      → s.topology ≡ some numbers
      → Reached s.params state
      → Kept s (
          left_by (
            evaluate_session near grants agree configure select evaluate state s atoms cell
              has_grad))
  unfolding evaluate_session
  evaluate_session-Kept s numbers state atoms cell false agree fixed reached =
      drop-Kept s (select_key near grants agree configure select evaluate state s.orbital_key)
        (Reached-select_key s.params state s.orbital_key reached)
  evaluate_session-Kept s numbers state atoms cell true agree fixed reached =
      by_answer (evaluate state_now atoms cell) refl
    where
      state_now : E
      state_now = select_key near grants agree configure select evaluate state s.orbital_key

      now : Reached s.params state_now
      now = Reached-select_key s.params state s.orbital_key reached

      by_answer :
          (x : E × Option (A × List (Position A)))
          → evaluate state_now atoms cell ≡ x
          → Kept s (
              left_by (elim x.1 as (λ _. Answer A × Session A (Params M O D) × E × Bool) [
                | none ↦ (failed CallError.engine, drop_result s, x.0, true)
                | some (energy, rows) ↦ (
                  energy_of energy rows,
                  session_store_cache grants s atoms rows energy cell,
                  x.0,
                  true,
                )
              ]))
      by_answer (after, answer) e =
          let reached_after : Reached s.params after =
            subst (λ (x : E × Option (A × List (Position A))). Reached s.params x.0) e
              (evaluated state_now atoms cell now) in
          by_result answer e reached_after
        where
          by_result :
              (answer : Option (A × List (Position A)))
              → evaluate state_now atoms cell ≡ (after, answer)
              → Reached s.params after
              → Kept s (
                  left_by (elim answer as (λ _. Answer A × Session A (Params M O D) × E × Bool) [
                    | none ↦ (failed CallError.engine, drop_result s, after, true)
                    | some (energy, rows) ↦ (
                      energy_of energy rows,
                      session_store_cache grants s atoms rows energy cell,
                      after,
                      true,
                    )
                  ]))
          by_result none e h = drop-Kept s after h
          by_result (some (energy, rows)) e h =
              store-Kept s numbers atoms rows energy cell state_now after fixed now h e

  configured_session-Kept :
      (s : Session A (Params M O D)) (numbers : List ℕ) (state : E) (active : Bool)
      (atoms : List (Atom A)) (cell : Option (List A)) (has_grad agree : Bool)
      → IsSound s
      → IsCurrent s state active
      → s.topology ≡ some numbers
      → Kept s (
          left_by (
            configured_session near grants agree configure select evaluate state active s atoms cell
              has_grad))
  unfolding configured_session
  configured_session-Kept s numbers state active atoms cell has_grad agree sound current fixed =
      elim (Bool-cases (s.configured && active)) [
        | inl ready ↦
            rw (ready, configured_session)
              (evaluate_session-Kept s numbers state atoms cell has_grad agree fixed
                (current ready))
        | inr not_ready ↦
            rw (not_ready, configured_session) (by_engine (configure state s.params) refl not_ready)
      ]
    where
      by_engine :
          (x : E × Bool)
          → configure state s.params ≡ x
          → (s.configured && active) ≡ false
          → Kept s (
              left_by (
                if x.1
                then evaluate_session near grants agree configure select evaluate x.0
                    (record s { configured = true })
                    atoms
                    cell
                    has_grad
                else (failed CallError.not_available, s, x.0, active)))
      by_engine (after, true) e idle =
          let k =
            evaluate_session-Kept (record s { configured = true }) numbers after atoms cell has_grad
              agree fixed (configured_to state after e) in
          record { sound = k.sound; current = k.current; topology = k.topology }
      by_engine (after, false) e idle = record {
        sound = sound;
        current = λ h. absurd cc;
        topology = refl;
      }

  answer_session-Kept :
      (s : Session A (Params M O D)) (numbers : List ℕ) (state : E) (active : Bool)
      (atoms : List (Atom A)) (cell : Option (List A)) (has_grad agree : Bool)
      → IsSound s
      → IsCurrent s state active
      → s.topology ≡ some numbers
      → Kept s (
          left_by (
            answer_session near grants agree configure select evaluate state active s atoms cell
              has_grad))
  unfolding answer_session
  answer_session-Kept s numbers state active atoms cell has_grad agree sound current fixed =
      let otherwise =
        configured_session-Kept s numbers state active atoms cell has_grad agree sound current
          fixed in
      by_copy (if has_grad then session_copy_cached_gradient near grants s atoms cell else none)
        refl agree (record { sound = sound; current = current; topology = refl }) otherwise
    where
      by_copy :
          (copied : Option (A × List (Position A)))
          → (if has_grad then session_copy_cached_gradient near grants s atoms cell else none)
            ≡ copied
          → (agree : Bool) → Kept s (record { session = s; engine = state; active = active })
          → Kept s (
              left_by (
                configured_session near grants agree configure select evaluate state active s atoms
                  cell has_grad))
          → Kept s (
              left_by (
                answer_session near grants agree configure select evaluate state active s atoms cell
                  has_grad))
      by_copy none e agree unchanged otherwise = rw (e, answer_session) otherwise
      by_copy (some (energy, rows)) e true unchanged otherwise = rw (e, answer_session) unchanged
      by_copy (some (energy, rows)) e false unchanged otherwise = rw (e, answer_session) otherwise

  accepted-IsSound :
      (s : Session A (Params M O D)) (numbers : List ℕ)
      → IsSound s
      → IsSound (record s { topology = some numbers })
  accepted-IsSound s numbers sound c e =
      let (computed, _) = sound c e in (computed, (numbers, refl))

  -- What every call keeps of a session and the engine.
  pub record Good (w : World) : Type 0 where
    pub sound : IsSound w.session
    pub current : IsCurrent w.session w.engine w.active

  energy_call-Good :
      (s : Session A (Params M O D)) (state : E) (agree active has_grad : Bool)
      (atoms : List (Atom A)) (cell : Option (List A))
      → Good (record { session = s; engine = state; active = active })
      → Good (
          left_by (
            session_energy_gradient_cell near grants agree configure select evaluate state active s
              atoms cell has_grad))
  unfolding session_energy_gradient_cell
  energy_call-Good s state agree active has_grad atoms cell good =
      elim (Option-cases (grad_len_from_atoms (length atoms))) [
        | inl bad ↦ rw (bad, session_energy_gradient_cell) good
        | inr (n3, sized) ↦
            elim (Option-cases
              (session_accept_topology grants s (map (λ (a : Atom A). a.number) atoms))) [
                | inl refused ↦ rw (sized, session_energy_gradient_cell, refused) good
                | inr (t, accepted) ↦
                    rw (sized, session_energy_gradient_cell, accepted) (answered t accepted)
              ]
      ]
    where
      numbers : List ℕ
      numbers = map (λ (a : Atom A). a.number) atoms

      answered :
          (t : Session A (Params M O D))
          → session_accept_topology grants s numbers ≡ some t
          → Good (
              left_by (
                answer_session near grants agree configure select evaluate state active t atoms cell
                  has_grad))
      answered t accepted =
          let (_, same) = accept-Keeps near grants configure select evaluate s t numbers accepted in
          let sound_t : IsSound t =
            subst IsSound (sym same) (accepted-IsSound s numbers good.sound) in
          let current_t : IsCurrent t state active =
            subst (λ u. IsCurrent u state active) (sym same) good.current in
          let fixed_t : t.topology ≡ some numbers =
            ap (λ (u : Session A (Params M O D)). u.topology) same in
          let k =
            answer_session-Kept t numbers state active atoms cell has_grad agree sound_t current_t
              fixed_t in
          record { sound = k.sound; current = k.current }

  attempt-eq :
      (engine : E) (message : M) (overrides : Option O) (deck : D)
      → apply message overrides ≡ some deck
      → attempt engine message overrides
        ≡ configure engine (record { message = message; overrides = overrides; deck = deck })
  unfolding attempt
  attempt-eq engine message overrides deck e = rw (attempt, e) refl

  attempt-configured :
      (engine : E) (message : M) (overrides : Option O) (deck : D)
      → apply message overrides ≡ some deck
      → (attempt engine message overrides).1 ≡ true
      → Reached
          (record { message = message; overrides = overrides; deck = deck })
          (attempt engine message overrides).0
  attempt-configured engine message overrides deck e ready =
      let p : Params M O D = record { message = message; overrides = overrides; deck = deck } in
      let made : configure engine p ≡ attempt engine message overrides =
        sym (attempt-eq engine message overrides deck e) in
      configured_to engine (attempt engine message overrides).0
        (made ∙ ap (λ b. ((attempt engine message overrides).0, b)) ready)

  refused-Good :
      (w : World) (after : E) (status : ParamsStatus)
      → IsRefusal status
      → Good w
      → Good (settled w after (status, w.session))
  refused-Good w after applied h good = absurd h
  refused-Good w after empty_buffer h good = good
  refused-Good w after topology_is_fixed h good = good
  refused-Good w after out_of_memory h good = good
  refused-Good w after not_applied h good = absurd h
  refused-Good w after not_available h good = absurd h

  params_call-Good :
      (w : World) (granted : Bool) (message : M) (overrides : Option O)
      → IsClean (set_params w granted message overrides).0
      → Good w
      → Good (
          settled w (attempt w.engine message overrides).0 (set_params w granted message overrides))
  params_call-Good w granted message overrides clean good =
      ended (set_params w granted message overrides)
        (session_set_params-HasEnded is_empty apply w.session granted
          (attempt w.engine message overrides).1 message overrides)
        clean
    where
      ended :
          (result : ParamsStatus × Session A (Params M O D))
          → HasEnded is_empty apply w.session message overrides
              (attempt w.engine message overrides).1
              result
          → IsClean result.0
          → Good (settled w (attempt w.engine message overrides).0 result)
      ended (status, t) (inl (deck, e, ready, unfixed, is_applied, same)) clean =
          let reached = attempt-configured w.engine message overrides deck e ready in
          rw (is_applied, same)
            (record {
              sound = λ c f. let (_, (numbers, fixed)) = good.sound c f in absurd cc;
              current = λ h. reached;
            })
      ended (status, t) (inr (inl (refusal, same))) clean =
          rw same (refused-Good w (attempt w.engine message overrides).0 status refusal good)
      ended (status, t) (inr (inr unclean)) clean = absurd (unclean clean)

  Step-Good : {w u : World} (call : Step w u) → CleanStep call → Good w → Good u
  unfolding CleanStep
  Step-Good (energy_call w agree has_grad atoms cell) clean good =
      energy_call-Good w.session w.engine agree w.active has_grad atoms cell good
  Step-Good (params_call w granted message overrides) clean good =
      params_call-Good w granted message overrides clean good
  Step-Good (orbitals_call w key) clean good =
      unfold session_select_orbitals in record { sound = good.sound; current = good.current }
  Step-Good (other_calls w engine active) clean good = record {
    sound = good.sound;
    current = λ h. absurd (idle w.session.configured active clean h);
  }
    where
      idle : (t active : Bool) → active ≡ false → (t && active) ≡ true → ⊥
      idle true active e h = absurd cc
      idle false active e h = absurd cc

  Steps-Good : {w u : World} (calls : Steps w u) → CleanSteps calls → Good w → Good u
  unfolding CleanSteps
  Steps-Good (no_call w) clean good = good
  Steps-Good (one_more w u v call calls) (first, rest) good =
      Steps-Good calls rest (Step-Good call first good)

  -- `cpmdc_session_create` with its configuration of the engine.
  unfoldable pub create : E → Bool → M → Option World
  create engine granted message =
      let (after, ready) = attempt engine message none in
      elim (session_create is_empty granted apply ready message) [
        | none ↦ none
        | some s ↦ some (record { session = s; engine = after; active = ready })
      ]

  session_create-fresh :
      (granted ready : Bool) (message : M) (s : Session A (Params M O D))
      → session_create is_empty granted apply ready message ≡ some s
      → (s.cached ≡ none)
        × (s.configured ≡ ready)
        × ((deck : D) × (apply message none ≡ some deck)
            × (s.params ≡ record { message = message; overrides = none; deck = deck }))
  unfolding session_create
  session_create-fresh granted ready message s e = elim (Option-cases (apply message none)) [
    | inl f ↦ absurd (ground arith)
    | inr (deck, f) ↦ (ground arith, ground arith, (deck, f, ground arith))
  ]

  create-Good :
      (engine : E) (granted : Bool) (message : M) (w : World)
      → create engine granted message ≡ some w
      → Good w
  unfolding create
  create-Good engine granted message w e =
      let made = session_create is_empty granted apply (attempt engine message none).1 message in
      elim (Option-cases made) [
        | inl f ↦ absurd (none-some (by_made made none f e))
        | inr (s, f) ↦ subst Good (some_inj (by_made made (some s) f e)) (fresh s f)
      ]
    where
      world_of : Option (Session A (Params M O D)) → Option World
      world_of o = elim o [
        | none ↦ none
        | some s ↦ some (record {
          session = s;
          engine = (attempt engine message none).0;
          active = (attempt engine message none).1;
        })
      ]

      by_made :
          (made o : Option (Session A (Params M O D)))
          → made ≡ o
          → world_of made ≡ some w
          → world_of o ≡ some w
      by_made made o f g = subst (λ o. world_of o ≡ some w) f g

      fresh :
          (s : Session A (Params M O D))
          → session_create is_empty granted apply (attempt engine message none).1 message ≡ some s
          → Good (record {
            session = s;
            engine = (attempt engine message none).0;
            active = (attempt engine message none).1;
          })
      fresh s f =
          let (empty, ready, (deck, applied_deck, same)) =
            session_create-fresh granted (attempt engine message none).1 message s f in
          record {
            sound = λ c g. absurd (none-some (sym empty ∙ g));
            current = λ h.
                subst (λ p. Reached p (attempt engine message none).0) (sym same)
                  (attempt-configured engine message none deck applied_deck
                    (second s.configured (attempt engine message none).1 h));
          }

  settled-topology :
      (w : World) (after : E) (result : ParamsStatus × Session A (Params M O D))
      → (settled w after result).session ≡ result.1
  settled-topology w after (applied, s) = refl
  settled-topology w after (not_available, s) = refl
  settled-topology w after (empty_buffer, s) = refl
  settled-topology w after (topology_is_fixed, s) = refl
  settled-topology w after (out_of_memory, s) = refl
  settled-topology w after (not_applied, s) = refl

  Step-Keeps : {w u : World} → Step w u → Keeps w.session u.session
  Step-Keeps (energy_call w agree has_grad atoms cell) =
      energy_call-Keeps near grants configure select evaluate w.session w.engine agree w.active
        has_grad atoms cell
  Step-Keeps (params_call w granted message overrides) =
      let after = (attempt w.engine message overrides).0 in
      let result = set_params w granted message overrides in
      Keeps-same w.session w.session (settled w after result).session (Keeps-refl w.session) (
        ap (λ (s : Session A (Params M O D)). s.topology) (settled-topology w after result)
        ∙ session_set_params-topology is_empty apply w.session granted
            (attempt w.engine message overrides).1 message overrides)
  Step-Keeps (orbitals_call w key) = unfold session_select_orbitals in Keeps-refl w.session
  Step-Keeps (other_calls w engine active) = Keeps-refl w.session

  -- A session that was created and called any number of times, where each call that sets parameters
  -- succeeds or is refused before it writes, and others leave the engine to the session or take it
  -- from it: a result that it has stored is one that the engine gave behind a configuration with the
  -- parameters that the session has now, for the atoms and the cell stored with it, and the topology
  -- is fixed; and where the next evaluation does not configure the engine, it has those parameters.
  pub create-IsSound :
      (engine : E) (granted : Bool) (message : M) (w u : World)
      → create engine granted message ≡ some w
      → (calls : Steps w u) → CleanSteps calls
      → IsSound u.session × IsCurrent u.session u.engine u.active
  create-IsSound engine granted message w u e calls clean =
      let good = Steps-Good calls clean (create-Good engine granted message w e) in
      (good.sound, good.current)

  -- Once a session has fixed its topology, no calls change how often each element stands in it,
  -- whatever they answer and others do to the engine; only the order of the atoms follows the latest
  -- call.
  pub Steps-Keeps : (w u : World) → Steps w u → Keeps w.session u.session
  Steps-Keeps _ _ (no_call w) = Keeps-refl w.session
  Steps-Keeps _ _ (one_more w u v call calls) =
      Keeps-trans w.session u.session v.session (Step-Keeps call) (Steps-Keeps u v calls)

-- ===== src/Session/Topology.antt =====
-- src/cpmdc.c: what an energy call makes of the topology of a session.
use cpmdc.Base.{
  count, ℕ, ◌≡◌, refl, ap, ◌∙◌, Bool, true, inl, inr, Option, some, List, map, length, Option-cases,
  arith,
}
use cpmdc.Session.{
  Position, Atom, Session, session_accept_topology, session_store_cache, grad_len_from_atoms,
  evaluate_session, configured_session, answer_session, session_energy_gradient_cell,
}
use cpmdc.Session.Elements.{element_counts_match, element_counts_match_iff}

module _ {A P : Type 0} where
  -- Once a topology is fixed it is fixed, to the same elements.
  abbrev pub Keeps : Session A P → Session A P → Type 0
  Keeps s t =
      (fixed : List ℕ)
      → s.topology ≡ some fixed
      → (now : List ℕ) × (t.topology ≡ some now) × ((k : ℕ) → count k fixed ≡ count k now)

  pub Keeps-refl : (s : Session A P) → Keeps s s
  Keeps-refl s fixed e = (fixed, e, λ k. refl)

  pub Keeps-trans : (s t u : Session A P) → Keeps s t → Keeps t u → Keeps s u
  Keeps-trans s t u f g fixed e =
      let (mid, em, cm) = f fixed e in let (now, en, cn) = g mid em in (now, en, λ k. cm k ∙ cn k)

  pub Keeps-same : (s t u : Session A P) → Keeps s t → u.topology ≡ t.topology → Keeps s u
  Keeps-same s t u f same fixed e = let (now, en, c) = f fixed e in (now, same ∙ en, c)

module _ {A P E : Type 0} (near : A → A → Bool) (grants : ℕ → Bool) (configure : E → P → E × Bool)
    (select : E → ℕ → E)
    (evaluate : E → List (Atom A) → Option (List A) → E × Option (A × List (Position A))) where
  pub accept-Keeps :
      (s t : Session A P) (numbers : List ℕ)
      → session_accept_topology grants s numbers ≡ some t
      → Keeps s t × (t ≡ record s { topology = some numbers })
  unfolding session_accept_topology
  accept-Keeps s t numbers e = elim (Option-cases s.topology) [
    | inl none_yet ↦ (λ fixed f. absurd cc, ground arith)
    | inr (old, has) ↦
        let same : t ≡ record s { topology = some numbers } = ground arith in
        let size : length old ≡ length numbers = ground arith in
        let match : element_counts_match old numbers ≡ true = ground arith in
        let elements = (element_counts_match_iff old numbers size).0 match in
        (
          λ fixed f. (
            numbers,
            ap (λ (u : Session A P). u.topology) same,
            λ k. let e : fixed ≡ old = cc in rw e (elements.as_often k),
          ),
          same,
        )
  ]

  answer_session-topology :
      (s : Session A P) (state : E) (active : Bool) (atoms : List (Atom A)) (cell : Option (List A))
      (has_grad agree : Bool)
      → (answer_session near grants agree configure select evaluate state active s atoms cell
          has_grad).1.topology
        ≡ s.topology
  unfolding answer_session configured_session evaluate_session session_store_cache
  answer_session-topology s state active atoms cell has_grad agree = ground arith

  pub energy_call-Keeps :
      (s : Session A P) (state : E) (agree active has_grad : Bool) (atoms : List (Atom A))
      (cell : Option (List A))
      → Keeps s
          (session_energy_gradient_cell near grants agree configure select evaluate state active s
            atoms cell has_grad).1
  unfolding session_energy_gradient_cell
  energy_call-Keeps s state agree active has_grad atoms cell =
      elim (Option-cases (grad_len_from_atoms (length atoms))) [
        | inl bad ↦ rw (bad, session_energy_gradient_cell) (Keeps-refl s)
        | inr (n3, sized) ↦
            elim (Option-cases
              (session_accept_topology grants s (map (λ (a : Atom A). a.number) atoms))) [
                | inl refused ↦ rw (sized, session_energy_gradient_cell, refused) (Keeps-refl s)
                | inr (t, accepted) ↦
                    let (keeps, same) =
                      accept-Keeps s t (map (λ (a : Atom A). a.number) atoms) accepted in
                    rw (sized, session_energy_gradient_cell, accepted)
                      (Keeps-same s t
                        (answer_session near grants agree configure select evaluate state active t
                          atoms cell has_grad).1
                        keeps (answer_session-topology t state active atoms cell has_grad agree))
              ]
      ]

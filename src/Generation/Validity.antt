-- ===== src/Generation/Validity.antt =====
-- `generate_from_brief` against the invariant of all rows.
use lifeflow.Prelude.{
  ℕ, Bool, true, false, ◌≡◌, refl, String, List, [], ◌∷◌, ◌++◌, Option, none, some, if-cases, ◌==◌,
  nat_eq, Option-cases, inl, inr, subst,
}
use mathlib.Core.Option.{some-injective}
use lifeflow.Models.{ActionType, action_type_eq}
use lifeflow.Payloads.{Boundary, canonical_payload, action_payload_hash}
use lifeflow.Records.{ActionProposal}
use lifeflow.Proposals.{Work}
use lifeflow.Proposals.Invariant.{IsValid}
use lifeflow.Service.Validity.{AllValid, find-IsValid}
use lifeflow.Generation.Candidate.{ProposalCandidate, reconsider}
use lifeflow.Generation.Walk.{
  Generating, against, insert, try_found, try_hashed, try_candidate, walk, walk_all, add_candidate,
  ranked_by_type, generate_from_candidates, get_by_origin, put_proposal,
}
use lifeflow.Schedule.Upkeep.{none-some}
use lifeflow.Generation.Respect.{reconsider-Respects, Respects-IsValid, new_proposal-IsValid}

-- `ranked_by_type`
abbrev Groups : Type 0
Groups = List (ActionType × List ProposalCandidate)

module _ (B : Boundary) where
  -- The composed payloads are validated ones.
  abbrev pub AllCanonical : List ProposalCandidate → Type 0
  AllCanonical [] = Unit
  AllCanonical (c ∷ cs) =
      (canonical_payload B c.action_type c.payload ≡ some c.payload) × AllCanonical cs

  abbrev AllGroups : Groups → Type 0
  AllGroups [] = Unit
  AllGroups ((t, cs) ∷ gs) = AllCanonical cs × AllGroups gs

  append-AllCanonical :
      (cs : List ProposalCandidate) (c : ProposalCandidate)
      → AllCanonical cs
      → canonical_payload B c.action_type c.payload ≡ some c.payload
      → AllCanonical (cs ++ (c ∷ []))
  append-AllCanonical [] c h e = (e, tt)
  append-AllCanonical (d ∷ cs) c (h, hs) e = (h, append-AllCanonical cs c hs e)

  add_candidate-AllGroups :
      (c : ProposalCandidate) (gs : Groups)
      → canonical_payload B c.action_type c.payload ≡ some c.payload
      → AllGroups gs
      → AllGroups (add_candidate c gs)
  add_candidate-AllGroups c [] e g = ((e, tt), tt)
  add_candidate-AllGroups c ((t, cs) ∷ gs) e (h, hs) =
      if-cases AllGroups (t == c.action_type) (λ _. (append-AllCanonical cs c h e, hs))
        (λ _. (h, add_candidate-AllGroups c gs e hs))

  ranked_by_type-AllGroups :
      (cs : List ProposalCandidate) (gs : Groups)
      → AllCanonical cs
      → AllGroups gs
      → AllGroups (ranked_by_type cs gs)
  unfolding ranked_by_type
  ranked_by_type-AllGroups [] gs h g = g
  ranked_by_type-AllGroups (c ∷ cs) gs (h, hs) g =
      ranked_by_type-AllGroups cs (add_candidate c gs) hs (add_candidate-AllGroups c gs h g)

  module _ (user_id reference : ℕ) (brief_id : Option ℕ) (new_id : String → ℕ)
      (winner : String → Option ActionProposal)
      (fair : (f : String) (q : ActionProposal) → winner f ≡ some q → IsValid B reference q) where
    abbrev Sound : Generating → Type 0
    Sound s = AllValid B reference s.proposals

    put-AllValid :
        (q : ActionProposal) (ps : List ActionProposal)
        → IsValid B reference q
        → AllValid B reference ps
        → AllValid B reference (put_proposal q ps)
    put-AllValid q [] v vs = tt
    put-AllValid q (p ∷ ps) v (vp, vs) =
        (if-cases (IsValid B reference) (p.id == q.id) (λ _. v) (λ _. vp), put-AllValid q ps v vs)

    against-AllValid :
        (c : ProposalCandidate) (h : String) (p : ActionProposal) (ps : List ActionProposal)
        (s : Generating)
        → canonical_payload B c.action_type c.payload ≡ some c.payload
        → action_payload_hash B c.action_type c.payload ≡ some h
        → IsValid B reference p
        → AllValid B reference ps
        → Sound (against B user_id reference brief_id new_id winner c h p ps s).1
    against-AllValid c h p ps s canonical hashed v vs =
        let w : Work = record { proposal = p; audit = s.audit } in
        let q = (reconsider user_id reference c h w).1.proposal in
        put-AllValid q ps
          (Respects-IsValid B user_id reference c h canonical hashed p q
            (reconsider-Respects user_id reference c h w) v)
          vs

    insert-AllValid :
        (o : Option ActionProposal) (c : ProposalCandidate) (h : String) (s : Generating)
        → ((q : ActionProposal) → o ≡ some q → IsValid B reference q)
        → canonical_payload B c.action_type c.payload ≡ some c.payload
        → action_payload_hash B c.action_type c.payload ≡ some h
        → Sound s
        → Sound (insert B user_id reference brief_id new_id winner o c h s).1
    insert-AllValid (some q) c h s v canonical hashed vs =
        against-AllValid c h q (q ∷ s.proposals) s canonical hashed (v q refl) (v q refl, vs)
    insert-AllValid none c h s v canonical hashed vs = (
      new_proposal-IsValid B user_id reference c h canonical hashed (new_id c.origin_fingerprint)
          brief_id,
      vs,
    )

    try_found-AllValid :
        (o : Option ActionProposal) (c : ProposalCandidate) (h : String) (s : Generating)
        → ((q : ActionProposal) → o ≡ some q → IsValid B reference q)
        → canonical_payload B c.action_type c.payload ≡ some c.payload
        → action_payload_hash B c.action_type c.payload ≡ some h
        → Sound s
        → Sound (try_found B user_id reference brief_id new_id winner o c h s).1
    try_found-AllValid (some p) c h s v canonical hashed vs =
        against-AllValid c h p s.proposals s canonical hashed (v p refl) vs
    try_found-AllValid none c h s v canonical hashed vs =
        insert-AllValid (winner c.origin_fingerprint) c h s (fair c.origin_fingerprint) canonical
          hashed vs

    try_hashed-AllValid :
        (o : Option String) (c : ProposalCandidate) (s : Generating) {t : Bool × Generating}
        → action_payload_hash B c.action_type c.payload ≡ o
        → canonical_payload B c.action_type c.payload ≡ some c.payload
        → Sound s
        → try_hashed B user_id reference brief_id new_id winner o c s ≡ some t
        → Sound t.1
    unfolding get_by_origin
    try_hashed-AllValid none c s e canonical vs h = absurd (none-some h)
    try_hashed-AllValid (some hash) c s e canonical vs h =
        subst (λ (t : Bool × Generating). Sound t.1) (some-injective _ _ h)
          (try_found-AllValid (get_by_origin user_id c.origin_fingerprint s.proposals) c hash s
            (λ q found. find-IsValid B reference _ s.proposals vs found) canonical e vs)

    walk-AllValid :
        (cs : List ProposalCandidate) (s : Generating) {s' : Generating}
        → AllCanonical cs
        → Sound s
        → walk B user_id reference brief_id new_id winner cs s ≡ some s'
        → Sound s'
    unfolding walk try_candidate
    walk-AllValid [] s {s'} hs vs h = subst Sound (some-injective s s' h) vs
    walk-AllValid (c ∷ cs) s {s'} (canonical, hs) vs h =
        elim (Option-cases (try_candidate B user_id reference brief_id new_id winner c s)) [
          | inl e ↦ absurd (none-some (rw (e, walk) at h))
          | inr ((true, t), e) ↦
              subst Sound (some-injective t s' (rw (e, walk) at h))
                (try_hashed-AllValid _ c s refl canonical vs e)
          | inr ((false, t), e) ↦
              walk-AllValid cs t hs (try_hashed-AllValid _ c s refl canonical vs e)
                (rw (e, walk) at h)
        ]

    walk_all-AllValid :
        (gs : Groups) (s : Generating) {s' : Generating}
        → AllGroups gs
        → Sound s
        → walk_all B user_id reference brief_id new_id winner gs s ≡ some s'
        → Sound s'
    unfolding walk_all
    walk_all-AllValid [] s {s'} hs vs h = subst Sound (some-injective s s' h) vs
    walk_all-AllValid ((a, cs) ∷ gs) s (h, hs) vs e =
        elim (Option-cases (walk B user_id reference brief_id new_id winner cs s)) [
          | inl d ↦ absurd (none-some (rw (d, walk_all) at e))
          | inr (t, d) ↦
              walk_all-AllValid gs t hs (walk-AllValid cs s h vs d) (rw (d, walk_all) at e)
        ]

    -- When every row is valid at the reference time, the candidates' payloads are validated ones,
    -- the row that wins a race is valid and the generation succeeds, every row is valid after it.
    pub generate-AllValid :
        (cs : List ProposalCandidate) (s : Generating) {s' : Generating}
        → AllCanonical cs
        → AllValid B reference s.proposals
        → generate_from_candidates B user_id reference brief_id new_id winner cs s ≡ some s'
        → AllValid B reference s'.proposals
    unfolding generate_from_candidates
    generate-AllValid cs s hs vs h =
        walk_all-AllValid (ranked_by_type cs []) s (ranked_by_type-AllGroups cs [] hs tt) vs h

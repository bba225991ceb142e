-- ===== src/StageB/Answers.antt =====
-- When an answer of stage-b-matcher.ts is grounded, and that those of the model and the cache are.
use mathlib.Core.Path.{subst}
use mathlib.Core.Option.{some-injective}
use argos_career.Base.{
  ℕ, ◌≡◌, refl, ◌∙◌, inl, inr, Bool, true, false, ◌&&◌, Text, same_refl, Option, none, some, List,
  [], ◌∷◌, every, ◌==◌, if◌then◌else◌, arith, Bool-cases, Option-cases,
}
use argos_career.Scoring.Types.{
  RequirementWeight, blocking, mandatory, desirable, MatchStatus, Requirement, Match, create_match,
}
use argos_career.Llm.Output.{LlmParseResult, ok, not_ok}
use argos_career.StageB.Matches.{
  CacheKey, MatchesRow, PartialRow, is_coerced, parse_matches, find, same_weight, same_flag,
  same_requirement, item, partial_of, find_partial_at, same_key,
}
use argos_career.StageB.Matcher.{
  MatchOutput, Answer, matched, unanswered, Matching, is_grounded_quote, is_grounded, are_current,
  admitted_evidence, answer_of, served, ask_one,
}

same_requirement_refl : (r : Requirement) → same_requirement r r ≡ true
same_requirement_refl r =
    let weight = same_weight_refl r.weight in
    let flag = same_flag_refl r.verifiable in
    ground (arith, same_refl r.text, same_refl r.category, weight, flag)
  where
    same_weight_refl : (w : RequirementWeight) → same_weight w w ≡ true
    same_weight_refl blocking = refl
    same_weight_refl mandatory = refl
    same_weight_refl desirable = refl

    same_flag_refl : (f : Option Bool) → same_flag f f ≡ true
    same_flag_refl none = refl
    same_flag_refl (some true) = refl
    same_flag_refl (some false) = refl

module _ (m : Matching) (requirements : List Requirement) where
  -- A match is of its requirement, its evidence is known to the profile and applies to the
  -- requirement, and without evidence it is not met.
  pub record IsGroundedMatch (requirement : Requirement) (match : Match) : Type 0 where
    pub of_requirement : same_requirement match.requirement requirement ≡ true
    pub grounded : is_grounded m requirements match.evidence requirement ≡ true
    pub coerced : is_coerced match ≡ true

  -- Position by position.
  abbrev pub AreGrounded : List Match → List Requirement → Type 0
  AreGrounded [] [] = Unit
  AreGrounded (match ∷ matches) (requirement ∷ rest) =
      IsGroundedMatch requirement match × AreGrounded matches rest
  AreGrounded _ _ = ⊥

  pub are_current-AreGrounded :
      (matches : List Match) (rs : List Requirement)
      → are_current m requirements matches rs ≡ true
      → every is_coerced matches ≡ true
      → AreGrounded matches rs
  unfolding are_current
  are_current-AreGrounded [] [] h k = tt
  are_current-AreGrounded [] (r ∷ rs) h k = cc
  are_current-AreGrounded (a ∷ matches) [] h k = cc
  are_current-AreGrounded (a ∷ matches) (r ∷ rs) h k = (
    record {
      of_requirement = ground (arith, h);
      grounded = ground (arith, h);
      coerced = ground (arith, k);
    },
    are_current-AreGrounded matches rs (ground (arith, h)) (ground (arith, k)),
  )

  pub find_coerced :
      (key : CacheKey) (rows : List MatchesRow) (matches : List Match)
      → find key rows ≡ some matches
      → every is_coerced matches ≡ true
  unfolding find parse_matches
  find_coerced key [] matches h = cc
  find_coerced key (r ∷ rows) matches h = elim (Bool-cases (same_key r.key key)) [
    | inl e ↦ parsed r.matches matches (rw e at h)
    | inr e ↦ find_coerced key rows matches (rw e at h)
  ]
    where
      parsed :
          (o : Option (List Match)) (matches : List Match)
          → parse_matches o ≡ some matches
          → every is_coerced matches ≡ true
      parsed none matches h = cc
      parsed (some found) matches h = elim (Bool-cases (every is_coerced found)) [
        | inl e ↦ subst (λ ms. every is_coerced ms ≡ true) (some-injective _ _ (rw e at h)) e
        | inr e ↦ absurd (ground (arith, h, e))
      ]

  admitted_evidence-is_grounded :
      (evidence : Option Text) (requirement : Requirement)
      → is_grounded m requirements
          (admitted_evidence m requirements evidence requirement)
          requirement
        ≡ true
  unfolding admitted_evidence
  admitted_evidence-is_grounded none requirement = refl
  admitted_evidence-is_grounded (some quote) requirement =
      elim (Bool-cases (is_grounded_quote m requirements quote requirement)) [
        | inl e ↦ rw (e, e) refl
        | inr e ↦ rw e refl
      ]

  create_match-IsGroundedMatch :
      (requirement : Requirement) (status : MatchStatus) (evidence : Option Text)
      → is_grounded m requirements evidence requirement ≡ true
      → IsGroundedMatch requirement (create_match requirement status evidence)
  unfolding create_match
  create_match-IsGroundedMatch requirement status none h = record {
    of_requirement = same_requirement_refl requirement;
    grounded = refl;
    coerced = refl;
  }
  create_match-IsGroundedMatch requirement status (some quote) h = record {
    of_requirement = same_requirement_refl requirement;
    grounded = h;
    coerced = refl;
  }

  unfoldable pub IsGroundedAnswer : Requirement → Answer → Type 0
  IsGroundedAnswer requirement (matched match rejected) = IsGroundedMatch requirement match
  IsGroundedAnswer requirement (unanswered attempts permanent) = Unit

  answer_of-IsGroundedAnswer :
      (requirement : Requirement) (result : LlmParseResult MatchOutput)
      → IsGroundedAnswer requirement (answer_of m requirements requirement result)
  unfolding answer_of IsGroundedAnswer
  answer_of-IsGroundedAnswer requirement (not_ok failure) = tt
  answer_of-IsGroundedAnswer requirement (ok output attempts) =
      create_match-IsGroundedMatch requirement output.status
        (admitted_evidence m requirements output.evidence requirement)
        (admitted_evidence-is_grounded output.evidence requirement)

  -- The saved answers are of their requirements.
  abbrev pub IsSaved : (ℕ → Option Match) → Type 0
  IsSaved saved =
      (index : ℕ) (requirement : Requirement) (match : Match)
      → item index requirements ≡ some requirement
      → saved index ≡ some match
      → (same_requirement match.requirement requirement ≡ true) × (is_coerced match ≡ true)

  pub ask_one-IsGroundedAnswer :
      (saved : ℕ → Option Match) (index : ℕ) (requirement : Requirement)
      → IsSaved saved
      → item index requirements ≡ some requirement
      → IsGroundedAnswer requirement (ask_one m requirements saved index requirement)
  unfolding ask_one served IsGroundedAnswer
  ask_one-IsGroundedAnswer saved index requirement s e =
      go (saved index) (λ match k. s index requirement match e k)
    where
      go :
          (o : Option Match)
          → ((match : Match)
              → o ≡ some match
              → (same_requirement match.requirement requirement ≡ true) × (is_coerced match ≡ true))
          → IsGroundedAnswer requirement
              (elim (served m requirements requirement o) as (λ _. Answer) [
                | some match ↦ matched match false
                | none ↦ answer_of m requirements requirement (m.ask index requirement)
              ])
      go none h = answer_of-IsGroundedAnswer requirement (m.ask index requirement)
      go (some match) h =
          elim (Bool-cases (is_grounded m requirements match.evidence requirement)) [
            | inl k ↦ rw k (record {
              of_requirement = (h match refl).0;
              grounded = k;
              coerced = (h match refl).1;
            })
            | inr k ↦ rw k (answer_of-IsGroundedAnswer requirement (m.ask index requirement))
          ]

  partial_of-IsSaved :
      (r : PartialRow) (requirement : Requirement) (match : Match)
      → partial_of r (some requirement) ≡ some match
      → (same_requirement match.requirement requirement ≡ true) × (is_coerced match ≡ true)
  unfolding partial_of
  partial_of-IsSaved r requirement match h = go r.match h
    where
      go :
          (o : Option Match)
          → elim o as (λ _. Option Match) [
            | none ↦ none
            | some saved ↦
                (if is_coerced saved && same_requirement saved.requirement requirement
                  then some saved
                  else none)
          ]
            ≡ some match
          → (same_requirement match.requirement requirement ≡ true) × (is_coerced match ≡ true)
      go none h = cc
      go (some saved) h =
          elim (Bool-cases (is_coerced saved && same_requirement saved.requirement requirement)) [
            | inl e ↦
                subst
                  (λ (x : Match).
                    (same_requirement x.requirement requirement ≡ true) × (is_coerced x ≡ true))
                  (some-injective _ _ (rw e at h)) (ground (arith, e), ground (arith, e))
            | inr e ↦ absurd (ground (arith, h, e))
          ]

  pub find_partial_at-IsSaved :
      (key : CacheKey) (index : ℕ) (rows : List PartialRow) (requirement : Requirement)
      (match : Match)
      → item index requirements ≡ some requirement
      → find_partial_at key requirements index rows ≡ some match
      → (same_requirement match.requirement requirement ≡ true) × (is_coerced match ≡ true)
  unfolding find_partial_at
  find_partial_at-IsSaved key index [] requirement match e h = cc
  find_partial_at-IsSaved key index (r ∷ rows) requirement match e h =
      elim (Option-cases (find_partial_at key requirements index rows)) [
        | inr (found, k) ↦
            find_partial_at-IsSaved key index rows requirement match e
              (k ∙ (rw (find_partial_at, k) at h))
        | inl k ↦ elim (Bool-cases (same_key r.key key && (r.requirement_index == index))) [
          | inl q ↦ partial_of-IsSaved r requirement match (rw (find_partial_at, k, q, e) at h)
          | inr q ↦ absurd (none_some match (rw (find_partial_at, k, q) at h))
        ]
      ]
    where
      none_some : (x : Match) → none ≡ some x → ⊥
      none_some x e = cc

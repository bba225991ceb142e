-- ===== src/StageB/Highlights.antt =====
-- That the highlights of recommendation.ts stand in the profile, for matches of stage-b-matcher.ts.
use argos_career.Base.{
  ℕ, ◌≡◌, inl, inr, Bool, true, ◌&&◌, not, Bool-cases, Text, same, include, is_empty, Option, none,
  some, List, [], ◌∷◌, All, any, arith,
}
use argos_career.Scoring.Types.{Requirement, RequirementWeight, MatchStatus, Match}
use argos_career.Posting.Unicode.{Unicode}
use argos_career.Evidence.Catalog.{EvidenceCatalogEntry, build_evidence_catalog}
use argos_career.Evidence.Provenance.{strip_evidence_tag, is_known_profile_evidence}
use argos_career.Evidence.Recommendation.{
  is_met, is_required, highlight, highlights_from, compute_recommendation,
}
use argos_career.StageB.Matches.{Store}
use argos_career.StageB.Matcher.{Matching, matches_found, is_grounded, is_grounded_quote, match_}
use argos_career.StageB.Answers.{AreGrounded}
use argos_career.StageB.Grounded.{match-AreGrounded}

All-include : (P : Text → Type 0) (s : List Text) (k : Text) → P k → All P s → All P (include s k)
unfolding include
All-include P [] k h hs = (h, tt)
All-include P (j ∷ s) k h hs = elim (Bool-cases (same j k)) [
  | inl e ↦ rw e hs
  | inr e ↦ rw e (hs.0, All-include P s k h hs.1)
]

module _ (m : Matching) (requirements : List Requirement) where
  -- The text of an entry of the catalog, less its tag.
  abbrev pub IsInCatalog : Text → Type 0
  IsInCatalog text =
      any (λ (e : EvidenceCatalogEntry). same (strip_evidence_tag e.text) text)
        (build_evidence_catalog m.profile m.evaluated_at)
      ≡ true

  highlight-AreKnown :
      (highlights : List Text) (weight : RequirementWeight) (status : MatchStatus)
      (evidence : Option Text) (r : Requirement)
      → is_grounded m requirements evidence r ≡ true
      → All IsInCatalog highlights
      → All IsInCatalog (highlight highlights weight status evidence)
  unfolding highlight is_grounded_quote is_known_profile_evidence
  highlight-AreKnown highlights weight status none r g h = h
  highlight-AreKnown highlights weight status (some evidence) r g h =
      elim (Bool-cases (is_met status && is_required weight && not (is_empty evidence))) [
        | inl e ↦
            rw e (
              All-include IsInCatalog highlights (strip_evidence_tag evidence) (ground (arith, g))
                h)
        | inr e ↦ rw e h
      ]

  highlights_from-AreKnown :
      (highlights : List Text) (matches : List Match) (rs : List Requirement)
      → AreGrounded m requirements matches rs
      → All IsInCatalog highlights
      → All IsInCatalog (highlights_from highlights matches)
  unfolding highlights_from
  highlights_from-AreKnown highlights [] rs g h = h
  highlights_from-AreKnown highlights (match ∷ matches) [] g h = absurd g
  highlights_from-AreKnown highlights (match ∷ matches) (r ∷ rs) g h =
      highlights_from-AreKnown
        (highlight highlights match.requirement.weight match.status match.evidence) matches rs g.1
        (highlight-AreKnown highlights match.requirement.weight match.status match.evidence r
          g.0.grounded h)

  -- Each highlight that is recommended for the matches of a stage B run is the text of an entry of
  -- the evidence catalog of the profile on the day of the run, whatever the model answered.
  pub compute_recommendation-highlights :
      (u : Unicode) (store : Store) (matches : List Match) (cached : Bool) (count : ℕ)
      → (match_ m requirements store).1 ≡ matches_found matches cached count
      → All IsInCatalog (compute_recommendation u matches m.profile m.evaluated_at).highlights
  unfolding compute_recommendation
  compute_recommendation-highlights u store matches cached count e =
      highlights_from-AreKnown [] matches requirements
        (match-AreGrounded m requirements store matches cached count e) tt

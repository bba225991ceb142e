-- ===== src/Scoring/Types.antt =====
-- src/scoring/domain/types.ts.
use argos_career.Base.{ℕ, Text, Bool, true, Option, none, some, List, []}
use argos_career.Scoring.Number.{Double}

pub data RequirementWeight : Type 0 where
  blocking mandatory desirable : RequirementWeight

pub data MatchStatus : Type 0 where
  met partial not_met : MatchStatus

pub record Requirement : Type 0 where
  pub text : Text
  pub category : Text
  pub weight : RequirementWeight
  pub verifiable : Option Bool

-- Absent means verifiable.
unfoldable pub is_verifiable : Requirement → Bool
is_verifiable requirement = elim requirement.verifiable [ some b ↦ b | none ↦ true ]

pub record Match : Type 0 where
  pub requirement : Requirement
  pub status : MatchStatus
  pub evidence : Option Text

unfoldable pub create_match : Requirement → MatchStatus → Option Text → Match
create_match requirement status evidence = record {
  requirement = requirement;
  status = elim evidence [ none ↦ not_met | some _ ↦ status ];
  evidence = evidence;
}

-- The tracks that a profile may name; `data_track` is "data".
pub data ProfileTrack : Type 0 where
  dev security automation data_track : ProfileTrack

pub data Track : Type 0 where
  of_profile : ProfileTrack → Track
  unknown : Track

pub data Verdict : Type 0 where
  apply review discard : Verdict

pub record ScoringWeights (D : Type 0) : Type 0 where
  pub mandatory_weight : D
  pub desirable_weight : D
  pub track_alignment_weight : D

pub record ScoringThresholds (D : Type 0) : Type 0 where
  pub apply_from : D
  pub review_from : D

pub record TrackWeights (D : Type 0) : Type 0 where
  pub dev_weight : D
  pub security_weight : D
  pub automation_weight : D
  pub data_weight : D
  pub unknown_weight : D

pub record ScoringConfig (D : Type 0) : Type 0 where
  pub weights : ScoringWeights D
  pub thresholds : ScoringThresholds D
  pub track_weights : TrackWeights D
  pub min_extracted_requirements : ℕ
  pub blocking_cap_score : D
  pub unknown_track_cap_score : D

pub record ScoreBreakdown (D : Type 0) : Type 0 where
  pub mandatory_coverage : D
  pub desirable_coverage : D
  pub track_alignment : D

pub record PeriodGate : Type 0 where
  pub minimum_period : ℕ
  pub opens_at_label : Text

pub data ScoreFailureReason : Type 0 where
  invalid_output extraction_failed matching_failed max_retries_exceeded : ScoreFailureReason

pub record ScoreOutcome (D : Type 0) : Type 0 where
  pub score : D
  pub verdict : Verdict
  pub breakdown : ScoreBreakdown D
  pub blocking_failure : Option Requirement
  pub blocking_failures : List Requirement
  pub low_confidence : Bool
  pub critical_gaps : List Requirement
  pub period_gate : Option PeriodGate
  pub score_failure_reason : Option ScoreFailureReason

unfoldable pub score_failure_outcome :
    {D : Type 0} ⦃d : Double D⦄ → ScoreFailureReason → ScoreOutcome D
score_failure_outcome ⦃d⦄ reason = record {
  score = d.of_nat 0;
  verdict = review;
  breakdown = record {
    mandatory_coverage = d.of_nat 0;
    desirable_coverage = d.of_nat 0;
    track_alignment = d.of_nat 0;
  };
  blocking_failure = none;
  blocking_failures = [];
  low_confidence = true;
  critical_gaps = [];
  period_gate = none;
  score_failure_reason = some reason;
}

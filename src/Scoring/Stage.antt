-- ===== src/Scoring/Stage.antt =====
-- src/scoring/domain/score.ts: `computeScore`, over any type of doubles.
use argos_career.Base.{
  Bool, true, false, not, ◌&&◌, ◌||◌, Option, none, some, List, [], ◌∷◌, map, filter, length, head?,
  if◌then◌else◌, ltb,
}
use argos_career.Profile.Period.{UtcDate, compute_academic_period, period_calendar_label}
use argos_career.Scoring.Number.{Double, min_of, max_of}
use argos_career.Scoring.Types.{
  RequirementWeight, blocking, mandatory, desirable, MatchStatus, met, partial, not_met,
  Requirement, is_verifiable, Match, dev, security, automation, data_track, Track, of_profile,
  unknown, Verdict, apply, review, discard, ScoringThresholds, TrackWeights, ScoringConfig,
  ScoreOutcome, PeriodGate,
}
use argos_career.Scoring.PeriodGate.{detect_period_gate}

-- Equality of the enums, as `===` tests it.

abbrev pub same_weight : RequirementWeight → RequirementWeight → Bool
same_weight blocking blocking = true
same_weight mandatory mandatory = true
same_weight desirable desirable = true
same_weight _ _ = false

abbrev pub is_met : MatchStatus → Bool
is_met met = true
is_met _ = false

unfoldable pub verifiable_matches : List Match → List Match
verifiable_matches = filter (λ m. is_verifiable m.requirement)

abbrev pub fails_blocking : Match → Bool
fails_blocking m = same_weight m.requirement.weight blocking && not (is_met m.status)

unfoldable pub find_blocking_failures : List Match → List Requirement
unfolding verifiable_matches
find_blocking_failures matches =
    map (λ (m : Match). m.requirement) (filter fails_blocking (verifiable_matches matches))

abbrev pub is_critical : Match → Bool
is_critical m =
    (same_weight m.requirement.weight mandatory || same_weight m.requirement.weight blocking)
    && not (is_met m.status)

unfoldable pub compute_critical_gaps : List Match → List Requirement
unfolding verifiable_matches
compute_critical_gaps matches =
    map (λ (m : Match). m.requirement) (filter is_critical (verifiable_matches matches))

pub record AcademicContext : Type 0 where
  pub course_start : UtcDate
  pub today : UtcDate

abbrev pub is_nil : {A : Type 0} → List A → Bool
is_nil [] = true
is_nil (x ∷ xs) = false

-- A verdict under low confidence.
abbrev pub hold_back : Bool → Verdict → Verdict
hold_back true apply = review
hold_back _ verdict = verdict

module _ {D : Type 0} ⦃d : Double D⦄ where
  open d use {of_nat, half, add, mul, div, le}

  unfoldable pub status_weight : MatchStatus → D
  status_weight met = of_nat 1
  status_weight partial = half
  status_weight not_met = of_nat 0

  -- The sum of `coverage`, a reduction from the left.
  unfoldable pub sum_of : D → List Match → D
  unfolding status_weight
  sum_of total [] = total
  sum_of total (m ∷ ms) = sum_of (add total (status_weight m.status)) ms

  unfoldable pub share_of : List Match → D
  unfolding sum_of
  share_of [] = of_nat 1
  share_of (m ∷ ms) = div (sum_of (of_nat 0) (m ∷ ms)) (of_nat (length (m ∷ ms)))

  unfoldable pub coverage : List Match → RequirementWeight → D
  unfolding share_of verifiable_matches
  coverage matches weight =
      share_of (filter (λ m. same_weight m.requirement.weight weight) (verifiable_matches matches))

  unfoldable pub weight_of : TrackWeights D → Track → D
  weight_of weights (of_profile dev) = weights.dev_weight
  weight_of weights (of_profile security) = weights.security_weight
  weight_of weights (of_profile automation) = weights.automation_weight
  weight_of weights (of_profile data_track) = weights.data_weight
  weight_of weights unknown = weights.unknown_weight

  -- `Math.max` of a list that is not empty.
  unfoldable pub max_from : TrackWeights D → D → List Track → D
  unfolding weight_of
  max_from weights best [] = best
  max_from weights best (t ∷ ts) = max_from weights (max_of best (weight_of weights t)) ts

  unfoldable pub compute_track_alignment : List Track → TrackWeights D → D
  unfolding max_from weight_of
  compute_track_alignment [] weights = weights.unknown_weight
  compute_track_alignment (t ∷ ts) weights = max_from weights (weight_of weights t) ts

  unfoldable pub compute_verdict : D → ScoringThresholds D → Verdict
  compute_verdict score thresholds =
      if le thresholds.apply_from score
      then apply
      else if le thresholds.review_from score
      then review
      else discard

  unfoldable pub raw_score_of : List Match → List Track → ScoringConfig D → D
  unfolding coverage compute_track_alignment
  raw_score_of matches tracks config =
      add
        (add (mul config.weights.mandatory_weight (coverage matches mandatory))
          (mul config.weights.desirable_weight (coverage matches desirable)))
        (mul config.weights.track_alignment_weight
          (compute_track_alignment tracks config.track_weights))

  abbrev pub cap_if : Bool → D → D → D
  cap_if b cap_score score = if b then min_of score cap_score else score

  -- The two caps, and the clamp.
  unfoldable pub capped_score : List Requirement → List Track → ScoringConfig D → D → D
  capped_score blocking_failures tracks config raw_score =
      let blocked = cap_if (not (is_nil blocking_failures)) config.blocking_cap_score raw_score in
      let off_track = cap_if (is_nil tracks) config.unknown_track_cap_score blocked in
      min_of (of_nat 100) (max_of (of_nat 0) off_track)

  unfoldable pub period_gate_of :
      Option AcademicContext → D → ScoringConfig D → List Requirement → Option PeriodGate
  period_gate_of none raw_score config blocking_failures = none
  period_gate_of (some context) raw_score config blocking_failures =
      if le config.thresholds.review_from raw_score
      then detect_period_gate blocking_failures
          (compute_academic_period context.course_start context.today)
          (period_calendar_label context.course_start)
      else none

  unfoldable pub compute_score :
      List Match → List Track → ScoringConfig D → Option AcademicContext → ScoreOutcome D
  unfolding raw_score_of capped_score period_gate_of compute_verdict find_blocking_failures
      compute_critical_gaps
  compute_score matches tracks config academic_context =
      let raw_score = raw_score_of matches tracks config in
      let blocking_failures = find_blocking_failures matches in
      let score = capped_score blocking_failures tracks config raw_score in
      let low_confidence =
        ltb (length (verifiable_matches matches)) config.min_extracted_requirements in
      record {
        score = score;
        verdict = hold_back low_confidence (compute_verdict score config.thresholds);
        breakdown = record {
          mandatory_coverage = coverage matches mandatory;
          desirable_coverage = coverage matches desirable;
          track_alignment = compute_track_alignment tracks config.track_weights;
        };
        blocking_failure = head? blocking_failures;
        blocking_failures = blocking_failures;
        low_confidence = low_confidence;
        critical_gaps = compute_critical_gaps matches;
        period_gate = period_gate_of academic_context raw_score config blocking_failures;
        score_failure_reason = none;
      }

-- ===== src/Scoring/Examples.antt =====
-- The theorems on stage C at a posting with one blocking and two other requirements.
use argos_career.Base.{
  ℕ, Bool, ◌≤◌, ◌≡◌, refl, ◌≢◌, ◌↔◌, ◌⊎◌, Text, codes, true, false, Option, none, some, List, [],
  ◌∷◌, length, arith,
}
use argos_career.Profile.Period.{
  period_calendar_term, UtcDate, compute_academic_period, period_calendar_label,
}
use argos_career.Scoring.Number.{◌≼◌}
use argos_career.Scoring.Types.{
  RequirementWeight, blocking, mandatory, met, partial, not_met, Requirement, Match, Track,
  of_profile, dev, security, automation, data_track, unknown, apply, discard, ScoringConfig,
  PeriodGate, is_verifiable,
}
use argos_career.Scoring.PeriodGate.{detect_period_gate, extract_minimum_period}
use argos_career.Scoring.Stage.{
  AcademicContext, verifiable_matches, find_blocking_failures, raw_score_of, compute_score,
  weight_of,
}
use argos_career.Scoring.Fixed.{fixed, fixed-IsDouble}
use argos_career.Scoring.Coverage.{IsShare, IsInRange, compute_score_bounds}
use argos_career.Scoring.Verdict.{compute_score-apply_iff, compute_score-verifiable_matches}
use argos_career.Scoring.Gate.{IsGated, compute_score-period_gate, compute_score-period_gate_opens}
use argos_career.Scoring.Monotone.{compute_score_mono}

abbrev requirement : Text → RequirementWeight → Option Bool → Requirement
requirement text weight verifiable = record {
  text = text;
  category = codes "x";
  weight = weight;
  verifiable = verifiable;
}

abbrev period_match : Match
period_match = record {
  requirement = requirement (codes "A partir do 4º período") blocking none;
  status = not_met;
  evidence = none;
}

abbrev python_match : Match
python_match = record {
  requirement = requirement (codes "Python") mandatory (some true);
  status = partial;
  evidence = some (codes "q");
}

abbrev trait_match : Match
trait_match = record {
  requirement = requirement (codes "Dinamismo") blocking (some false);
  status = not_met;
  evidence = none;
}

abbrev better_match : Match
better_match = record python_match { status = met }

abbrev sample : List Match
sample = period_match ∷ python_match ∷ trait_match ∷ []

abbrev better_sample : List Match
better_sample = period_match ∷ better_match ∷ trait_match ∷ []

-- config/criteria.yaml's weights, thresholds and caps, in thousandths.
abbrev config : ScoringConfig ℕ
config = record {
  weights = record {
    mandatory_weight = 65_000;
    desirable_weight = 20_000;
    track_alignment_weight = 15_000;
  };
  thresholds = record { apply_from = 75_000; review_from = 50_000 };
  track_weights = record {
    dev_weight = 1000;
    security_weight = 1000;
    automation_weight = 700;
    data_weight = 700;
    unknown_weight = 400;
  };
  min_extracted_requirements = 1;
  blocking_cap_score = 35_000;
  unknown_track_cap_score = 35_000;
}

abbrev tracks : List Track
tracks = of_profile dev ∷ []

-- A course that began in August 2025, and a day in its second period.
abbrev start : UtcDate
start = record { utc_full_year = 2025; utc_month = 7 }

abbrev context : AcademicContext
context = record { course_start = start; today = record { utc_full_year = 2026; utc_month = 2 } }

abbrev gate : PeriodGate
gate = record { minimum_period = 4; opens_at_label = codes "2027.1" }

failing : find_blocking_failures sample ≢ []
unfolding find_blocking_failures is_verifiable
failing h = cc

score_runs :
    ((compute_score sample tracks config none).score ≡ 35_000)
    × (raw_score_of sample tracks config ≡ 67_500)
    × ((compute_score sample tracks config none).verdict ≡ discard)
    × ((compute_score sample tracks config (some context)).period_gate ≡ some gate)
unfolding compute_score raw_score_of find_blocking_failures is_verifiable compute_academic_period
    period_calendar_label detect_period_gate extract_minimum_period
score_runs = (refl, refl, refl, refl)

config-IsInRange : IsInRange fixed-IsDouble config
unfolding weight_of
config-IsInRange = record {
  mandatory_nonneg = refl;
  desirable_nonneg = refl;
  alignment_nonneg = refl;
  track_share = λ t. shares t;
  blocking_nonneg = refl;
  unknown_nonneg = refl;
}
  where
    shares : (t : Track) → IsShare fixed-IsDouble (weight_of config.track_weights t)
    shares (of_profile dev) = (refl, refl)
    shares (of_profile security) = (refl, refl)
    shares (of_profile automation) = (refl, refl)
    shares (of_profile data_track) = (refl, refl)
    shares unknown = (refl, refl)

compute_score_bounds_example :
    let outcome = compute_score sample tracks config none in
    (◌≼◌ {D = ℕ} 0 outcome.score)
    × (◌≼◌ {D = ℕ} outcome.score 100_000)
    × (◌≼◌ {D = ℕ} outcome.score (raw_score_of sample tracks config))
    × (◌≼◌ {D = ℕ} (raw_score_of sample tracks config) 100_000)
    × ((find_blocking_failures sample ≡ []) ⊎ (◌≼◌ {D = ℕ} outcome.score 35_000))
    × (((t : Track) × (ts : List Track) × (tracks ≡ t ∷ ts)) ⊎ (◌≼◌ {D = ℕ} outcome.score 35_000))
compute_score_bounds_example =
    compute_score_bounds fixed-IsDouble sample tracks config none config-IsInRange

compute_score-apply_iff_example : ((compute_score sample tracks config none).verdict ≡ apply) ↔ (
    (◌≼◌ {D = ℕ} 75_000 (compute_score sample tracks config none).score)
    × (1 ≤ length (verifiable_matches sample)))
compute_score-apply_iff_example = compute_score-apply_iff sample tracks config none

compute_score-verifiable_matches_example :
    compute_score (verifiable_matches sample) tracks config none
    ≡ compute_score sample tracks config none
compute_score-verifiable_matches_example =
    compute_score-verifiable_matches sample tracks config none

compute_score_mono_example :
    ◌≼◌ {D = ℕ}
      (compute_score sample tracks config none).score
      (compute_score better_sample tracks config none).score
compute_score_mono_example =
    compute_score_mono fixed-IsDouble sample better_sample tracks config none refl refl
      ((refl, omega arith, (refl, omega arith, (refl, omega arith, tt))))

compute_score-period_gate_example :
    ((compute_score sample tracks config (some context)).period_gate ≡ some gate) ↔ (
      (◌≼◌ {D = ℕ} 50_000 (raw_score_of sample tracks config))
      × IsGated sample tracks config context gate)
compute_score-period_gate_example = compute_score-period_gate sample tracks config context gate

-- March 2027.
abbrev opening_day : UtcDate
opening_day = record { utc_full_year = 2027; utc_month = 2 }

compute_score-period_gate_opens_example :
    (compute_score sample tracks config
      (some (record { course_start = start; today = opening_day }))).period_gate
    ≡ none
unfolding period_calendar_term
compute_score-period_gate_opens_example =
    compute_score-period_gate_opens sample tracks config context gate opening_day score_runs.3 refl

-- ===== src/Scoring/Gate.antt =====
-- When the outcome of score.ts carries a period gate, and until when.
use argos_career.Base.{
  ℕ, ◌+◌, ◌*◌, ◌≤◌, ◌<◌, ◌↔◌, ◌≡◌, refl, inl, inr, Text, true, false, none, some, List, [], ◌∷◌,
  arith, Bool-cases,
}
use argos_career.Profile.Period.{
  UtcDate, AcademicPeriod, Term, compute_academic_period, period_calendar_term,
  period_calendar_label,
}
use argos_career.Profile.Calendar.{term_of, compute_academic_period-period_calendar_term}
use argos_career.Scoring.Number.{Double, ◌≼◌}
use argos_career.Scoring.Types.{Requirement, Match, Track, ScoringConfig, PeriodGate}
use argos_career.Scoring.PeriodGate.{
  Matcher, period_patterns, extract_minimum_period, extract_from, gate_passed, gate_of,
  detect_period_gate,
}
use argos_career.Scoring.Stage.{
  find_blocking_failures, raw_score_of, AcademicContext, period_gate_of, compute_score,
}

extract_from_bounds :
    (patterns : List Matcher) (text : Text) (n : ℕ)
    → extract_from patterns text ≡ some n
    → (1 ≤ n) × (n ≤ 8)
unfolding extract_from
extract_from_bounds [] text n h = cc
extract_from_bounds (p ∷ ps) text n h = ground (arith, extract_from_bounds ps text n)

-- A period read out of a requirement is one of the course's, from 1 to 8.
pub extract_minimum_period_bounds :
    (text : Text) (n : ℕ) → extract_minimum_period text ≡ some n → (1 ≤ n) × (n ≤ 8)
unfolding extract_minimum_period
extract_minimum_period_bounds text n h = extract_from_bounds period_patterns text n h

gate_of-some :
    (r : Requirement) (p : AcademicPeriod) (label : ℕ → Text) (g : PeriodGate)
    → gate_of r p label ≡ some g
    → (extract_minimum_period r.text ≡ some g.minimum_period)
      × (gate_passed p g.minimum_period ≡ false)
      × (g.opens_at_label ≡ label g.minimum_period)
unfolding gate_of
gate_of-some r p label g h = ground arith

detect_some :
    (rs : List Requirement) (p : AcademicPeriod) (label : ℕ → Text) (g : PeriodGate)
    → detect_period_gate rs p label ≡ some g
    → (r : Requirement) × (rs ≡ r ∷ [])
      × (extract_minimum_period r.text ≡ some g.minimum_period)
      × (gate_passed p g.minimum_period ≡ false)
      × (g.opens_at_label ≡ label g.minimum_period)
unfolding detect_period_gate
detect_some [] p label g h = cc
detect_some (r ∷ []) p label g h = let (a, b, c) = gate_of-some r p label g h in (r, refl, a, b, c)
detect_some (r ∷ q ∷ rs) p label g h = cc

detect_passed :
    (rs : List Requirement) (p : AcademicPeriod) (label : ℕ → Text) (n : ℕ) (r : Requirement)
    → rs ≡ r ∷ []
    → extract_minimum_period r.text ≡ some n
    → gate_passed p n ≡ true
    → detect_period_gate rs p label ≡ none
unfolding detect_period_gate gate_of
detect_passed rs p label n r single parsed passed = rw single (ground arith)

-- The number of a calendar half-year.
abbrev pub half_year : Term → ℕ
half_year term = 2 * term.year + term.half

gate_passed_iff :
    (course_start today : UtcDate) (n : ℕ)
    → 1 ≤ n
    → n ≤ 8
    → (gate_passed (compute_academic_period course_start today) n ≡ false)
      ↔ (half_year (term_of today) < half_year (period_calendar_term course_start n))
unfolding gate_passed compute_academic_period period_calendar_term
gate_passed_iff course_start today n low high = (λ h. ground arith, λ h. ground arith)

detect_ahead :
    (rs : List Requirement) (p : AcademicPeriod) (label : ℕ → Text) (g : PeriodGate)
    (r : Requirement)
    → rs ≡ r ∷ []
    → extract_minimum_period r.text ≡ some g.minimum_period
    → gate_passed p g.minimum_period ≡ false
    → g.opens_at_label ≡ label g.minimum_period
    → detect_period_gate rs p label ≡ some g
unfolding detect_period_gate gate_of
detect_ahead rs p label g r single parsed ahead named = rw single (ground arith)

module _ {D : Type 0} ⦃d : Double D⦄ (matches : List Match) (tracks : List Track)
    (config : ScoringConfig D) where
  -- The one blocking requirement that fails asks for the gate's period, from 1 to 8, whose calendar
  -- half-year is still to come, and names the gate.
  abbrev pub IsGated : AcademicContext → PeriodGate → Type 0
  IsGated context gate =
      (r : Requirement) × (find_blocking_failures matches ≡ r ∷ [])
      × (extract_minimum_period r.text ≡ some gate.minimum_period)
      × (1 ≤ gate.minimum_period)
      × (gate.minimum_period ≤ 8)
      × (half_year (term_of context.today)
          < half_year (period_calendar_term context.course_start gate.minimum_period))
      × (gate.opens_at_label ≡ period_calendar_label context.course_start gate.minimum_period)

  -- The outcome carries a gate exactly when the uncapped score reaches the threshold for review,
  -- exactly one blocking requirement fails, the gate's period is the one that its text asks for, from
  -- 1 to 8, the calendar half-year of that period is after that of the day, and the gate's label is
  -- that of the period.
  pub compute_score-period_gate :
      (context : AcademicContext) (gate : PeriodGate)
      → ((compute_score matches tracks config (some context)).period_gate ≡ some gate) ↔ (
          (config.thresholds.review_from ≼ raw_score_of matches tracks config)
          × IsGated context gate)
  unfolding compute_score period_gate_of
  compute_score-period_gate context gate = (
    λ h.
        elim (Bool-cases
          (d.le config.thresholds.review_from (raw_score_of matches tracks config))) [
            | inl e ↦
                let (r, single, parsed, ahead, label) =
                  detect_some (find_blocking_failures matches) _ _ gate (rw e at h) in
                let (low, high) = extract_minimum_period_bounds r.text gate.minimum_period parsed in
                let to_come =
                  (gate_passed_iff context.course_start context.today gate.minimum_period low
                      high).0
                    ahead in
                (e, (r, single, parsed, low, high, to_come, label))
            | inr e ↦ absurd (ground arith)
          ],
    λ (e, (r, single, parsed, low, high, to_come, label)). rw e (
        detect_ahead (find_blocking_failures matches) _ _ gate r single parsed
          ((gate_passed_iff context.course_start context.today gate.minimum_period low high).1
            to_come)
          label),
  )

  -- The gate opens when its label says: if the outcome carries a gate now, the outcome of the same
  -- matches on any day of the gate's calendar term carries none.
  pub compute_score-period_gate_opens :
      (context : AcademicContext) (gate : PeriodGate) (day : UtcDate)
      → (compute_score matches tracks config (some context)).period_gate ≡ some gate
      → period_calendar_term context.course_start gate.minimum_period ≡ term_of day
      → (compute_score matches tracks config (some (record context { today = day }))).period_gate
        ≡ none
  unfolding compute_score period_gate_of gate_passed
  compute_score-period_gate_opens context gate day h term =
      let (_, (r, single, parsed, low, high, _, _)) =
        (compute_score-period_gate context gate).0 h in
      let reached =
        compute_academic_period-period_calendar_term context.course_start day gate.minimum_period
          low high term in
      let passed : gate_passed (compute_academic_period context.course_start day)
            gate.minimum_period
          ≡ true =
        rw reached (ground arith) in
      let closed =
        detect_passed (find_blocking_failures matches)
          (compute_academic_period context.course_start day)
          (period_calendar_label context.course_start) gate.minimum_period r single parsed passed in
      ground (arith, closed)

-- ===== src/Profile/Calendar.antt =====
-- Properties of academic-period.ts: the period of a date and the calendar term of a period.
use argos_career.Base.{ℕ, ◌+◌, ◌≤◌, ◌≡◌, if◌then◌else◌, leb, arith}
use argos_career.Profile.Period.{
  UtcDate, in_progress, compute_academic_period, Term, period_calendar_term,
}

-- The calendar half-year that a date lies in.

abbrev pub term_of : UtcDate → Term
term_of date = record {
  year = date.utc_full_year;
  half = if leb 7 (date.utc_month + 1) then 2 else 1;
}

-- Whenever the period of a date is computed to be in progress, it is from 1 to 8, and the calendar
-- term of that period is the half-year of the date.
pub period_calendar_term-compute_academic_period :
    (course_start today : UtcDate) (period : ℕ)
    → compute_academic_period course_start today ≡ in_progress period
    → (1 ≤ period) × (period ≤ 8) × (period_calendar_term course_start period ≡ term_of today)
unfolding compute_academic_period period_calendar_term
period_calendar_term-compute_academic_period course_start today period h =
    (ground arith, ground arith, ground arith)

-- For each period from 1 to 8, any date in the calendar term of that period has that period.
pub compute_academic_period-period_calendar_term :
    (course_start today : UtcDate) (period : ℕ)
    → 1 ≤ period
    → period ≤ 8
    → period_calendar_term course_start period ≡ term_of today
    → compute_academic_period course_start today ≡ in_progress period
unfolding compute_academic_period period_calendar_term
compute_academic_period-period_calendar_term course_start today period low high h = ground arith

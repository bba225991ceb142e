-- ===== src/Profile/Examples.antt =====
-- The theorems on academic-period.ts at the course that began in August 2025.
use argos_career.Base.{◌≤◌, ◌≡◌, refl}
use argos_career.Profile.Period.{
  UtcDate, in_progress, compute_academic_period, period_calendar_term,
}
use argos_career.Profile.Calendar.{term_of, period_calendar_term-compute_academic_period}

abbrev start : UtcDate
start = record { utc_full_year = 2025; utc_month = 7 }

-- March 2027.
abbrev day : UtcDate
day = record { utc_full_year = 2027; utc_month = 2 }

period_of_day : compute_academic_period start day ≡ in_progress 4
unfolding compute_academic_period
period_of_day = refl

term_of_period : period_calendar_term start 4 ≡ term_of day
unfolding period_calendar_term
term_of_period = refl

period_calendar_term-compute_academic_period_example :
    (1 ≤ 4) × (4 ≤ 8) × (period_calendar_term start 4 ≡ term_of day)
period_calendar_term-compute_academic_period_example =
    period_calendar_term-compute_academic_period start day 4 period_of_day

-- ===== src/Profile/Period.antt =====
-- src/profile/domain/academic-period.ts. A `Date` is what its UTC getters return; the year and the
-- month are from the calendar of our era, so they are naturals.
use argos_career.Base.{
  ℕ, ◌+◌, ◌-◌, ◌*◌, ◌/◌, ◌%◌, Text, codes, decimal, if◌then◌else◌, ltb, leb, ◌==◌, ◌++◌,
}

pub record UtcDate : Type 0 where
  pub utc_full_year : ℕ
  pub utc_month : ℕ

unfoldable pub absolute_semester_index : UtcDate → ℕ
absolute_semester_index date =
    let month = date.utc_month + 1 in date.utc_full_year * 2 + (if leb 7 month then 1 else 0)

pub data AcademicPeriod : Type 0 where
  not_started : AcademicPeriod
  in_progress : ℕ → AcademicPeriod
  completed : AcademicPeriod

-- `rawPeriod` is below 1 just when the index of `today` is below that of the start; from there on
-- the truncated subtraction is exact.
unfoldable pub compute_academic_period : UtcDate → UtcDate → AcademicPeriod
unfolding absolute_semester_index
compute_academic_period course_start today =
    let from = absolute_semester_index course_start in
    let to = absolute_semester_index today in
    let raw_period = to + 1 - from in
    if ltb to from
    then not_started
    else if ltb 8 raw_period
    then completed
    else in_progress raw_period

-- The two parts of a calendar term, `2027.1`.
pub record Term : Type 0 where
  pub year : ℕ
  pub half : ℕ

-- A period is at least 1 where the source calls this, so `period - 1` is exact.
unfoldable pub period_calendar_term : UtcDate → ℕ → Term
unfolding absolute_semester_index
period_calendar_term course_start period =
    let target_index = absolute_semester_index course_start + period - 1 in
    let half = if target_index % 2 == 0 then 1 else 2 in
    record { year = if half == 1 then target_index / 2 else (target_index - 1) / 2; half = half }

unfoldable pub period_calendar_label : UtcDate → ℕ → Text
unfolding period_calendar_term decimal
period_calendar_label course_start period =
    let term = period_calendar_term course_start period in
    decimal term.year ++ codes "." ++ decimal term.half

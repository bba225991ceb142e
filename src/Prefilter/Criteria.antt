-- ===== src/Prefilter/Criteria.antt =====
-- src/prefilter/domain/criteria.ts: the part of the criteria that the pre-filter and the ranking
-- read, as the schema has parsed it. Whole days and hours.
use argos_career.Base.{ℕ, Bool, Text, Option, List}
use argos_career.Scoring.Types.{ProfileTrack, TrackWeights}

pub record LocationCriteria : Type 0 where
  pub cities : List Text
  pub allow_remote : Bool
  pub nationwide_sources : List Text

pub record TrackExclusions : Type 0 where
  pub dev_exclusions : List Text
  pub security_exclusions : List Text
  pub automation_exclusions : List Text
  pub data_exclusions : List Text

pub record Criteria (D : Type 0) : Type 0 where
  pub title_blocklist : List Text
  pub title_required : List Text
  pub location_criteria : LocationCriteria
  pub blocked_companies : List Text
  pub min_keyword_adherence : ℕ
  pub max_age_days : Option ℕ
  pub undated_backlog_cutover_at : Option ℕ
  pub still_listed_within_hours : Option ℕ
  pub still_listed_max_age_days : Option ℕ
  pub max_future_skew_days : ℕ
  pub tracks : List (ProfileTrack × List Text)
  pub track_exclusions : TrackExclusions
  pub reject_unknown_track : Bool
  pub track_weights : TrackWeights D

-- ===== src/Prefilter/Sample.antt =====
-- Criteria for the examples.
use argos_career.Base.{ℕ, true, codes, none, some, [], ◌∷◌}
use argos_career.Scoring.Types.{dev}
use argos_career.Prefilter.Criteria.{Criteria}

abbrev pub criteria : Criteria ℕ
criteria = record {
  title_blocklist = codes "IV" ∷ [];
  title_required = codes "estagio" ∷ [];
  location_criteria = record {
    cities = codes "Rio de Janeiro" ∷ [];
    allow_remote = true;
    nationwide_sources = codes "ciee" ∷ [];
  };
  blocked_companies = [];
  min_keyword_adherence = 0;
  max_age_days = some 7;
  undated_backlog_cutover_at = none;
  still_listed_within_hours = some 48;
  still_listed_max_age_days = some 30;
  max_future_skew_days = 1;
  tracks = (dev, codes "backend" ∷ codes "back-end" ∷ []) ∷ [];
  track_exclusions = record {
    dev_exclusions = [];
    security_exclusions = [];
    automation_exclusions = [];
    data_exclusions = [];
  };
  reject_unknown_track = true;
  track_weights = record {
    dev_weight = 1000;
    security_weight = 1000;
    automation_weight = 700;
    data_weight = 700;
    unknown_weight = 400;
  };
}

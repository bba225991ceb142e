-- ===== src/Prefilter/Freshness.antt =====
-- The deadline and the age of a posting in pre-filter.ts: its tests against its dates.
use argos_career.Base.{ℕ, Bool, ◌&&◌}
use argos_career.Posting.Unicode.{Unicode}
use argos_career.Posting.Posting.{Posting}
use argos_career.Prefilter.Criteria.{Criteria}
use argos_career.Prefilter.Rules.{reference_of, is_still_listed_by_source, within_ceiling}

module _ {D : Type 0} (posting : Posting) (criteria : Criteria D) (now : ℕ) where
  rescued : Bool
  rescued =
      is_still_listed_by_source posting criteria.still_listed_within_hours now
      && within_ceiling (reference_of posting criteria.max_future_skew_days now)
          criteria.still_listed_max_age_days now

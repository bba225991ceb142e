-- ===== src/Prefilter/Dates.antt =====
-- When a posting is open and recent, in terms of its dates: what pre-filter.ts tests.
use argos_career.Base.{ℕ, ◌+◌, ◌*◌, ◌≤◌, ◌<◌, ◌≡◌, ◌⊎◌, Option, none, some}
use argos_career.Posting.Posting.{Posting}
use argos_career.Prefilter.Criteria.{Criteria}
use argos_career.Prefilter.Rules.{one_day_ms, one_hour_ms}

-- A deadline is to come, or is the midnight of a day that is not over.

abbrev pub IsOpen : Option ℕ → ℕ → Type 0
IsOpen none now = Unit
IsOpen (some deadline) now =
    (now < deadline) ⊎ ((day : ℕ) × (deadline ≡ day * one_day_ms) × (now < (day + 1) * one_day_ms))

module _ (posting : Posting) (now : ℕ) where
  -- A posting dates from its publication, unless that is unknown or too far in the future, and then
  -- from its first sighting.
  abbrev pub IsDated : ℕ → ℕ → Type 0
  IsDated skew_days at_ms =
      ((posting.published_at ≡ some at_ms) × (at_ms ≤ now + skew_days * one_day_ms))
      ⊎ ((at_ms ≡ posting.first_seen_at)
          × ((posting.published_at ≡ none)
              ⊎ ((t : ℕ) × (posting.published_at ≡ some t) × (now + skew_days * one_day_ms < t))))

  abbrev pub IsNotOlder : Option ℕ → ℕ → Type 0
  IsNotOlder none at_ms = Unit
  IsNotOlder (some days) at_ms = now ≤ at_ms + days * one_day_ms

  abbrev pub IsListedWithin : Option ℕ → Type 0
  IsListedWithin none = ⊥
  IsListedWithin (some hours) =
      (posting.last_seen_at ≤ now) × (now ≤ posting.last_seen_at + hours * one_hour_ms)

  -- It is published, or was first seen after the cutover.
  abbrev pub IsNoBacklog : Option ℕ → Type 0
  IsNoBacklog none = Unit
  IsNoBacklog (some cutover) =
      ((t : ℕ) × (posting.published_at ≡ some t)) ⊎ (cutover < posting.first_seen_at)

  module _ {D : Type 0} (criteria : Criteria D) where
    -- It is not older than the limit and no undated backlog; or its source still lists it, and it is
    -- not older than the ceiling.
    abbrev pub IsRecentFrom : ℕ → Type 0
    IsRecentFrom at_ms =
        (IsNotOlder criteria.max_age_days at_ms × IsNoBacklog criteria.undated_backlog_cutover_at)
        ⊎ (IsListedWithin criteria.still_listed_within_hours
            × IsNotOlder criteria.still_listed_max_age_days at_ms)

    abbrev pub IsRecent : Type 0
    IsRecent =
        (criteria.max_age_days ≡ none)
        ⊎ ((at_ms : ℕ) × IsDated criteria.max_future_skew_days at_ms × IsRecentFrom at_ms)

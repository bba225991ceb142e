-- ===== src/Prefilter/Rules.antt =====
-- src/prefilter/domain/pre-filter.ts. Instants are milliseconds of the epoch. A difference of
-- instants may be negative, so each comparison of one stands with the subtrahend on the other side.
use argos_career.Base.{
  ℕ, ◌+◌, ◌*◌, ◌%◌, Bool, true, false, not, ◌&&◌, Text, codes, same, Option, none, some, List, [],
  ◌∷◌, filter, any, length, if◌then◌else◌, ltb, leb, ◌==◌, or_else, is_some,
}
use argos_career.Scoring.Types.{ProfileTrack}
use argos_career.Posting.Unicode.{Unicode, normalize}
use argos_career.Posting.Posting.{Posting, WorkMode, remote, Location, known, unknown_location}
use argos_career.Prefilter.Criteria.{Criteria, LocationCriteria}
use argos_career.Prefilter.TitleMatch.{keyword_matches_text, title_matches_any, classify_track}

pub data PreFilterRejectionReason : Type 0 where
  title_blocked title_missing_required_term track_unknown company_blocked : PreFilterRejectionReason
  expired too_old location_not_allowed : PreFilterRejectionReason
  insufficient_keyword_adherence : PreFilterRejectionReason

pub data PreFilterAnomaly : Type 0 where
  published_at_future : PreFilterAnomaly

pub record PreFilterOutcome : Type 0 where
  pub passed : Bool
  pub reason : Option PreFilterRejectionReason
  pub outcome_tracks : List ProfileTrack
  pub anomalies : List PreFilterAnomaly

abbrev pub one_day_ms : ℕ
one_day_ms = 24 * 60 * 60 * 1000

abbrev pub one_hour_ms : ℕ
one_hour_ms = 60 * 60 * 1000

abbrev pub closes_at : ℕ → ℕ
closes_at deadline = if deadline % one_day_ms == 0 then deadline + one_day_ms else deadline

unfoldable pub is_expired : Posting → ℕ → Bool
is_expired posting now = elim posting.application_deadline [
  | none ↦ false
  | some deadline ↦ leb (closes_at deadline) now
]

unfoldable pub is_still_listed_by_source : Posting → Option ℕ → ℕ → Bool
is_still_listed_by_source posting still_listed_within_hours now = elim still_listed_within_hours [
  | none ↦ false
  | some hours ↦
      if ltb now posting.last_seen_at
      then false
      else leb now (posting.last_seen_at + hours * one_hour_ms)
]

unfoldable pub has_implausibly_future_published_at : Posting → ℕ → ℕ → Bool
has_implausibly_future_published_at posting max_future_skew_days now = elim posting.published_at [
  | none ↦ false
  | some published ↦ ltb (now + max_future_skew_days * one_day_ms) published
]

unfoldable pub reference_of : Posting → ℕ → ℕ → ℕ
unfolding has_implausibly_future_published_at
reference_of posting max_future_skew_days now =
    if has_implausibly_future_published_at posting max_future_skew_days now
    then posting.first_seen_at
    else or_else posting.published_at posting.first_seen_at

-- `ageMs <= days` and `ageMs > days`, for an age in milliseconds and a number of days.
abbrev pub within_days : ℕ → ℕ → ℕ → Bool
within_days reference days now = leb now (reference + days * one_day_ms)

-- The rescue of a posting that its source still lists.
abbrev pub within_ceiling : ℕ → Option ℕ → ℕ → Bool
within_ceiling reference none now = true
within_ceiling reference (some days) now = within_days reference days now

abbrev pub in_undated_backlog : Posting → Option ℕ → Bool
in_undated_backlog posting none = false
in_undated_backlog posting (some cutover) =
    not (is_some posting.published_at) && leb posting.first_seen_at cutover

unfoldable pub is_too_old : Posting → Option ℕ → Option ℕ → ℕ → ℕ → Option ℕ → Option ℕ → Bool
unfolding reference_of is_still_listed_by_source
is_too_old posting max_age_days undated_backlog_cutover_at max_future_skew_days now
      still_listed_within_hours still_listed_max_age_days =
    elim max_age_days [
      | none ↦ false
      | some days ↦
          let reference = reference_of posting max_future_skew_days now in
          if is_still_listed_by_source posting still_listed_within_hours now
            && within_ceiling reference still_listed_max_age_days now
          then false
          else if in_undated_backlog posting undated_backlog_cutover_at
          then true
          else not (within_days reference days now)
    ]

abbrev pub contains_text : List Text → Text → Bool
contains_text texts t = any (λ s. same s t) texts

-- `published_at_future` is the only anomaly.
abbrev pub anomalies_of : Bool → List PreFilterAnomaly
anomalies_of true = published_at_future ∷ []
anomalies_of false = []

abbrev pub is_nil : List ProfileTrack → Bool
is_nil [] = true
is_nil (t ∷ ts) = false

module _ (u : Unicode) where
  abbrev rio : Text
  rio = codes "Rio de Janeiro"

  city_allowed : LocationCriteria → Text → Bool
  city_allowed criteria city =
      let raw_city = normalize u city in
      let normalized_city =
        if same raw_city (codes "greater rio de janeiro") then normalize u rio else raw_city in
      any (λ c. same (normalize u c) normalized_city) criteria.cities

  location_allowed_at : WorkMode → Location → LocationCriteria → Text → Bool
  location_allowed_at remote location criteria source = criteria.allow_remote
  location_allowed_at _ unknown_location criteria source =
      not (contains_text criteria.nationwide_sources source)
  location_allowed_at _ (known city) criteria source = city_allowed criteria city

  module _ {D : Type 0} where
    unfoldable pub is_company_blocked : Posting → Criteria D → Bool
    is_company_blocked posting criteria =
        let normalized_company = normalize u posting.company in
        any (λ company. same (normalize u company) normalized_company) criteria.blocked_companies

    unfoldable pub is_location_allowed : Posting → Criteria D → Bool
    unfolding location_allowed_at city_allowed
    is_location_allowed posting criteria =
        location_allowed_at posting.work_mode posting.location criteria.location_criteria
          posting.source

  unfoldable pub has_min_keyword_adherence : Text → List Text → ℕ → Bool
  has_min_keyword_adherence title profile_keywords floor =
      if leb floor 0
      then true
      else leb floor (length (filter (keyword_matches_text u title) profile_keywords))

  module _ {D : Type 0} where
    -- The first rule that fails, in the order of the source.
    unfoldable pub rejection_of :
        Posting → Criteria D → List Text → ℕ → List ProfileTrack → Option PreFilterRejectionReason
    rejection_of posting criteria profile_keywords now tracks =
        if title_matches_any u posting.title criteria.title_blocklist
        then some title_blocked
        else if not (title_matches_any u posting.title criteria.title_required)
        then some title_missing_required_term
        else if criteria.reject_unknown_track && is_nil tracks
        then some track_unknown
        else if is_company_blocked posting criteria
        then some company_blocked
        else if is_expired posting now
        then some expired
        else if is_too_old posting criteria.max_age_days criteria.undated_backlog_cutover_at
            criteria.max_future_skew_days now criteria.still_listed_within_hours
            criteria.still_listed_max_age_days
        then some too_old
        else if not (is_location_allowed posting criteria)
        then some location_not_allowed
        else if not (
            has_min_keyword_adherence posting.title profile_keywords criteria.min_keyword_adherence)
        then some insufficient_keyword_adherence
        else none

    unfoldable pub apply_pre_filter : Posting → Criteria D → List Text → ℕ → PreFilterOutcome
    unfolding rejection_of classify_track has_implausibly_future_published_at
    apply_pre_filter posting criteria profile_keywords now =
        let tracks = classify_track u posting.title criteria.tracks criteria.track_exclusions in
        let reason = rejection_of posting criteria profile_keywords now tracks in
        record {
          passed = not (is_some reason);
          reason = reason;
          outcome_tracks = tracks;
          anomalies =
              anomalies_of
                (has_implausibly_future_published_at posting criteria.max_future_skew_days now);
        }

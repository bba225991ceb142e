-- ===== src/Prefilter/Outcome.antt =====
-- What pre-filter.ts decides, rule by rule.
use argos_career.Base.{
  ℕ, ◌*◌, ◌/◌, ◌<◌, ◌≡◌, ◌↔◌, Bool, true, false, not, ◌&&◌, Text, Option, none, some, List,
  if◌then◌else◌, arith,
}
use argos_career.Posting.Unicode.{Unicode}
use argos_career.Posting.Posting.{Posting}
use argos_career.Prefilter.Criteria.{Criteria}
use argos_career.Prefilter.TitleMatch.{title_matches_any, classify_track}
use argos_career.Prefilter.Rules.{
  PreFilterRejectionReason, title_blocked, title_missing_required_term, track_unknown,
  company_blocked, expired, too_old, location_not_allowed, insufficient_keyword_adherence,
  one_day_ms, is_expired, is_too_old, is_company_blocked, is_location_allowed,
  has_min_keyword_adherence, is_nil, apply_pre_filter,
}

-- The place of a rule in the order of the pre-filter.

abbrev pub rule_index : PreFilterRejectionReason → ℕ
rule_index title_blocked = 0
rule_index title_missing_required_term = 1
rule_index track_unknown = 2
rule_index company_blocked = 3
rule_index expired = 4
rule_index too_old = 5
rule_index location_not_allowed = 6
rule_index insufficient_keyword_adherence = 7

-- The first rule of a row of tests.
ladder : (PreFilterRejectionReason → Bool) → Option PreFilterRejectionReason
ladder f =
    if f title_blocked
    then some title_blocked
    else if f title_missing_required_term
    then some title_missing_required_term
    else if f track_unknown
    then some track_unknown
    else if f company_blocked
    then some company_blocked
    else if f expired
    then some expired
    else if f too_old
    then some too_old
    else if f location_not_allowed
    then some location_not_allowed
    else if f insufficient_keyword_adherence
    then some insufficient_keyword_adherence
    else none

ladder-none :
    (f : PreFilterRejectionReason → Bool)
    → ladder f ≡ none
    → (r : PreFilterRejectionReason) → f r ≡ false
unfolding ladder
ladder-none f h title_blocked = ground arith
ladder-none f h _ = ground arith

none-ladder :
    (f : PreFilterRejectionReason → Bool)
    → ((r : PreFilterRejectionReason) → f r ≡ false)
    → ladder f ≡ none
unfolding ladder
none-ladder f h = ground (
  arith,
  h title_blocked,
  h title_missing_required_term,
  h track_unknown,
  h company_blocked,
  h expired,
  h too_old,
  h location_not_allowed,
  h insufficient_keyword_adherence,
)

ladder-some :
    (f : PreFilterRejectionReason → Bool) (r : PreFilterRejectionReason)
    → ladder f ≡ some r
    → f r ≡ true
unfolding ladder
ladder-some f r h = ground arith

ladder_first :
    (f : PreFilterRejectionReason → Bool) (r q : PreFilterRejectionReason)
    → ladder f ≡ some r
    → rule_index q < rule_index r
    → f q ≡ false
unfolding ladder
ladder_first f r title_blocked h k = ground arith
ladder_first f r _ h k = ground arith

some-ladder :
    (f : PreFilterRejectionReason → Bool) (r : PreFilterRejectionReason)
    → f r ≡ true
    → ((q : PreFilterRejectionReason) → rule_index q < rule_index r → f q ≡ false)
    → ladder f ≡ some r
unfolding ladder
some-ladder f title_blocked e h = rw e
some-ladder f r e h = ground (
  arith,
  h title_blocked,
  h title_missing_required_term,
  h track_unknown,
  h company_blocked,
  h expired,
  h too_old,
  h location_not_allowed,
)

module _ {D : Type 0} (u : Unicode) (posting : Posting) (criteria : Criteria D)
    (keywords : List Text) (now : ℕ) where
  -- Whether the posting breaks a rule, each rule taken by itself.
  abbrev pub breaks : PreFilterRejectionReason → Bool
  breaks title_blocked = title_matches_any u posting.title criteria.title_blocklist
  breaks title_missing_required_term =
      not (title_matches_any u posting.title criteria.title_required)
  breaks track_unknown =
      criteria.reject_unknown_track
      && is_nil (classify_track u posting.title criteria.tracks criteria.track_exclusions)
  breaks company_blocked = is_company_blocked u posting criteria
  breaks expired = is_expired posting now
  breaks too_old =
      is_too_old posting criteria.max_age_days criteria.undated_backlog_cutover_at
        criteria.max_future_skew_days now criteria.still_listed_within_hours
        criteria.still_listed_max_age_days
  breaks location_not_allowed = not (is_location_allowed u posting criteria)
  breaks insufficient_keyword_adherence =
      not (has_min_keyword_adherence u posting.title keywords criteria.min_keyword_adherence)

  -- A posting passes exactly when it breaks no rule.
  pub apply_pre_filter-passed_iff :
      ((apply_pre_filter u posting criteria keywords now).passed ≡ true)
      ↔ ((r : PreFilterRejectionReason) → breaks r ≡ false)
  unfolding apply_pre_filter ladder
  apply_pre_filter-passed_iff = (
    λ h. ladder-none breaks (ground arith),
    λ h. let clean = none-ladder breaks h in ground arith,
  )

  -- A posting is rejected for a reason exactly when it breaks that rule and none before it.
  pub apply_pre_filter-reason_iff :
      (r : PreFilterRejectionReason)
      → ((apply_pre_filter u posting criteria keywords now).reason ≡ some r) ↔ (
          (breaks r ≡ true)
          × ((q : PreFilterRejectionReason) → rule_index q < rule_index r → breaks q ≡ false))
  unfolding apply_pre_filter ladder
  apply_pre_filter-reason_iff r = (
    λ h. (ladder-some breaks r h, λ q. ladder_first breaks r q h),
    λ h. some-ladder breaks r h.0 h.1,
  )

-- A deadline stated as a date, which is midnight of its day, is over exactly when that whole day
-- is over.
pub is_expired-date_iff :
    (posting : Posting) (day now : ℕ)
    → posting.application_deadline ≡ some (day * one_day_ms)
    → (is_expired posting now ≡ true) ↔ (day < now / one_day_ms)
unfolding is_expired
is_expired-date_iff posting day now h = (λ k. ground arith, λ k. ground arith)

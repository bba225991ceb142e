-- ===== src/Pipeline/Origin.antt =====
-- src/prefilter/domain/posting-origin.ts, and the budget of src/cli/main.ts for the postings that it
-- calls international. `toUpperCase` is an argument.
use argos_career.Base.{
  ℕ, Bool, true, false, not, Text, trim, is_empty, same, Dict, lookup, Option, none, some, List, [],
  ◌∷◌, ◌++◌, take, drop, if◌then◌else◌,
}
use argos_career.Posting.Posting.{Posting}

-- The fields of `Criteria` that these rules read.

pub record OriginCriteria : Type 0 where
  pub home_country : Text
  pub source_default_country : Dict Text
  pub max_international_per_run : Option ℕ

module _ (upper : Text → Text) (criteria : OriginCriteria) where
  canonical : Option Text → Text
  unfolding trim
  canonical none = []
  canonical (some country) = upper (trim country)

  -- An absent country and an empty one fall through alike.
  unfoldable pub is_national_posting : Posting → Bool
  unfolding canonical lookup
  is_national_posting posting =
      let home = canonical (some criteria.home_country) in
      let stated = canonical posting.country in
      let fallback = canonical (lookup posting.source criteria.source_default_country) in
      if is_empty home
      then true
      else if not (is_empty stated)
      then same stated home
      else if not (is_empty fallback)
      then same fallback home
      else false

  unfoldable pub partition_by_origin : List Posting → List Posting × List Posting
  unfolding is_national_posting
  partition_by_origin [] = ([], [])
  partition_by_origin (posting ∷ postings) =
      let (national, international) = partition_by_origin postings in
      if is_national_posting posting
      then (posting ∷ national, international)
      else (national, posting ∷ international)

-- What the budget admits of the international postings, and what it defers.
unfoldable pub within_budget : Option ℕ → List Posting → List Posting × List Posting
within_budget none international = (international, [])
within_budget (some budget) international = (take budget international, drop budget international)

-- The postings that a run scores, and those that it defers.
unfoldable pub admit : (Text → Text) → OriginCriteria → List Posting → List Posting × List Posting
unfolding partition_by_origin within_budget
admit upper criteria ranked =
    let (national, international) = partition_by_origin upper criteria ranked in
    let (admitted, deferred) = within_budget criteria.max_international_per_run international in
    (national ++ admitted, deferred)

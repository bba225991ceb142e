-- ===== src/Prefilter/Examples.antt =====
-- The theorems on the pre-filter and the ranking at two postings.
use argos_career.Base.{ℕ, ◌*◌, ◌≡◌, refl, true, false, codes, some, [], ◌∷◌, IsRanked}
use argos_career.Scoring.Fixed.{fixed, fixed-IsDouble}
use argos_career.Posting.Unicode.{normalize}
use argos_career.Posting.Sample.{ascii, a_day, backend_posting, sales_posting}
use argos_career.Prefilter.Sample.{criteria}
use argos_career.Prefilter.TitleMatch.{title_matches_any, keyword_matches_text}
use argos_career.Prefilter.Rules.{
  rejection_of, is_company_blocked, is_location_allowed, has_min_keyword_adherence, track_unknown,
  is_expired, is_too_old, apply_pre_filter,
}
use argos_career.Prefilter.Rank.{rank_for_scoring}
use argos_career.Prefilter.Ranking.{outranks, rank_for_scoring-IsRanked}

abbrev now : ℕ
now = 13 * a_day

pre_filter_runs :
    ((apply_pre_filter ascii backend_posting criteria [] now).passed ≡ true)
    × ((apply_pre_filter ascii sales_posting criteria [] now).reason ≡ some track_unknown)
    × (keyword_matches_text ascii (codes "Fisioterapia") (codes "api") ≡ false)
    × (keyword_matches_text ascii (codes "Dev Node.js") (codes "js") ≡ false)
unfolding apply_pre_filter keyword_matches_text rejection_of title_matches_any is_company_blocked
    is_expired is_too_old is_location_allowed has_min_keyword_adherence normalize
pre_filter_runs = (refl, refl, refl, refl)

rank_for_scoring-IsRanked_example :
    IsRanked
      (outranks ascii criteria now)
      (rank_for_scoring ascii criteria now (backend_posting ∷ sales_posting ∷ []))
rank_for_scoring-IsRanked_example =
    rank_for_scoring-IsRanked ascii criteria now fixed-IsDouble
      (backend_posting ∷ sales_posting ∷ [])

rank_for_scoring_run :
    rank_for_scoring ascii criteria now (backend_posting ∷ sales_posting ∷ [])
    ≡ sales_posting ∷ backend_posting ∷ []
unfolding rank_for_scoring
rank_for_scoring_run = refl

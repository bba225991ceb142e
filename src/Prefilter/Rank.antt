-- ===== src/Prefilter/Rank.antt =====
-- src/prefilter/domain/rank-for-scoring.ts.
use argos_career.Base.{
  ℕ, suc, ◌+◌, ◌*◌, Bool, ◌&&◌, ◌||◌, Option, none, some, List, [], ◌∷◌, map, sort, if◌then◌else◌,
  ltb, leb, ◌==◌, or_else,
}
use argos_career.Scoring.Number.{Double, less}
use argos_career.Scoring.Types.{of_profile}
use argos_career.Scoring.Stage.{compute_track_alignment}
use argos_career.Posting.Unicode.{Unicode}
use argos_career.Posting.Posting.{Posting}
use argos_career.Prefilter.Criteria.{Criteria}
use argos_career.Prefilter.TitleMatch.{classify_track}
use argos_career.Prefilter.Rules.{one_hour_ms}

-- A posting decorated with its keys.

pub record Entry (D : Type 0) : Type 0 where
  pub posting : Posting
  pub index : ℕ
  pub still_listed : ℕ
  pub recency : ℕ
  pub weight : D

unfoldable pub still_listed_of : Option ℕ → ℕ → Posting → ℕ
still_listed_of none now posting = 0
still_listed_of (some hours) now posting =
    if ltb now posting.last_seen_at
    then 0
    else if leb now (posting.last_seen_at + hours * one_hour_ms)
    then 1
    else 0

unfoldable pub recency_of : Posting → ℕ
recency_of posting = or_else posting.published_at posting.first_seen_at

module _ {D : Type 0} ⦃d : Double D⦄ where
  -- The comparator's order: the next key counts where the keys before it tie.
  unfoldable pub comes_before : Entry D → Entry D → Bool
  comes_before a b =
      ltb b.still_listed a.still_listed
      || ((a.still_listed == b.still_listed)
          && (ltb b.recency a.recency
              || ((a.recency == b.recency)
                  && (less b.weight a.weight
                      || ((d.le a.weight b.weight && d.le b.weight a.weight)
                          && ltb a.index b.index)))))

  module _ (u : Unicode) (criteria : Criteria D) (now : ℕ) where
    -- The highest weight of the title's tracks, which is what `computeTrackAlignment` gives.
    unfoldable pub weight_of : Posting → D
    unfolding classify_track compute_track_alignment
    weight_of posting =
        compute_track_alignment
          (map of_profile
            (classify_track u posting.title criteria.tracks criteria.track_exclusions))
          criteria.track_weights

    unfoldable pub decorate : ℕ → List Posting → List (Entry D)
    unfolding still_listed_of recency_of weight_of
    decorate index [] = []
    decorate index (posting ∷ postings) =
        record {
          posting = posting;
          index = index;
          still_listed = still_listed_of criteria.still_listed_within_hours now posting;
          recency = recency_of posting;
          weight = weight_of posting;
        }
        ∷ decorate (suc index) postings

    unfoldable pub rank_for_scoring : List Posting → List Posting
    unfolding decorate comes_before sort
    rank_for_scoring postings =
        map (λ (e : Entry D). e.posting) (sort comes_before (decorate 0 postings))

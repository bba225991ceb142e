-- ===== src/Dedup/Similar.antt =====
-- src/persistence/application/dedup-similar-postings.ts. `findActive` is an argument: the postings
-- in the order of the table.
use argos_career.Base.{
  ℕ, suc, ◌+◌, ◌-◌, ◌*◌, Bool, true, false, not, ◌&&◌, ◌++◌, Text, codes, same, contains, is_empty,
  Option, none, some, or_else, List, [], ◌∷◌, filter, length, drop, sort, ltb, leb, if◌then◌else◌,
  Dict, lookup, insert,
}
use argos_career.Scoring.Number.{Double}
use argos_career.Posting.Unicode.{Unicode, normalize}
use argos_career.Posting.Posting.{Posting, Location, known, unknown_location}
use argos_career.Dedup.TitleSimilarity.{split_words, join_words, compute_title_similarity}

pub record DedupConfig (D : Type 0) : Type 0 where
  pub similarity_threshold : D
  pub window_days : ℕ
  pub max_comparisons_per_posting : Option ℕ

abbrev pub default_max_comparisons : ℕ
default_max_comparisons = 500

abbrev pub company_suffixes : List Text
company_suffixes = codes "sa" ∷ codes "ltda" ∷ codes "me" ∷ codes "eireli" ∷ codes "epp" ∷ []

-- The tokens after the first, less the suffixes at their end.
unfoldable pub without_suffixes : List Text → List Text
without_suffixes [] = []
without_suffixes (t ∷ ts) = elim (without_suffixes ts) [
  | [] ↦ (if contains company_suffixes t then [] else t ∷ [])
  | x ∷ xs ↦ t ∷ x ∷ xs
]

abbrev pub keep_first : List Text → List Text
unfolding without_suffixes
keep_first [] = []
keep_first (t ∷ ts) = t ∷ without_suffixes ts

unfoldable pub normalize_company_for_grouping : Unicode → Text → Text
unfolding normalize split_words join_words keep_first
normalize_company_for_grouping u company =
    join_words (keep_first (filter (λ t. not (is_empty t)) (split_words (normalize u company))))

pub record ShadowDuplicateCandidate (D : Type 0) : Type 0 where
  pub candidate_fingerprint : Text
  pub candidate_title : Text
  pub canonical_fingerprint : Text
  pub canonical_title : Text
  pub similarity : D

pub record SimilarOutcome (D : Type 0) : Type 0 where
  pub scanned : ℕ
  pub marked_duplicate : ℕ
  pub shadow_candidates : List (ShadowDuplicateCandidate D)
  pub comparison_truncated_count : ℕ

-- `Math.abs` of the difference, with the window on the other side.
unfoldable pub within_window : ℕ → ℕ → ℕ → Bool
within_window a b window_days =
    let window = window_days * 24 * 60 * 60 * 1000 in leb a (b + window) && leb b (a + window)

abbrev pub cities_agree : Unicode → Location → Location → Bool
unfolding normalize
cities_agree u (known a) (known b) = same (normalize u a) (normalize u b)
cities_agree u unknown_location unknown_location = true
cities_agree u _ _ = false

unfoldable pub locations_agree : Unicode → Posting → Posting → Bool
unfolding cities_agree
locations_agree u a b = cities_agree u a.location b.location

-- The `while` loop: how many of the postings from `windowStart` on it passes over.
unfoldable pub outside_prefix : ℕ → ℕ → List Posting → ℕ
unfolding within_window
outside_prefix now window_days [] = 0
outside_prefix now window_days (p ∷ ps) =
    let rest = outside_prefix now window_days ps in
    if within_window p.first_seen_at now window_days then 0 else suc rest

unfoldable pub window_start : ℕ → ℕ → List Posting → Posting → ℕ
unfolding outside_prefix
window_start start window_days seen candidate =
    start + outside_prefix candidate.first_seen_at window_days (drop start seen)

abbrev pub max : ℕ → ℕ → ℕ
max a b = if leb a b then b else a

unfoldable pub candidates_of : ℕ → ℕ → List Posting → List Posting
candidates_of start max_comparisons seen = drop (max start (length seen - max_comparisons)) seen

abbrev pub seen_before : Posting → Posting → Bool
seen_before a b = ltb a.first_seen_at b.first_seen_at

unfoldable pub find_first : (Posting → Bool) → List Posting → Option Posting
find_first p [] = none
find_first p (x ∷ xs) = if p x then some x else find_first p xs

module _ {D : Type 0} ⦃d : Double D⦄ (u : Unicode) (config : DedupConfig D) where
  unfoldable pub max_comparisons : ℕ
  max_comparisons = max 1 (or_else config.max_comparisons_per_posting default_max_comparisons)

  unfoldable pub is_similar : Posting → Posting → Bool
  unfolding locations_agree compute_title_similarity
  is_similar candidate earlier =
      locations_agree u earlier candidate
      && d.le config.similarity_threshold (compute_title_similarity u earlier.title candidate.title)

  unfoldable pub shadow : Posting → Option Posting → List (ShadowDuplicateCandidate D)
  unfolding compute_title_similarity
  shadow candidate none = []
  shadow candidate (some canonical) =
      record {
        candidate_fingerprint = candidate.fingerprint;
        candidate_title = candidate.title;
        canonical_fingerprint = canonical.fingerprint;
        canonical_title = canonical.title;
        similarity = compute_title_similarity u canonical.title candidate.title;
      }
      ∷ []

  -- The loop over a sorted group; its results are the candidates found and the truncations.
  unfoldable pub scan_group :
      ℕ → List Posting → List Posting → List (ShadowDuplicateCandidate D) × ℕ
  unfolding window_start candidates_of find_first is_similar shadow max_comparisons
  scan_group start seen [] = ([], 0)
  scan_group start seen (candidate ∷ rest) =
      let next = window_start start config.window_days seen candidate in
      let found = find_first (is_similar candidate) (candidates_of next max_comparisons seen) in
      let (later, truncated) = scan_group next (seen ++ (candidate ∷ [])) rest in
      (
        shadow candidate found ++ later,
        if ltb max_comparisons (length seen - next) then truncated + 1 else truncated,
      )

  -- `byCompany`, in the order in which its keys were added.
  unfoldable pub group_by_company : List Posting → Dict (List Posting) → Dict (List Posting)
  unfolding normalize_company_for_grouping lookup insert
  group_by_company [] groups = groups
  group_by_company (p ∷ ps) groups =
      let key = normalize_company_for_grouping u p.company in
      group_by_company ps (insert key (or_else (lookup key groups) [] ++ (p ∷ [])) groups)

  unfoldable pub scan_groups : Dict (List Posting) → List (ShadowDuplicateCandidate D) × ℕ
  unfolding scan_group sort
  scan_groups [] = ([], 0)
  scan_groups ((key, group) ∷ groups) =
      let (found, truncated) = scan_group 0 [] (sort seen_before group) in
      let (later, more) = scan_groups groups in (found ++ later, truncated + more)

  unfoldable pub dedup_similar_postings : List Posting → SimilarOutcome D
  unfolding group_by_company scan_groups
  dedup_similar_postings active =
      let (found, truncated) = scan_groups (group_by_company active []) in
      record {
        scanned = length active;
        marked_duplicate = 0;
        shadow_candidates = found;
        comparison_truncated_count = truncated;
      }

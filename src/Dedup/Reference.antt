-- ===== src/Dedup/Reference.antt =====
-- dedup-similar-postings.ts against a scan of each group that looks at every earlier posting.
use argos_career.Base.{
  ℕ, ◌+◌, ◌≤◌, ◌≡◌, refl, sym, ◌++◌, List, [], ◌∷◌, length, IsRanked, IsComparator, sort,
  sort-IsRanked, ltb, if◌then◌else◌, arith, Dict,
}
use mathlib.Core.Path.{subst}
use argos_career.Scoring.Number.{Double}
use argos_career.Posting.Unicode.{Unicode}
use argos_career.Posting.Posting.{Posting}
use argos_career.Dedup.Similar.{
  DedupConfig, ShadowDuplicateCandidate, SimilarOutcome, window_start, find_first, max_comparisons,
  is_similar, shadow, scan_group, seen_before, group_by_company, scan_groups,
  dedup_similar_postings,
}
use argos_career.Dedup.Window.{
  last_of, in_window, AreUntil, Skips, candidates_of-last_of, length-drop, append_assoc,
  IsRanked-left, AreUntil-earlier, window_start_within, drop-window_start, window_start-Skips,
}

module _ {D : Type 0} ⦃d : Double D⦄ (u : Unicode) (config : DedupConfig D) where
  -- Each posting of the group is compared with the last `maxComparisons` of all the earlier ones that
  -- `withinWindow` accepts, in order.
  unfoldable pub scan_all : List Posting → List Posting → List (ShadowDuplicateCandidate D) × ℕ
  unfolding find_first is_similar shadow max_comparisons
  scan_all seen [] = ([], 0)
  scan_all seen (candidate ∷ rest) =
      let window = in_window candidate.first_seen_at config.window_days seen in
      let found =
        find_first (is_similar u config candidate) (last_of (max_comparisons u config) window) in
      let (later, truncated) = scan_all (seen ++ (candidate ∷ [])) rest in
      (
        shadow u config candidate found ++ later,
        if ltb (max_comparisons u config) (length window) then truncated + 1 else truncated,
      )

  unfoldable pub scan_all_groups : Dict (List Posting) → List (ShadowDuplicateCandidate D) × ℕ
  unfolding scan_all sort
  scan_all_groups [] = ([], 0)
  scan_all_groups ((key, group) ∷ groups) =
      let (found, truncated) = scan_all [] (sort seen_before group) in
      let (later, more) = scan_all_groups groups in (found ++ later, truncated + more)

  unfoldable pub dedup_all : List Posting → SimilarOutcome D
  unfolding group_by_company scan_all_groups
  dedup_all active =
      let (found, truncated) = scan_all_groups (group_by_company u config active []) in
      record {
        scanned = length active;
        marked_duplicate = 0;
        shadow_candidates = found;
        comparison_truncated_count = truncated;
      }

  scan_group-scan_all :
      (start : ℕ) (seen rest : List Posting)
      → Skips config.window_days start seen
      → IsRanked seen_before (seen ++ rest)
      → scan_group u config start seen rest ≡ scan_all seen rest
  unfolding scan_group scan_all
  scan_group-scan_all start seen [] skips ranked = refl
  scan_group-scan_all start seen (candidate ∷ rest) skips ranked =
      rw
        (
          candidates_of-last_of next (max_comparisons u config) seen within,
          sym (length-drop next seen),
          drop-window_start config.window_days start seen candidate skips before until,
          scan_group-scan_all next (seen ++ (candidate ∷ [])) rest
              (window_start-Skips config.window_days start seen candidate skips before until)
              (subst (IsRanked seen_before) (sym (append_assoc seen candidate rest)) ranked),
        )
        refl
    where
      next : ℕ
      next = window_start start config.window_days seen candidate

      before : IsRanked seen_before seen
      before = IsRanked-left seen (candidate ∷ rest) ranked

      until : AreUntil candidate.first_seen_at seen
      until = AreUntil-earlier seen candidate rest ranked

      within : next ≤ length seen
      within = window_start_within config.window_days start seen candidate skips before until

  scan_group_sorted :
      (group : List Posting)
      → scan_group u config 0 [] (sort seen_before group) ≡ scan_all [] (sort seen_before group)
  scan_group_sorted group =
      scan_group-scan_all 0 [] (sort seen_before group) (omega arith, λ later h. refl)
        (sort-IsRanked seen_before seen_before-IsComparator group)
    where
      seen_before-IsComparator : IsComparator seen_before
      seen_before-IsComparator = record {
        asymmetric = λ a b h. ground arith;
        negative_trans = λ a b c h k. ground arith;
      }

  scan_groups-scan_all_groups :
      (groups : Dict (List Posting)) → scan_groups u config groups ≡ scan_all_groups groups
  unfolding scan_groups scan_all_groups
  scan_groups-scan_all_groups [] = refl
  scan_groups-scan_all_groups ((key, group) ∷ groups) =
      rw (scan_group_sorted group, scan_groups-scan_all_groups groups) refl

  -- Whatever the postings, the limits and the threshold, the pass with its moving window has the
  -- outcome of the pass that compares each posting with the last `maxComparisons` of all the earlier
  -- postings of its company within the window: the same candidates, in order, and the same count of
  -- truncations.
  pub dedup_similar_postings-dedup_all :
      (active : List Posting) → dedup_similar_postings u config active ≡ dedup_all active
  unfolding dedup_similar_postings dedup_all
  dedup_similar_postings-dedup_all active =
      rw (scan_groups-scan_all_groups (group_by_company u config active [])) refl

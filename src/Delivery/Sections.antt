-- ===== src/Delivery/Sections.antt =====
-- What the sections of the digest hold, and in which order.
use argos_career.Base.{
  ◌≡◌, refl, Bool, true, false, not, ◌&&◌, List, [], ◌∷◌, filter, sort-perm, sort-IsRanked,
  sort_stable, IsComparator, IsRanked, arith,
}
use mathlib.Core.List.{Perm}
use argos_career.Scoring.Number.{Double, ◌≼◌, IsDouble}
use argos_career.Delivery.Digest.{
  ScoredPosting, ComposeDigestInput, is_apply, is_review, wanted, lacks_link, bucket,
  by_score_descending, compose_digest,
}

module _ {D : Type 0} where
  -- What each section is for, entry by entry.
  abbrev pub for_recommended : ScoredPosting D → Bool
  for_recommended e = is_apply e.outcome.verdict && not (lacks_link e)

  abbrev pub for_review : ScoredPosting D → Bool
  for_review e = is_review e.outcome.verdict && not (lacks_link e)

  abbrev pub for_unreachable : ScoredPosting D → Bool
  for_unreachable e = wanted e && lacks_link e

  bucket-filter :
      (es : List (ScoredPosting D))
      → ((bucket es).to_recommend ≡ filter for_recommended es)
        × ((bucket es).to_review ≡ filter for_review es)
        × ((bucket es).no_link ≡ filter for_unreachable es)
  unfolding bucket
  bucket-filter [] = (refl, refl, refl)
  bucket-filter (e ∷ es) = ground (arith, bucket-filter es)

  by_score_descending-IsComparator :
      ⦃d : Double D⦄ → IsDouble D → IsComparator {A = ScoredPosting D} by_score_descending
  by_score_descending-IsComparator ⦃d⦄ laws = record {
    asymmetric = λ a b h. ground (arith, laws.le_total a.outcome.score b.outcome.score);
    negative_trans =
        λ a b c h k. ground (arith, laws.le_trans c.outcome.score b.outcome.score a.outcome.score);
  }

  module _ ⦃d : Double D⦄ (input : ComposeDigestInput D) where
    -- Each section is, up to its order, the entries that are for it: `apply` with a link, `review`
    -- with a link, and either verdict without one; a `discard` is in none.
    pub compose_digest-sections :
        let digest = compose_digest input in
        Perm digest.recommended (filter for_recommended input.scored)
        × Perm digest.review_section (filter for_review input.scored)
        × Perm digest.unreachable (filter for_unreachable input.scored)
    unfolding compose_digest
    compose_digest-sections =
        let (a, b, c) = bucket-filter input.scored in
        (
          rw (← a) (sort-perm by_score_descending (bucket input.scored).to_recommend),
          rw (← b) (sort-perm by_score_descending (bucket input.scored).to_review),
          rw (← c) (sort-perm by_score_descending (bucket input.scored).no_link),
        )

    -- In every section no entry stands behind one with a lower score.
    pub compose_digest-IsRanked :
        IsDouble D
        → let digest = compose_digest input in
          IsRanked by_score_descending digest.recommended
          × IsRanked by_score_descending digest.review_section
          × IsRanked by_score_descending digest.unreachable
    unfolding compose_digest
    compose_digest-IsRanked laws =
        let c = by_score_descending-IsComparator laws in
        (
          sort-IsRanked by_score_descending c (bucket input.scored).to_recommend,
          sort-IsRanked by_score_descending c (bucket input.scored).to_review,
          sort-IsRanked by_score_descending c (bucket input.scored).no_link,
        )

    -- Entries of one section with the same score keep the order in which they were processed.
    pub compose_digest_stable :
        (p : ScoredPosting D → Bool)
        → ((a b : ScoredPosting D) → p a ≡ true → p b ≡ true → a.outcome.score ≼ b.outcome.score)
        → let digest = compose_digest input in
          (filter p digest.recommended ≡ filter p (filter for_recommended input.scored))
          × (filter p digest.review_section ≡ filter p (filter for_review input.scored))
          × (filter p digest.unreachable ≡ filter p (filter for_unreachable input.scored))
    unfolding compose_digest
    compose_digest_stable p tied =
        let flat : (a b : ScoredPosting D)
            → p a ≡ true
            → p b ≡ true
            → by_score_descending a b ≡ false =
          λ a b h k. ground (arith, tied a b) in
        let (a, b, c) = bucket-filter input.scored in
        (
          rw (← a) (sort_stable by_score_descending p flat (bucket input.scored).to_recommend),
          rw (← b) (sort_stable by_score_descending p flat (bucket input.scored).to_review),
          rw (← c) (sort_stable by_score_descending p flat (bucket input.scored).no_link),
        )

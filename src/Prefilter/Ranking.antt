-- ===== src/Prefilter/Ranking.antt =====
-- What rank-for-scoring.ts promises of its order.
use argos_career.Base.{
  ℕ, suc, ◌≡◌, refl, ap, Bool, false, ◌&&◌, ◌||◌, List, [], ◌∷◌, map, All, IsComparator, IsRanked,
  sort-perm, sort-IsRanked, All-sort, ltb, ◌==◌, arith,
}
use mathlib.Core.Path.{subst}
use mathlib.Core.List.{Perm}
use mathlib.Core.List.Perm
use argos_career.Scoring.Number.{Double, IsDouble, less}
use argos_career.Posting.Unicode.{Unicode}
use argos_career.Posting.Posting.{Posting}
use argos_career.Prefilter.Criteria.{Criteria}
use argos_career.Prefilter.Rank.{
  Entry, still_listed_of, recency_of, comes_before, weight_of, decorate, rank_for_scoring,
}

module _ {D : Type 0} ⦃d : Double D⦄ where
  comes_before-IsComparator : IsDouble D → IsComparator {A = Entry D} comes_before
  unfolding comes_before
  comes_before-IsComparator laws = record {
    asymmetric = λ a b h. ground (arith, laws.le_total a.weight b.weight);
    negative_trans = λ a b c h k. ground (
      arith,
      laws.le_total a.weight b.weight,
      laws.le_total b.weight c.weight,
      laws.le_total a.weight c.weight,
      laws.le_trans a.weight b.weight c.weight,
      laws.le_trans c.weight b.weight a.weight,
      laws.le_trans b.weight a.weight c.weight,
      laws.le_trans c.weight a.weight b.weight,
      laws.le_trans a.weight c.weight b.weight,
      laws.le_trans b.weight c.weight a.weight,
    );
  }

  module _ (u : Unicode) (criteria : Criteria D) (now : ℕ) where
    -- The three keys alone: whether one posting is worth strictly more than another.
    abbrev pub outranks : Posting → Posting → Bool
    outranks a b =
        let still = still_listed_of criteria.still_listed_within_hours now in
        ltb (still b) (still a)
        || ((still a == still b)
            && (ltb (recency_of b) (recency_of a)
                || ((recency_of a == recency_of b)
                    && less (weight_of u criteria now b) (weight_of u criteria now a))))

    abbrev IsKeyed : Entry D → Type 0
    IsKeyed e =
        (e.still_listed ≡ still_listed_of criteria.still_listed_within_hours now e.posting)
        × (e.recency ≡ recency_of e.posting)
        × (e.weight ≡ weight_of u criteria now e.posting)

    decorate-IsKeyed : (i : ℕ) (ps : List Posting) → All IsKeyed (decorate u criteria now i ps)
    unfolding decorate
    decorate-IsKeyed i [] = tt
    decorate-IsKeyed i (p ∷ ps) = ((refl, refl, refl), decorate-IsKeyed (suc i) ps)

    map-decorate :
        (i : ℕ) (ps : List Posting)
        → map (λ (e : Entry D). e.posting) (decorate u criteria now i ps) ≡ ps
    unfolding decorate
    map-decorate i [] = refl
    map-decorate i (p ∷ ps) = ap (◌∷◌ p) (map-decorate (suc i) ps)

    -- The ranking spends the budget on the same postings, none lost and none twice.
    pub rank_for_scoring-perm : (ps : List Posting) → Perm (rank_for_scoring u criteria now ps) ps
    unfolding rank_for_scoring
    rank_for_scoring-perm ps =
        subst (Perm (rank_for_scoring u criteria now ps)) (map-decorate 0 ps) (
          Perm.map (λ (e : Entry D). e.posting)
            (sort-perm comes_before (decorate u criteria now 0 ps)))

    outranks_of_keyed :
        (e f : Entry D)
        → IsKeyed e
        → IsKeyed f
        → comes_before f e ≡ false
        → outranks f.posting e.posting ≡ false
    unfolding comes_before
    outranks_of_keyed e f ke kf h = ground arith

    outranks-All :
        (e : Entry D) (fs : List (Entry D))
        → IsKeyed e
        → All IsKeyed fs
        → All (λ f. comes_before f e ≡ false) fs
        → All (λ q. outranks q e.posting ≡ false) (map (λ (f : Entry D). f.posting) fs)
    outranks-All e [] ke kfs h = tt
    outranks-All e (f ∷ fs) ke kfs h =
        (outranks_of_keyed e f ke kfs.0 h.0, outranks-All e fs ke kfs.1 h.1)

    IsRanked-postings :
        (es : List (Entry D))
        → All IsKeyed es
        → IsRanked comes_before es
        → IsRanked outranks (map (λ (e : Entry D). e.posting) es)
    IsRanked-postings [] k h = tt
    IsRanked-postings (e ∷ es) k h = (outranks-All e es k.0 k.1 h.0, IsRanked-postings es k.1 h.1)

    -- No posting stands behind one that it outranks: by still being listed, then by recency, then
    -- by the weight of its best track.
    pub rank_for_scoring-IsRanked :
        IsDouble D → (ps : List Posting) → IsRanked outranks (rank_for_scoring u criteria now ps)
    unfolding rank_for_scoring
    rank_for_scoring-IsRanked laws ps =
        IsRanked-postings _
          (All-sort comes_before IsKeyed (decorate u criteria now 0 ps) (decorate-IsKeyed 0 ps))
          (sort-IsRanked comes_before (comes_before-IsComparator laws)
            (decorate u criteria now 0 ps))

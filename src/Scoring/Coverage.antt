-- ===== src/Scoring/Coverage.antt =====
-- Bounds of score.ts: every coverage is a share, and the score stays in its range and under its caps.
use argos_career.Base.{
  ℕ, suc, ◌+◌, ◌≡◌, refl, ◌⊎◌, inl, inr, Bool, true, false, not, Option, List, [], ◌∷◌, length,
  arith,
}
use native.Mathlib.Nat.{add-zero, zero-add, add-suc, suc-add}
use argos_career.Scoring.Number.{Double, ◌≼◌, IsDouble, min_of, max_of}
use argos_career.Scoring.Types.{
  RequirementWeight, MatchStatus, met, partial, not_met, Requirement, Match, Track, unknown,
  mandatory, desirable, TrackWeights, ScoringConfig,
}
use argos_career.Scoring.Stage.{
  status_weight, sum_of, share_of, coverage, find_blocking_failures, raw_score_of, capped_score,
  AcademicContext, compute_score, is_nil, cap_if, weight_of, max_from, compute_track_alignment,
}

module _ {D : Type 0} ⦃d : Double D⦄ (laws : IsDouble D) where
  open d use {of_nat, half, add, mul, div, le}
  open laws use {
    le_refl, le_trans, le_total, zero_le_half, half_le_one, zero_le_one, zero_le_hundred, add_mono,
    add_nonneg, add_one_le, mul_mono, mul_nonneg, mul_one_le, div_mono, div_nonneg, div_self,
  }

  abbrev pub IsShare : D → Type 0
  IsShare x = (of_nat 0 ≼ x) × (x ≼ of_nat 1)

  pub status_weight_bounds :
      (s : MatchStatus) → (of_nat 0 ≼ status_weight s) × (status_weight s ≼ of_nat 1)
  unfolding status_weight
  status_weight_bounds met = (zero_le_one, le_refl _)
  status_weight_bounds partial = (zero_le_half, half_le_one)
  status_weight_bounds not_met = (le_refl _, zero_le_one)

  sum_of-nonneg : (total : D) (ms : List Match) → of_nat 0 ≼ total → of_nat 0 ≼ sum_of total ms
  unfolding sum_of
  sum_of-nonneg total [] h = h
  sum_of-nonneg total (m ∷ ms) h =
      sum_of-nonneg (add total (status_weight m.status)) ms
        (add_nonneg _ _ h (status_weight_bounds m.status).0)

  sum_of-le :
      (n : ℕ) (total : D) (ms : List Match)
      → total ≼ of_nat n
      → sum_of total ms ≼ of_nat (n + length ms)
  unfolding sum_of
  sum_of-le n total [] h = rw add-zero h
  sum_of-le n total (m ∷ ms) h =
      rw (add-suc, ← suc-add)
        (sum_of-le (suc n) (add total (status_weight m.status)) ms
          (le_trans _ _ _ (add_mono _ _ _ _ h (status_weight_bounds m.status).1) (add_one_le n)))

  share_of_bounds : (ms : List Match) → (of_nat 0 ≼ share_of ms) × (share_of ms ≼ of_nat 1)
  unfolding share_of
  share_of_bounds [] = (zero_le_one, le_refl _)
  share_of_bounds (m ∷ ms) = (
    div_nonneg (length ms) _ (sum_of-nonneg (of_nat 0) (m ∷ ms) (le_refl _)),
    rw (← div_self (length ms))
        (div_mono (length ms) _ _ (rw zero-add at (sum_of-le 0 (of_nat 0) (m ∷ ms) (le_refl _)))),
  )

  -- The coverage of any weight is from 0 to 1, whatever the matches.
  pub coverage_bounds :
      (matches : List Match) (weight : RequirementWeight)
      → (of_nat 0 ≼ coverage matches weight) × (coverage matches weight ≼ of_nat 1)
  unfolding coverage
  coverage_bounds matches weight = share_of_bounds _

  pub min_of-le : (x y : D) → (min_of x y ≼ x) × (min_of x y ≼ y)
  min_of-le x y = ground (arith, le_total x y, le_refl x, le_refl y)

  pub le-min_of : (x y z : D) → z ≼ x → z ≼ y → z ≼ min_of x y
  le-min_of x y z h k = ground arith

  pub max_of-le : (x y z : D) → x ≼ z → y ≼ z → max_of x y ≼ z
  max_of-le x y z h k = ground arith

  pub le-max_of : (x y : D) → (x ≼ max_of x y) × (y ≼ max_of x y)
  le-max_of x y = ground (arith, le_total x y, le_refl x, le_refl y)

  pub cap_if-le : (b : Bool) (cap score : D) → cap_if b cap score ≼ score
  cap_if-le true cap score = (min_of-le score cap).0
  cap_if-le false cap score = le_refl score

  abbrev pub clamp : D → D
  clamp score = min_of (of_nat 100) (max_of (of_nat 0) score)

  clamp-le : (score z : D) → of_nat 0 ≼ z → score ≼ z → clamp score ≼ z
  clamp-le score z h k = le_trans _ _ _ (min_of-le _ _).1 (max_of-le _ _ z h k)

  max_from_bounds :
      (weights : TrackWeights D) (best : D) (tracks : List Track)
      → ((t : Track) → IsShare (weight_of weights t))
      → IsShare best
      → IsShare (max_from weights best tracks)
  unfolding max_from
  max_from_bounds weights best [] h k = k
  max_from_bounds weights best (t ∷ ts) h k =
      max_from_bounds weights (max_of best (weight_of weights t)) ts h
        (le_trans _ _ _ k.0 (le-max_of best (weight_of weights t)).0, max_of-le _ _ _ k.1 (h t).1)

  compute_track_alignment_bounds :
      (tracks : List Track) (weights : TrackWeights D)
      → ((t : Track) → IsShare (weight_of weights t))
      → IsShare (compute_track_alignment tracks weights)
  unfolding compute_track_alignment weight_of
  compute_track_alignment_bounds [] weights h = h unknown
  compute_track_alignment_bounds (t ∷ ts) weights h = max_from_bounds weights _ ts h (h t)

  -- A weighted share is from 0 to its weight.
  weighted :
      (w share : D) → of_nat 0 ≼ w → IsShare share → (of_nat 0 ≼ mul w share) × (mul w share ≼ w)
  weighted w share h k =
      (mul_nonneg w share h k.0, le_trans _ _ _ (mul_mono w share (of_nat 1) h k.1) (mul_one_le w))

  -- What the schema asks of the numbers of a configuration, but that the weights add up to 100.
  pub record IsInRange (config : ScoringConfig D) : Type 0 where
    pub mandatory_nonneg : of_nat 0 ≼ config.weights.mandatory_weight
    pub desirable_nonneg : of_nat 0 ≼ config.weights.desirable_weight
    pub alignment_nonneg : of_nat 0 ≼ config.weights.track_alignment_weight
    pub track_share : (t : Track) → IsShare (weight_of config.track_weights t)
    pub blocking_nonneg : of_nat 0 ≼ config.blocking_cap_score
    pub unknown_nonneg : of_nat 0 ≼ config.unknown_track_cap_score

  abbrev pub total_weight : ScoringConfig D → D
  total_weight config =
      add (add config.weights.mandatory_weight config.weights.desirable_weight)
        config.weights.track_alignment_weight

  raw_score_of_bounds :
      (matches : List Match) (tracks : List Track) (config : ScoringConfig D)
      → IsInRange config
      → (of_nat 0 ≼ raw_score_of matches tracks config)
        × (raw_score_of matches tracks config ≼ total_weight config)
  unfolding raw_score_of
  raw_score_of_bounds matches tracks config h =
      let a = weighted _ _ h.mandatory_nonneg (coverage_bounds matches mandatory) in
      let b = weighted _ _ h.desirable_nonneg (coverage_bounds matches desirable) in
      let c =
        weighted _ _ h.alignment_nonneg
          (compute_track_alignment_bounds tracks config.track_weights h.track_share) in
      (add_nonneg _ _ (add_nonneg _ _ a.0 b.0) c.0, add_mono _ _ _ _ (add_mono _ _ _ _ a.1 b.1) c.1)

  blocked_or_not :
      (failures : List Requirement) (cap raw : D)
      → (failures ≡ []) ⊎ (cap_if (not (is_nil failures)) cap raw ≼ cap)
  blocked_or_not [] cap raw = inl refl
  blocked_or_not (r ∷ rs) cap raw = inr (min_of-le raw cap).1

  tracked_or_not :
      (tracks : List Track) (cap raw : D)
      → ((t : Track) × (ts : List Track) × (tracks ≡ t ∷ ts))
        ⊎ (cap_if (is_nil tracks) cap raw ≼ cap)
  tracked_or_not [] cap raw = inr (min_of-le raw cap).1
  tracked_or_not (t ∷ ts) cap raw = inl (t, ts, refl)

  -- With weights and caps that are not negative and track weights from 0 to 1, the score is from 0
  -- to 100; it is at most the uncapped score, which is at most the sum of the three weights; it is at
  -- most the blocking cap unless no blocking requirement fails, and at most the cap of unknown tracks
  -- unless the posting has a track.
  pub compute_score_bounds :
      (matches : List Match) (tracks : List Track) (config : ScoringConfig D)
      (context : Option AcademicContext)
      → IsInRange config
      → let outcome = compute_score matches tracks config context in
        (of_nat 0 ≼ outcome.score)
        × (outcome.score ≼ of_nat 100)
        × (outcome.score ≼ raw_score_of matches tracks config)
        × (raw_score_of matches tracks config ≼ total_weight config)
        × ((find_blocking_failures matches ≡ []) ⊎ (outcome.score ≼ config.blocking_cap_score))
        × (((t : Track) × (ts : List Track) × (tracks ≡ t ∷ ts))
            ⊎ (outcome.score ≼ config.unknown_track_cap_score))
  unfolding compute_score capped_score
  compute_score_bounds matches tracks config context h =
      let raw = raw_score_of matches tracks config in
      let failures = find_blocking_failures matches in
      let blocked = cap_if (not (is_nil failures)) config.blocking_cap_score raw in
      let capped = cap_if-le (is_nil tracks) config.unknown_track_cap_score blocked in
      (
        le-min_of _ _ _ zero_le_hundred (le-max_of _ _).0,
        (min_of-le _ _).0,
        clamp-le _ _ (raw_score_of_bounds matches tracks config h).0
            (le_trans _ _ _ capped (cap_if-le _ _ _)),
        (raw_score_of_bounds matches tracks config h).1,
        elim (blocked_or_not failures config.blocking_cap_score raw) [
          | inl e ↦ inl e
          | inr e ↦ inr (clamp-le _ _ h.blocking_nonneg (le_trans _ _ _ capped e))
        ],
        elim (tracked_or_not tracks config.unknown_track_cap_score blocked) [
          | inl e ↦ inl e
          | inr e ↦ inr (clamp-le _ _ h.unknown_nonneg e)
        ],
      )

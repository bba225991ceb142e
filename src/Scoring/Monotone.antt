-- ===== src/Scoring/Monotone.antt =====
-- A better match never lowers the score of score.ts.
use argos_career.Base.{
  ℕ, suc, ◌≡◌, refl, ap, inl, inr, Bool, true, false, not, Option, List, [], ◌∷◌, map, filter,
  length, ◌≤◌, arith, Bool-cases,
}
use argos_career.Scoring.Number.{Double, ◌≼◌, IsDouble, min_of, max_of}
use argos_career.Scoring.Types.{
  RequirementWeight, mandatory, desirable, MatchStatus, met, partial, not_met, Requirement,
  is_verifiable, Match, Track, ScoringConfig,
}
use argos_career.Scoring.Stage.{
  is_nil, same_weight, fails_blocking, verifiable_matches, find_blocking_failures, status_weight,
  sum_of, share_of, coverage, raw_score_of, capped_score, cap_if, AcademicContext, compute_score,
}
use argos_career.Scoring.Coverage.{min_of-le, le-min_of, max_of-le, le-max_of}

-- `not_met`, `partial` and `met`, in this order.

abbrev pub rank : MatchStatus → ℕ
rank not_met = 0
rank partial = 1
rank met = 2

-- The same requirements in the same order, each matched at least as well.
abbrev pub Improves : List Match → List Match → Type 0
Improves [] [] = Unit
Improves (m ∷ ms) (n ∷ ns) =
    (m.requirement ≡ n.requirement) × (rank m.status ≤ rank n.status) × Improves ms ns
Improves _ _ = ⊥

Improves-length : (ms ns : List Match) → Improves ms ns → length ms ≡ length ns
Improves-length [] [] h = refl
Improves-length [] (n ∷ ns) h = absurd h
Improves-length (m ∷ ms) [] h = absurd h
Improves-length (m ∷ ms) (n ∷ ns) h = ap suc (Improves-length ms ns h.2)

abbrev by_requirement : (Requirement → Bool) → Match → Bool
by_requirement p m = p m.requirement

Improves-filter :
    (p : Requirement → Bool) (ms ns : List Match)
    → Improves ms ns
    → Improves (filter (by_requirement p) ms) (filter (by_requirement p) ns)
Improves-filter p [] [] h = tt
Improves-filter p [] (n ∷ ns) h = absurd h
Improves-filter p (m ∷ ms) [] h = absurd h
Improves-filter p (m ∷ ms) (n ∷ ns) (e, le, h) = elim (Bool-cases (p m.requirement)) [
  | inl k ↦
      let k' : p n.requirement ≡ true = rw (← e) k in rw (k, k') (e, le, Improves-filter p ms ns h)
  | inr k ↦ let k' : p n.requirement ≡ false = rw (← e) k in rw (k, k') (Improves-filter p ms ns h)
]

Improves-verifiable_matches :
    (ms ns : List Match) → Improves ms ns → Improves (verifiable_matches ms) (verifiable_matches ns)
unfolding verifiable_matches
Improves-verifiable_matches = Improves-filter is_verifiable

fails_blocking_of_better :
    (m n : Match)
    → m.requirement ≡ n.requirement
    → rank m.status ≤ rank n.status
    → fails_blocking m ≡ false
    → fails_blocking n ≡ false
fails_blocking_of_better m n e le h = ground (arith, ap (λ (r : Requirement). r.weight) e)

no_failure_of_better :
    (ms ns : List Match)
    → Improves ms ns
    → is_nil (map (λ (m : Match). m.requirement) (filter fails_blocking ms)) ≡ true
    → is_nil (map (λ (m : Match). m.requirement) (filter fails_blocking ns)) ≡ true
no_failure_of_better [] [] h e = e
no_failure_of_better [] (n ∷ ns) h e = absurd h
no_failure_of_better (m ∷ ms) [] h e = absurd h
no_failure_of_better (m ∷ ms) (n ∷ ns) (q, le, h) e = elim (Bool-cases (fails_blocking m)) [
  | inl k ↦ absurd (ground arith)
  | inr k ↦ rw (fails_blocking_of_better m n q le k) (no_failure_of_better ms ns h (rw k at e))
]

is_nil-find_blocking_failures :
    (ms ns : List Match)
    → Improves ms ns
    → is_nil (find_blocking_failures ms) ≡ true
    → is_nil (find_blocking_failures ns) ≡ true
unfolding find_blocking_failures
is_nil-find_blocking_failures ms ns h =
    no_failure_of_better (verifiable_matches ms) (verifiable_matches ns)
      (Improves-verifiable_matches ms ns h)

module _ {D : Type 0} ⦃d : Double D⦄ (laws : IsDouble D) where
  open d use {of_nat, half, add, mul, div, le}
  open laws use {
    le_refl, le_trans, zero_le_half, half_le_one, zero_le_one, add_mono, mul_mono, div_mono,
  }

  status_weight_mono :
      (s t : MatchStatus) → rank s ≤ rank t → ◌≼◌ {D = D} (status_weight s) (status_weight t)
  unfolding status_weight
  status_weight_mono met met h = le_refl _
  status_weight_mono met partial h = absurd (omega arith)
  status_weight_mono met not_met h = absurd (omega arith)
  status_weight_mono partial met h = half_le_one
  status_weight_mono partial partial h = le_refl _
  status_weight_mono partial not_met h = absurd (omega arith)
  status_weight_mono not_met met h = zero_le_one
  status_weight_mono not_met partial h = zero_le_half
  status_weight_mono not_met not_met h = le_refl _

  sum_of_mono : (x y : D) (ms ns : List Match) → x ≼ y → Improves ms ns → sum_of x ms ≼ sum_of y ns
  unfolding sum_of
  sum_of_mono x y [] [] k h = k
  sum_of_mono x y [] (n ∷ ns) k h = absurd h
  sum_of_mono x y (m ∷ ms) [] k h = absurd h
  sum_of_mono x y (m ∷ ms) (n ∷ ns) k h =
      sum_of_mono (add x (status_weight m.status)) (add y (status_weight n.status)) ms ns
        (add_mono _ _ _ _ k (status_weight_mono m.status n.status h.1)) h.2

  share_of_mono : (ms ns : List Match) → Improves ms ns → ◌≼◌ {D = D} (share_of ms) (share_of ns)
  unfolding share_of
  share_of_mono [] [] h = le_refl _
  share_of_mono [] (n ∷ ns) h = absurd h
  share_of_mono (m ∷ ms) [] h = absurd h
  share_of_mono (m ∷ ms) (n ∷ ns) h =
      rw (share_of, ← Improves-length ms ns h.2)
        (div_mono (length ms) _ _ (sum_of_mono _ _ (m ∷ ms) (n ∷ ns) (le_refl _) h))

  coverage_mono :
      (ms ns : List Match) (w : RequirementWeight)
      → Improves ms ns
      → ◌≼◌ {D = D} (coverage ms w) (coverage ns w)
  unfolding coverage
  coverage_mono ms ns w h = share_of_mono _ _ (
      Improves-filter (λ r. same_weight r.weight w) (verifiable_matches ms) (verifiable_matches ns)
        (Improves-verifiable_matches ms ns h))

  raw_score_of_mono :
      (ms ns : List Match) (tracks : List Track) (config : ScoringConfig D)
      → of_nat 0 ≼ config.weights.mandatory_weight
      → of_nat 0 ≼ config.weights.desirable_weight
      → Improves ms ns
      → raw_score_of ms tracks config ≼ raw_score_of ns tracks config
  unfolding raw_score_of
  raw_score_of_mono ms ns tracks config a b h =
      add_mono _ _ _ _
        (add_mono _ _ _ _ (mul_mono _ _ _ a (coverage_mono ms ns mandatory h))
          (mul_mono _ _ _ b (coverage_mono ms ns desirable h)))
        (le_refl _)

  min_of_mono : (x y v w : D) → x ≼ y → v ≼ w → min_of x v ≼ min_of y w
  min_of_mono x y v w h k =
      le-min_of laws y w _ (le_trans _ _ _ (min_of-le laws x v).0 h)
        (le_trans _ _ _ (min_of-le laws x v).1 k)

  max_of_mono : (x y v w : D) → x ≼ y → v ≼ w → max_of x v ≼ max_of y w
  max_of_mono x y v w h k =
      max_of-le laws x v _ (le_trans _ _ _ h (le-max_of laws y w).0)
        (le_trans _ _ _ k (le-max_of laws y w).1)

  cap_if_mono :
      (a b : Bool) (cap x y : D) → (a ≡ false → b ≡ false) → x ≼ y → cap_if a cap x ≼ cap_if b cap y
  cap_if_mono true true cap x y h k = min_of_mono x y cap cap k (le_refl _)
  cap_if_mono true false cap x y h k = le_trans _ _ _ (min_of-le laws x cap).0 k
  cap_if_mono false true cap x y h k = absurd (ground (arith, h refl))
  cap_if_mono false false cap x y h k = k

  -- Monotonicity of stage C: with weights that are not negative, matching the same requirements
  -- at least as well never gives a lower score, for the same tracks and configuration.
  pub compute_score_mono :
      (ms ns : List Match) (tracks : List Track) (config : ScoringConfig D)
      (context : Option AcademicContext)
      → of_nat 0 ≼ config.weights.mandatory_weight
      → of_nat 0 ≼ config.weights.desirable_weight
      → Improves ms ns
      → (compute_score ms tracks config context).score
        ≼ (compute_score ns tracks config context).score
  unfolding compute_score capped_score
  compute_score_mono ms ns tracks config context a b h = min_of_mono _ _ _ _ (le_refl _) (
      max_of_mono _ _ _ _ (le_refl _) (
        cap_if_mono (is_nil tracks) (is_nil tracks) _ _ _ (λ e. e)
          (cap_if_mono (not (is_nil (find_blocking_failures ms)))
            (not (is_nil (find_blocking_failures ns))) _ _ _
            (λ e. ground (arith, is_nil-find_blocking_failures ms ns h))
            (raw_score_of_mono ms ns tracks config a b h))))

-- ===== src/Scoring/Verdict.antt =====
-- What score.ts decides: the verdict, the requirements it reads, and the period gate.
use argos_career.Base.{◌≤◌, ◌≡◌, ◌↔◌, Option, List, length, filter_idem, arith}
use argos_career.Scoring.Number.{Double, ◌≼◌}
use argos_career.Scoring.Types.{is_verifiable, Match, Track, apply, discard, ScoringConfig}
use argos_career.Scoring.Stage.{
  verifiable_matches, find_blocking_failures, compute_critical_gaps, coverage, raw_score_of,
  compute_verdict, AcademicContext, compute_score,
}

verifiable_matches_idem :
    (matches : List Match)
    → verifiable_matches (verifiable_matches matches) ≡ verifiable_matches matches
unfolding verifiable_matches
verifiable_matches_idem matches = filter_idem (λ m. is_verifiable m.requirement) matches

module _ {D : Type 0} ⦃d : Double D⦄ where
  open d use {le}

  -- The verdict is `apply` exactly when the score reaches the threshold for `apply` and there are
  -- enough verifiable requirements.
  pub compute_score-apply_iff :
      (matches : List Match) (tracks : List Track) (config : ScoringConfig D)
      (context : Option AcademicContext)
      → let outcome = compute_score matches tracks config context in
        (outcome.verdict ≡ apply) ↔ (
          (config.thresholds.apply_from ≼ outcome.score)
          × (config.min_extracted_requirements ≤ length (verifiable_matches matches)))
  unfolding compute_score compute_verdict
  compute_score-apply_iff matches tracks config context = (λ h. ground arith, λ h. ground arith)

  -- The verdict is `discard` exactly when the score reaches neither threshold; low confidence
  -- never turns it into another.
  pub compute_score-discard_iff :
      (matches : List Match) (tracks : List Track) (config : ScoringConfig D)
      (context : Option AcademicContext)
      → let outcome = compute_score matches tracks config context in
        (outcome.verdict ≡ discard) ↔ (
          (¬ (config.thresholds.apply_from ≼ outcome.score))
          × (¬ (config.thresholds.review_from ≼ outcome.score)))
  unfolding compute_score compute_verdict
  compute_score-discard_iff matches tracks config context = (λ h. ground arith, λ h. ground arith)

  -- Stage C reads the verifiable requirements only: dropping the others from the matches changes
  -- no field of the outcome.
  pub compute_score-verifiable_matches :
      (matches : List Match) (tracks : List Track) (config : ScoringConfig D)
      (context : Option AcademicContext)
      → compute_score (verifiable_matches matches) tracks config context
        ≡ compute_score matches tracks config context
  unfolding compute_score raw_score_of coverage find_blocking_failures compute_critical_gaps
  compute_score-verifiable_matches matches tracks config context =
      cc (verifiable_matches_idem matches)

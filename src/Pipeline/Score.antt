-- ===== src/Pipeline/Score.antt =====
-- The scoring loop of `executeDeliver` in src/cli/main.ts.
use argos_career.Base.{
  ℕ, ◌+◌, Bool, true, false, not, ◌&&◌, ◌++◌, Text, codes, same, Option, none, some, List, [], ◌∷◌,
  leb, if◌then◌else◌,
}
use argos_career.Scoring.Number.{Double}
use argos_career.Scoring.Types.{
  ScoreOutcome, PeriodGate, ScoreFailureReason, max_retries_exceeded, score_failure_outcome,
}
use argos_career.Posting.Posting.{Posting}
use argos_career.Delivery.Digest.{Recommendation, ScoredPosting}
use argos_career.Persistence.Postings.{Rows, record_score_failure, clear_score_failures}
use argos_career.Pipeline.State.{
  EventOutcome, score_failed, scored_as, EventReason, failure_reason, World, ScoreResult, scored_ok,
  not_scored, Awaited, answered, thrown, Given, Progress, reason_name, count_failure,
}

unfoldable pub get_score_failure_count : Text → Rows → ℕ
get_score_failure_count fingerprint [] = 0
get_score_failure_count fingerprint (r ∷ rows) =
    if same r.fingerprint fingerprint
    then r.score_failure_count
    else get_score_failure_count fingerprint rows

-- Where a pass of the loop leaves it: `continue`, `break`, or a throw.
pub data Flow (D : Type 0) : Type 0 where
  continues : Progress D → Flow D
  stops : Progress D → Flow D
  throws : Progress D → Text → Flow D

abbrev pub empty_recommendation : Recommendation
empty_recommendation = record { recommended_variant = none; highlights = []; missing_terms = [] }

module _ {D : Type 0} ⦃d : Double D⦄ (g : Given D) where
  -- A posting's event at the current reading of the clock.
  abbrev pub noting : Posting → EventOutcome → Option EventReason → World → World
  noting posting outcome reason w = record w {
    events =
        w.events
        ++ (record {
          event_run_id = g.run_id;
          event_fingerprint = some posting.fingerprint;
          event_outcome = outcome;
          event_reason = reason;
          occurred_at = g.clock w.tick;
        }
            ∷ []);
    tick = w.tick + 1;
  }

  unfoldable pub failed_entry : Posting → ScoreFailureReason → ScoredPosting D
  unfolding score_failure_outcome
  failed_entry posting reason = record {
    posting = posting;
    outcome = score_failure_outcome reason;
    recommendation = empty_recommendation;
    input_truncated = none;
    recurring_gaps = none;
  }

  unfoldable pub give_up : Posting → Progress D → Progress D
  unfolding count_failure failed_entry
  give_up posting p = record p {
    world = noting posting score_failed (some (failure_reason max_retries_exceeded)) p.world;
    score_failure_counts = count_failure max_retries_exceeded p.score_failure_counts;
    scored_entries = p.scored_entries ++ (failed_entry posting max_retries_exceeded ∷ []);
  }

  abbrev pub scored_entry : Posting → ScoreOutcome D → Recommendation → Bool → ScoredPosting D
  scored_entry posting outcome recommendation input_truncated = record {
    posting = posting;
    outcome = outcome;
    recommendation = recommendation;
    input_truncated = some input_truncated;
    recurring_gaps = none;
  }

  -- A posting that was scored goes to the digest's entries, or waits for its period.
  abbrev pub entered : Posting → Option PeriodGate → ScoredPosting D → Progress D → Progress D
  entered posting none entry p = record p { scored_entries = p.scored_entries ++ (entry ∷ []) }
  entered posting (some gate) entry p = record p {
    period_blocked_entries =
        p.period_blocked_entries
        ++ (record { blocked_posting = posting; opens_at_label = gate.opens_at_label } ∷ []);
  }

  unfoldable pub after_score :
      Posting → ScoreOutcome D → Recommendation → Bool → Progress D → Progress D
  unfolding clear_score_failures
  after_score posting outcome recommendation input_truncated p =
      let noted = noting posting (scored_as outcome.verdict) none p.world in
      let next =
        entered posting outcome.period_gate
          (scored_entry posting outcome recommendation input_truncated) p in
      record next {
        world = record noted { rows = clear_score_failures posting.fingerprint noted.rows };
        scored_count = p.scored_count + 1;
      }

  abbrev pub fatal_message : ScoreFailureReason → Text
  fatal_message reason =
      codes "Scoring stopped after a run-wide permanent provider failure ("
      ++ reason_name reason
      ++ codes ")"

  unfoldable pub after_failure : Posting → ScoreFailureReason → Progress D → Progress D
  unfolding count_failure record_score_failure failed_entry
  after_failure posting reason p =
      let noted = noting posting score_failed (some (failure_reason reason)) p.world in
      record p {
        world = record noted {
          rows = record_score_failure posting.fingerprint (g.clock p.world.tick) noted.rows;
        };
        score_failure_counts = count_failure reason p.score_failure_counts;
        scored_entries = p.scored_entries ++ (failed_entry posting reason ∷ []);
      }

  unfoldable pub after_answer : Posting → Awaited (ScoreResult D) → Progress D → Flow D
  unfolding after_score after_failure
  after_answer posting (thrown message) p = throws p message
  after_answer posting (answered (scored_ok outcome recommendation input_truncated)) p =
      continues (after_score posting outcome recommendation input_truncated p)
  after_answer posting (answered (not_scored reason false)) p =
      continues (after_failure posting reason p)
  after_answer posting (answered (not_scored reason true)) p =
      stops (record (after_failure posting reason p) {
        batch_fatal_reason = some (fatal_message reason);
      })

  -- The scorer is awaited while others write to the table.
  unfoldable pub ask_scorer : Posting → Progress D → Flow D
  unfolding after_answer
  ask_scorer posting p =
      let (rows, answer) = g.score p.world.tick p.world.rows posting in
      after_answer posting answer
        (record p { world = record p.world { rows = rows; tick = p.world.tick + 1 } })

  unfoldable pub score_one : Posting → Progress D → Flow D
  unfolding get_score_failure_count give_up ask_scorer
  score_one posting p =
      if not p.cancel_requested && g.cancel_requested_at p.world.tick
      then stops (record p { cancel_requested = true })
      else if leb g.max_score_failures (get_score_failure_count posting.fingerprint p.world.rows)
      then continues (give_up posting p)
      else ask_scorer posting p

  unfoldable pub resume : Flow D → (Progress D → Flow D) → Flow D
  resume (continues p) rest = rest p
  resume (stops p) rest = stops p
  resume (throws p message) rest = throws p message

  unfoldable pub score_all : List Posting → Progress D → Flow D
  unfolding resume score_one
  score_all [] p = continues p
  score_all (posting ∷ postings) p = resume (score_one posting p) (λ q. score_all postings q)

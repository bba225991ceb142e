-- ===== src/Pipeline/Deliver.antt =====
-- `executeDedupAndClaim` and `executeDeliver` of src/cli/main.ts.
use argos_career.Base.{
  ℕ, zero, suc, ◌+◌, ◌-◌, Bool, true, false, not, ◌++◌, Text, codes, Option, none, some, is_some,
  List, [], ◌∷◌, map, filter, length, include, if◌then◌else◌,
}
use argos_career.Scoring.Number.{Double}
use argos_career.Scoring.Types.{ScoreFailureReason, max_retries_exceeded}
use argos_career.Posting.Posting.{Posting}
use argos_career.Prefilter.Rules.{PreFilterOutcome, apply_pre_filter}
use argos_career.Prefilter.Rank.{rank_for_scoring}
use argos_career.Delivery.Digest.{ScoredPosting, Digest, RunSummary, compose_digest}
use argos_career.Persistence.Postings.{
  PostingRow, Rows, claim_for_scoring, default_stale_claim_ms, release_unresolved_claims,
  mark_notified_many,
}
use argos_career.Pipeline.RunRows.{
  RunRow, RunOutcome, success, failed, cancelled, start_run, finish, find_runs_since,
  latest_success,
}
use argos_career.Pipeline.Origin.{admit}
use argos_career.Pipeline.State.{
  EventOutcome, passed, rejected, deferred, delivered, comparison_bound_reached, EventReason,
  filter_reason, international_budget_exhausted, PostingEvent, World, Awaited, answered, thrown,
  NotifyResult, notified, not_notified, DedupResult, Given, Progress, final_score_failure_counts,
}
use argos_career.Pipeline.Score.{Flow, continues, stops, throws, score_all}

pub record DeliverOutcome : Type 0 where
  pub filtered : ℕ
  pub scored : ℕ
  pub delivered_count : ℕ
  pub error : Option Text
  pub was_cancelled : Bool

-- What a run comes to: it returns, or rethrows.
pub data Ended : Type 0 where
  returned : DeliverOutcome → Ended
  rethrown : Text → Ended

abbrev pub sum_over : (RunRow → ℕ) → List RunRow → ℕ
sum_over f [] = 0
sum_over f (r ∷ rows) = f r + sum_over f rows

-- `[...new Set(rows.flatMap(f))]`.

abbrev pub included : List Text → List Text → List Text
unfolding include
included seen [] = seen
included seen (s ∷ ss) = included (include seen s) ss

abbrev pub union_over : (RunRow → List Text) → List Text → List RunRow → List Text
union_over f seen [] = seen
union_over f seen (r ∷ rows) = union_over f (included seen (f r)) rows

unfoldable pub summary_counts : List RunRow → ℕ → ℕ → RunSummary
unfolding latest_success find_runs_since
summary_counts runs filtered scored =
    let since = latest_success (codes "scoreAndDeliver") runs in
    let collect_runs = find_runs_since (codes "collect") since runs in
    let dedup_runs = find_runs_since (codes "dedup") since runs in
    record {
      collected = sum_over (λ (r : RunRow). r.collected_count) collect_runs;
      deduplicated =
          sum_over (λ (r : RunRow). r.new_count) collect_runs
          - sum_over (λ (r : RunRow). r.duplicate_count) dedup_runs;
      filtered = filtered;
      scored_count = scored;
      failed_sources = union_over (λ (r : RunRow). r.failed_sources) [] collect_runs;
      truncated_sources = union_over (λ (r : RunRow). r.truncated_sources) [] collect_runs;
    }

module _ {D : Type 0} ⦃d : Double D⦄ (g : Given D) where
  unfoldable pub truncation_event : DedupResult → ℕ → List PostingEvent
  truncation_event result now = elim result.comparison_truncated_count [
    | zero ↦ []
    | suc n ↦
        record {
          event_run_id = g.dedup_run_id;
          event_fingerprint = none;
          event_outcome = comparison_bound_reached;
          event_reason = none;
          occurred_at = now;
        }
        ∷ []
  ]

  -- The similarity pass and the claim, one transaction: on a throw the table is as before it.
  unfoldable pub dedup_and_claim : World → Awaited DedupResult → World × Awaited Rows
  unfolding finish claim_for_scoring truncation_event
  dedup_and_claim w (thrown message) = (
    record w {
      runs =
          finish g.dedup_run_id (g.clock w.tick) failed
            (λ r. record r { duplicate_count = 0; failure_reason = some message }) w.runs;
      tick = w.tick + 1;
    },
    thrown message,
  )
  dedup_and_claim w (answered result) =
      let (rows, claimed) =
        claim_for_scoring g.run_id (g.clock w.tick) default_stale_claim_ms result.marked_rows in
      (
        record {
          rows = rows;
          runs =
              finish g.dedup_run_id (g.clock (w.tick + 1)) success
                (λ r. record r { duplicate_count = result.marked_duplicate }) w.runs;
          events = w.events ++ result.shadow_events ++ truncation_event result (g.clock w.tick);
          tick = w.tick + 2;
        },
        answered claimed,
      )

  unfoldable pub execute_dedup_and_claim : World → World × Awaited Rows
  unfolding start_run dedup_and_claim
  execute_dedup_and_claim w =
      dedup_and_claim
        (record w {
          runs = start_run g.dedup_run_id (codes "dedup") (g.clock w.tick) g.triggered_by w.runs;
          tick = w.tick + 1;
        })
        (g.dedup w.rows)

  -- An event of the pre-filter and of the budget is at the start of the run.
  unfoldable pub filter_event : ℕ → Posting → EventOutcome → Option EventReason → PostingEvent
  filter_event started_at posting outcome reason = record {
    event_run_id = g.run_id;
    event_fingerprint = some posting.fingerprint;
    event_outcome = outcome;
    event_reason = reason;
    occurred_at = started_at;
  }

  unfoldable pub decided : ℕ → Posting → PreFilterOutcome
  unfolding apply_pre_filter
  decided started_at posting =
      apply_pre_filter g.unicode posting g.criteria g.profile_keywords started_at

  unfoldable pub decision_event : ℕ → Posting → PostingEvent
  unfolding filter_event decided
  decision_event started_at posting =
      let result = decided started_at posting in
      filter_event started_at posting (if result.passed then passed else rejected)
        (elim result.reason [ none ↦ none | some reason ↦ some (filter_reason reason) ])

  unfoldable pub ranked_postings : ℕ → Rows → List Posting
  unfolding rank_for_scoring decided
  ranked_postings started_at claimed =
      rank_for_scoring g.unicode g.criteria started_at
        (filter (λ (p : Posting). (decided started_at p).passed) (map g.posting_of claimed))

  -- The state that the scoring loop starts from.
  unfoldable pub admitted_progress : ℕ → Rows → World → List Posting × Progress D
  unfolding admit ranked_postings decision_event filter_event
  admitted_progress started_at claimed w =
      let ranked = ranked_postings started_at claimed in
      let (admitted, held_back) = admit g.upper g.origin ranked in
      (
        admitted,
        record {
          world = record w {
            events =
                w.events
                ++ map (λ (r : PostingRow). decision_event started_at (g.posting_of r)) claimed
                ++ map
                    (λ (p : Posting).
                      filter_event started_at p deferred (some international_budget_exhausted))
                    held_back;
          };
          filtered_count = length ranked;
          scored_count = 0;
          deferred_count = length held_back;
          batch_fatal_reason = none;
          cancel_requested = false;
          score_failure_counts = [];
          scored_entries = [];
          period_blocked_entries = [];
        },
      )

  unfoldable pub digest_of : ℕ → Progress D → Digest D
  unfolding compose_digest summary_counts
  digest_of started_at p = compose_digest (record {
    input_run_id = g.run_id;
    input_generated_at = started_at;
    scored =
        map
          (λ (e : ScoredPosting D). record e {
            recurring_gaps = some (g.recurring_gaps_for e.outcome);
          })
          p.scored_entries;
    input_period_blocked = p.period_blocked_entries;
    input_summary = summary_counts p.world.runs p.filtered_count p.scored_count;
  })

  abbrev pub is_recoverable_failure : Option ScoreFailureReason → Bool
  is_recoverable_failure none = false
  is_recoverable_failure (some max_retries_exceeded) = false
  is_recoverable_failure (some _) = true

  unfoldable pub sent_entries : Digest D → List (ScoredPosting D)
  sent_entries digest = digest.recommended ++ digest.review_section ++ digest.unreachable

  unfoldable pub notified_fingerprints : List (ScoredPosting D) → List Text
  notified_fingerprints entries =
      map (λ (e : ScoredPosting D). e.posting.fingerprint)
        (filter
          (λ (e : ScoredPosting D). not (is_recoverable_failure e.outcome.score_failure_reason))
          entries)

  -- The counts that the row of the run is closed with.
  unfoldable pub final_counts : Option Text → ℕ → Progress D → RunRow → RunRow
  unfolding final_score_failure_counts
  final_counts reason delivered_count p r = record r {
    filtered_count = p.filtered_count;
    scored_count = p.scored_count;
    delivered_count = delivered_count;
    score_failure_counts = final_score_failure_counts p;
    failure_reason = reason;
  }

  -- Every exit releases the claims that are left, and closes the row of the run.
  unfoldable pub close : ℕ → RunOutcome → Option Text → ℕ → Progress D → World → World
  unfolding release_unresolved_claims finish final_counts
  close finished_at outcome reason delivered_count p w = record w {
    rows = release_unresolved_claims g.run_id w.rows;
    runs = finish g.run_id finished_at outcome (final_counts reason delivered_count p) w.runs;
    tick = w.tick + 1;
  }

  -- The `catch` around the run.
  unfoldable pub rethrow : Progress D → Text → World × Ended
  unfolding close
  rethrow p message =
      (close (g.clock p.world.tick) failed (some message) 0 p p.world, rethrown message)

  abbrev pub final_outcome : Progress D → RunOutcome
  final_outcome p =
      if p.cancel_requested
      then cancelled
      else if is_some p.batch_fatal_reason
      then failed
      else success

  abbrev pub final_reason : Progress D → Option Text
  final_reason p = if p.cancel_requested then none else p.batch_fatal_reason

  unfoldable pub delivery_event : ℕ → ScoredPosting D → PostingEvent
  unfolding filter_event
  delivery_event at_ms entry = filter_event at_ms entry.posting delivered none

  -- After the notifier.
  unfoldable pub after_notify : Progress D → Digest D → Awaited NotifyResult → World × Ended
  unfolding rethrow close sent_entries notified_fingerprints mark_notified_many delivery_event
  after_notify p digest (thrown message) = rethrow p message
  after_notify p digest (answered (not_notified message)) = (
    close (g.clock p.world.tick) failed (some message) 0 p p.world,
    returned (record {
      filtered = p.filtered_count;
      scored = p.scored_count;
      delivered_count = 0;
      error = some message;
      was_cancelled = false;
    }),
  )
  after_notify p digest (answered notified) =
      let sent = sent_entries digest in
      let delivered_at = g.clock p.world.tick in
      let marked = record p.world {
        rows = mark_notified_many (notified_fingerprints sent) delivered_at p.world.rows;
        events = p.world.events ++ map (delivery_event delivered_at) sent;
      } in
      (
        close delivered_at (final_outcome p) (final_reason p) (length sent) p marked,
        returned (record {
          filtered = p.filtered_count;
          scored = p.scored_count;
          delivered_count = length sent;
          error = p.batch_fatal_reason;
          was_cancelled = p.cancel_requested;
        }),
      )

  unfoldable pub send_digest : ℕ → Progress D → World × Ended
  unfolding digest_of after_notify
  send_digest started_at p =
      let digest = digest_of started_at p in
      let (rows, answer) = g.notify p.world.rows digest in
      after_notify (record p { world = record p.world { rows = rows } }) digest answer

  unfoldable pub after_scoring : ℕ → Flow D → World × Ended
  unfolding send_digest rethrow
  after_scoring started_at (continues p) = send_digest started_at p
  after_scoring started_at (stops p) = send_digest started_at p
  after_scoring started_at (throws p message) = rethrow p message

  abbrev pub no_progress : World → Progress D
  no_progress w = record {
    world = w;
    filtered_count = 0;
    scored_count = 0;
    deferred_count = 0;
    batch_fatal_reason = none;
    cancel_requested = false;
    score_failure_counts = [];
    scored_entries = [];
    period_blocked_entries = [];
  }

  unfoldable pub after_claim : ℕ → World → Awaited Rows → World × Ended
  unfolding rethrow after_scoring score_all admitted_progress
  after_claim started_at w (thrown message) = rethrow (no_progress w) message
  after_claim started_at w (answered claimed) =
      let (admitted, p) = admitted_progress started_at claimed w in
      after_scoring started_at (score_all g admitted p)

  -- The row of the run, and its two readings of the clock.
  unfoldable pub begun : World → World
  unfolding start_run
  begun w = record w {
    runs = start_run g.run_id (codes "scoreAndDeliver") (g.clock w.tick) g.triggered_by w.runs;
    tick = w.tick + 2;
  }

  unfoldable pub execute_deliver : World → World × Ended
  unfolding begun execute_dedup_and_claim after_claim
  execute_deliver w =
      let (claimed_world, claimed) = execute_dedup_and_claim (begun w) in
      after_claim (g.clock (w.tick + 1)) claimed_world claimed

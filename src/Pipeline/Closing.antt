-- ===== src/Pipeline/Closing.antt =====
-- How a delivery run of main.ts ends, on every way out.
use mathlib.Core.Path.{subst}
use argos_career.Base.{
  ℕ, ◌+◌, ◌≡◌, refl, sym, or_else, true, false, not, ◌&&◌, Text, Option, is_some, lookup, List, [],
  ◌∷◌, All, length, arith,
}
use argos_career.Scoring.Number.{Double}
use argos_career.Scoring.Types.{ScoreFailureReason}
use argos_career.Delivery.Digest.{Digest}
use argos_career.Persistence.Postings.{PostingRow, Rows, is_run, release_unresolved_claims}
use argos_career.Pipeline.RunRows.{RunRow, RunOutcome}
use argos_career.Pipeline.Budget.{length-admit}
use argos_career.Pipeline.State.{
  World, Awaited, answered, thrown, NotifyResult, notified, not_notified, Given, Progress,
  PostingEvent, reason_name, deferred_key, sum_of_counts,
}
use argos_career.Pipeline.Tally.{
  passing, scoring, deferring, delivering, failing, tally, IsTallied, AllTold, FlowTold,
  score_all-FlowTold,
}
use argos_career.Pipeline.Told.{
  AreForeign, IsOwnRun, admitted_progress-AllTold, no_progress-AllTold, delivered-IsTallied,
  claimed-AreForeign,
}
use argos_career.Pipeline.Score.{Flow, continues, stops, throws, score_all}
use argos_career.Pipeline.Accounts.{HasRoom, FlowHasRoom, score_all-HasRoom}
use argos_career.Pipeline.Deliver.{
  close, rethrow, after_notify, send_digest, after_scoring, no_progress, after_claim,
  admitted_progress, ranked_postings, digest_of, sent_entries, execute_dedup_and_claim, begun,
  execute_deliver,
}

-- A row that is closed, with the counts that the audit trail of the run tells, and a breakdown that
-- adds up.
pub record IsClosed (run_id : Text) (events : List PostingEvent) (r : RunRow) : Type 0 where
  pub finished : is_some r.finished_at ≡ true
  pub ended : is_some r.outcome ≡ true
  pub filtered : r.filtered_count ≡ tally run_id passing events
  pub scored : r.scored_count ≡ tally run_id scoring events
  pub delivered_ones : r.delivered_count ≡ tally run_id delivering events
  pub failed_for :
      (reason : ScoreFailureReason)
      → or_else (lookup (reason_name reason) r.score_failure_counts) 0
        ≡ tally run_id (failing reason) events
  pub held_back :
      or_else (lookup deferred_key r.score_failure_counts) 0 ≡ tally run_id deferring events
  pub reconciled : r.filtered_count ≡ r.scored_count + sum_of_counts r.score_failure_counts

-- No claim of the run is left on a posting that is not notified.
abbrev pub IsReleased : Text → PostingRow → Type 0
IsReleased run_id r = (is_run r.scoring_claim_run_id run_id && not (is_some r.notified_at)) ≡ false

module _ {D : Type 0} ⦃d : Double D⦄ (g : Given D) where
  -- The last thing done is to close, with counters that add up, and that the events tell if `fact`
  -- holds.
  record Closes (fact : Type 0) (w : World) : Type 0 where
    at_ms : ℕ
    outcome : RunOutcome
    reason : Option Text
    count : ℕ
    progress : Progress D
    before : World
    closing : w ≡ close g at_ms outcome reason count progress before
    room : HasRoom 0 progress
    told : fact → IsTallied g.run_id count progress before.events

  module _ (fact : Type 0) where
    rethrow-Closes :
        (p : Progress D) (message : Text)
        → HasRoom 0 p
        → (fact → AllTold g p)
        → Closes fact (rethrow g p message).0
    unfolding rethrow
    rethrow-Closes p message h t = record {
      at_ms = _;
      outcome = _;
      reason = _;
      count = _;
      progress = p;
      before = p.world;
      closing = refl;
      room = h;
      told = t;
    }

    after_notify-Closes :
        (p : Progress D) (digest : Digest D) (answer : Awaited NotifyResult)
        → HasRoom 0 p
        → (fact → AllTold g p)
        → Closes fact (after_notify g p digest answer).0
    unfolding after_notify
    after_notify-Closes p digest (thrown message) h t = rethrow-Closes p message h t
    after_notify-Closes p digest (answered (not_notified message)) h t = record {
      at_ms = _;
      outcome = _;
      reason = _;
      count = _;
      progress = p;
      before = p.world;
      closing = refl;
      room = h;
      told = t;
    }
    after_notify-Closes p digest (answered notified) h t = record {
      at_ms = _;
      outcome = _;
      reason = _;
      count = _;
      progress = p;
      before = _;
      closing = refl;
      room = h;
      told = λ f. delivered-IsTallied g (g.clock p.world.tick) p (sent_entries g digest) (t f);
    }

    send_digest-Closes :
        (started_at : ℕ) (p : Progress D)
        → HasRoom 0 p
        → (fact → AllTold g p)
        → Closes fact (send_digest g started_at p).0
    unfolding send_digest
    send_digest-Closes started_at p h t =
        let digest = digest_of g started_at p in
        let (rows, answer) = g.notify p.world.rows digest in
        after_notify-Closes (record p { world = record p.world { rows = rows } }) digest answer
          (record {
            room = h.room;
            no_not_attempted = h.no_not_attempted;
            no_deferred = h.no_deferred;
          })
          (λ f. record {
            passes = (t f).passes;
            scores = (t f).scores;
            defers = (t f).defers;
            delivers = (t f).delivers;
            fails = (t f).fails;
          })

    after_scoring-Closes :
        (started_at : ℕ) (flow : Flow D)
        → FlowHasRoom 0 flow
        → (fact → FlowTold g flow)
        → Closes fact (after_scoring g started_at flow).0
    unfolding after_scoring FlowHasRoom
    after_scoring-Closes started_at (continues p) h t = send_digest-Closes started_at p h t
    after_scoring-Closes started_at (stops p) h t = send_digest-Closes started_at p h t
    after_scoring-Closes started_at (throws p message) h t = rethrow-Closes p message h t

  admitted_progress-HasRoom :
      (started_at : ℕ) (claimed : Rows) (w : World)
      → HasRoom
          (length (admitted_progress g started_at claimed w).0)
          (admitted_progress g started_at claimed w).1
  unfolding admitted_progress sum_of_counts lookup
  admitted_progress-HasRoom started_at claimed w =
      let ranked = ranked_postings g started_at claimed in
      record {
        room = omega (arith, length-admit g.upper g.origin ranked);
        no_not_attempted = refl;
        no_deferred = refl;
      }

  no_progress-HasRoom : (w : World) → HasRoom 0 (no_progress g w)
  unfolding sum_of_counts lookup
  no_progress-HasRoom w = record { room = omega arith; no_not_attempted = refl; no_deferred = refl }

  after_claim-Closes :
      (fact : Type 0) (started_at : ℕ) (w : World) (claimed : Awaited Rows)
      → (fact → AreForeign g w.events)
      → Closes fact (after_claim g started_at w claimed).0
  unfolding after_claim
  after_claim-Closes fact started_at w (thrown message) f =
      rethrow-Closes fact (no_progress g w) message (no_progress-HasRoom w)
        (λ h. no_progress-AllTold g w (f h))
  after_claim-Closes fact started_at w (answered claimed) f =
      let (admitted, p) = admitted_progress g started_at claimed w in
      after_scoring-Closes fact started_at (score_all g admitted p)
        (score_all-HasRoom g admitted p (admitted_progress-HasRoom started_at claimed w))
        (λ h.
          score_all-FlowTold g admitted p (admitted_progress-AllTold g started_at claimed w (f h)))

  execute_deliver-Closes : (w : World) → Closes (IsOwnRun g w) (execute_deliver g w).0
  unfolding execute_deliver
  execute_deliver-Closes w =
      let (claimed_world, claimed) = execute_dedup_and_claim g (begun g w) in
      after_claim-Closes (IsOwnRun g w) (g.clock (w.tick + 1)) claimed_world claimed
        (claimed-AreForeign g w)

  released : (rows : Rows) → All (IsReleased g.run_id) (release_unresolved_claims g.run_id rows)
  unfolding release_unresolved_claims
  released [] = tt
  released (r ∷ rows) = (ground arith, released rows)

  -- Whatever the similarity pass, the scorer and the notifier do, a run that returns or rethrows
  -- leaves no claim of its own on a posting that is not notified.
  pub execute_deliver-releases :
      (w : World) → All (IsReleased g.run_id) (execute_deliver g w).0.rows
  unfolding close
  execute_deliver-releases w =
      let c = execute_deliver-Closes w in
      subst (λ v. All (IsReleased g.run_id) v.rows) (sym c.closing) (released c.before.rows)

-- ===== src/Pipeline/Accounts.antt =====
-- What a delivery run of main.ts accounts for, and how it closes.
use argos_career.Base.{
  ℕ, zero, suc, ◌+◌, ◌-◌, ◌≤◌, ◌≡◌, refl, ap, ◌∙◌, inl, inr, Bool, true, false, not, ◌&&◌, Text,
  same, Dict, lookup, insert, lookup-insert, Option, none, some, or_else, List, [], ◌∷◌, length,
  leb, arith, Bool-cases,
}
use argos_career.Scoring.Number.{Double}
use argos_career.Scoring.Types.{
  ScoreOutcome, PeriodGate, ScoreFailureReason, invalid_output, extraction_failed, matching_failed,
  max_retries_exceeded,
}
use argos_career.Posting.Posting.{Posting}
use argos_career.Delivery.Digest.{Recommendation, ScoredPosting}
use argos_career.Pipeline.State.{
  World, ScoreResult, scored_ok, not_scored, Awaited, answered, thrown, Given, Progress,
  reason_name, count_failure, sum_of_counts, not_attempted_key, deferred_key, with_not_attempted,
  with_deferred, final_score_failure_counts,
}
use argos_career.Pipeline.Score.{
  Flow, continues, stops, throws, give_up, entered, after_score, after_failure, after_answer,
  ask_scorer, score_one, resume, score_all, get_score_failure_count,
}

-- Counts of failures.

sum_of_counts-insert :
    (k : Text) (n : ℕ) (counts : Dict ℕ)
    → sum_of_counts (insert k n counts) + or_else (lookup k counts) 0 ≡ sum_of_counts counts + n
unfolding sum_of_counts insert lookup
sum_of_counts-insert k n [] = omega arith
sum_of_counts-insert k n ((j, m) ∷ counts) = ground (arith, sum_of_counts-insert k n counts)

sum_of_counts-count_failure :
    (reason : ScoreFailureReason) (counts : Dict ℕ)
    → sum_of_counts (count_failure reason counts) ≡ sum_of_counts counts + 1
unfolding count_failure
sum_of_counts-count_failure reason counts =
    let h =
      sum_of_counts-insert (reason_name reason) (or_else (lookup (reason_name reason) counts) 0 + 1)
        counts in
    omega (arith, h)

-- A key that no reason has.
abbrev pub IsForeignKey : Text → Type 0
IsForeignKey k = (reason : ScoreFailureReason) → same (reason_name reason) k ≡ false

not_attempted-IsForeignKey : IsForeignKey not_attempted_key
not_attempted-IsForeignKey invalid_output = refl
not_attempted-IsForeignKey extraction_failed = refl
not_attempted-IsForeignKey matching_failed = refl
not_attempted-IsForeignKey max_retries_exceeded = refl

deferred-IsForeignKey : IsForeignKey deferred_key
deferred-IsForeignKey invalid_output = refl
deferred-IsForeignKey extraction_failed = refl
deferred-IsForeignKey matching_failed = refl
deferred-IsForeignKey max_retries_exceeded = refl

lookup-count_failure :
    (k : Text) (reason : ScoreFailureReason) (counts : Dict ℕ)
    → IsForeignKey k
    → lookup k counts ≡ none
    → lookup k (count_failure reason counts) ≡ none
unfolding count_failure
lookup-count_failure k reason counts f e =
    rw
      (
        lookup-insert (reason_name reason) k (or_else (lookup (reason_name reason) counts) 0 + 1)
            counts,
        f reason,
      )
      e

-- There is room for `left` more postings.
pub record HasRoom {D : Type 0} (left : ℕ) (p : Progress D) : Type 0 where
  pub room :
      p.scored_count + sum_of_counts p.score_failure_counts + p.deferred_count + left
      ≤ p.filtered_count
  pub no_not_attempted : lookup not_attempted_key p.score_failure_counts ≡ none
  pub no_deferred : lookup deferred_key p.score_failure_counts ≡ none

sum-with_not_attempted :
    (n : ℕ) (counts : Dict ℕ)
    → lookup not_attempted_key counts ≡ none
    → sum_of_counts (with_not_attempted n counts) ≡ sum_of_counts counts + n
unfolding with_not_attempted
sum-with_not_attempted zero counts e = omega arith
sum-with_not_attempted (suc n) counts e =
    let h = sum_of_counts-insert not_attempted_key (suc n) counts in ground (arith, h, e)

sum-with_deferred :
    (n : ℕ) (counts : Dict ℕ)
    → lookup deferred_key counts ≡ none
    → sum_of_counts (with_deferred n counts) ≡ sum_of_counts counts + n
unfolding with_deferred
sum-with_deferred zero counts e = omega arith
sum-with_deferred (suc n) counts e =
    let h = sum_of_counts-insert deferred_key (suc n) counts in ground (arith, h, e)

lookup-with_not_attempted :
    (n : ℕ) (counts : Dict ℕ)
    → lookup deferred_key counts ≡ none
    → lookup deferred_key (with_not_attempted n counts) ≡ none
unfolding with_not_attempted
lookup-with_not_attempted zero counts e = e
lookup-with_not_attempted (suc n) counts e =
    rw (lookup-insert not_attempted_key deferred_key (suc n) counts) e

lookup-with_deferred :
    (n : ℕ) (k : Text) (counts : Dict ℕ)
    → same deferred_key k ≡ false
    → lookup k (with_deferred n counts) ≡ lookup k counts
unfolding with_deferred
lookup-with_deferred zero k counts e = refl
lookup-with_deferred (suc n) k counts e = rw (lookup-insert deferred_key k (suc n) counts, e) refl

lookup-with_not_attempted_other :
    (n : ℕ) (k : Text) (counts : Dict ℕ)
    → same not_attempted_key k ≡ false
    → lookup k (with_not_attempted n counts) ≡ lookup k counts
unfolding with_not_attempted
lookup-with_not_attempted_other zero k counts e = refl
lookup-with_not_attempted_other (suc n) k counts e =
    rw (lookup-insert not_attempted_key k (suc n) counts, e) refl

lookup-deferred_key :
    (n : ℕ) (counts : Dict ℕ)
    → lookup deferred_key counts ≡ none
    → or_else (lookup deferred_key (with_deferred n counts)) 0 ≡ n
unfolding with_deferred
lookup-deferred_key zero counts e = rw e refl
lookup-deferred_key (suc n) counts e =
    ap (λ o. or_else o 0) (lookup-insert deferred_key deferred_key (suc n) counts)

module _ {D : Type 0} where
  -- The breakdown adds up to what was not scored.
  pub reconciles :
      (left : ℕ) (p : Progress D)
      → HasRoom left p
      → p.filtered_count ≡ p.scored_count + sum_of_counts (final_score_failure_counts p)
  unfolding final_score_failure_counts
  reconciles left p h =
      let n =
        p.filtered_count
        - (p.deferred_count + p.scored_count + sum_of_counts p.score_failure_counts) in
      let first = sum-with_not_attempted n p.score_failure_counts h.no_not_attempted in
      let second =
        sum-with_deferred p.deferred_count (with_not_attempted n p.score_failure_counts)
          (lookup-with_not_attempted n p.score_failure_counts h.no_deferred) in
      omega (arith, first, second, h.room)

  -- The breakdown keeps the counts by reason, and has that of the deferred postings.
  pub reason_kept :
      (p : Progress D) (reason : ScoreFailureReason)
      → or_else (lookup (reason_name reason) (final_score_failure_counts p)) 0
        ≡ or_else (lookup (reason_name reason) p.score_failure_counts) 0
  unfolding final_score_failure_counts
  reason_kept p reason =
      ap (λ o. or_else o 0)
        (lookup-with_deferred p.deferred_count (reason_name reason) _ (foreign_deferred reason)
          ∙ lookup-with_not_attempted_other _ (reason_name reason) p.score_failure_counts
              (foreign_not_attempted reason))
    where
      foreign_deferred : (r : ScoreFailureReason) → same deferred_key (reason_name r) ≡ false
      foreign_deferred invalid_output = refl
      foreign_deferred extraction_failed = refl
      foreign_deferred matching_failed = refl
      foreign_deferred max_retries_exceeded = refl

      foreign_not_attempted :
          (r : ScoreFailureReason) → same not_attempted_key (reason_name r) ≡ false
      foreign_not_attempted invalid_output = refl
      foreign_not_attempted extraction_failed = refl
      foreign_not_attempted matching_failed = refl
      foreign_not_attempted max_retries_exceeded = refl

  pub deferred_kept :
      (left : ℕ) (p : Progress D)
      → HasRoom left p
      → or_else (lookup deferred_key (final_score_failure_counts p)) 0 ≡ p.deferred_count
  unfolding final_score_failure_counts
  deferred_kept left p h =
      lookup-deferred_key p.deferred_count _
        (lookup-with_not_attempted _ p.score_failure_counts h.no_deferred)

  HasRoom-weaken : (left : ℕ) (p : Progress D) → HasRoom left p → HasRoom 0 p
  HasRoom-weaken left p h = record {
    room = omega (arith, h.room);
    no_not_attempted = h.no_not_attempted;
    no_deferred = h.no_deferred;
  }

  -- After one more posting.
  unfoldable pub FlowHasRoom : ℕ → Flow D → Type 0
  FlowHasRoom left (continues p) = HasRoom left p
  FlowHasRoom left (stops p) = HasRoom 0 p
  FlowHasRoom left (throws p message) = HasRoom 0 p

  module _ ⦃d : Double D⦄ (g : Given D) (posting : Posting) (left : ℕ) where
    give_up-HasRoom : (p : Progress D) → HasRoom (suc left) p → HasRoom left (give_up g posting p)
    unfolding give_up
    give_up-HasRoom p h = record {
      room =
          omega (
            arith,
            h.room,
            sum_of_counts-count_failure max_retries_exceeded p.score_failure_counts,
          );
      no_not_attempted =
          lookup-count_failure not_attempted_key max_retries_exceeded p.score_failure_counts
            not_attempted-IsForeignKey h.no_not_attempted;
      no_deferred =
          lookup-count_failure deferred_key max_retries_exceeded p.score_failure_counts
            deferred-IsForeignKey h.no_deferred;
    }

    after_failure-HasRoom :
        (reason : ScoreFailureReason) (p : Progress D)
        → HasRoom (suc left) p
        → HasRoom left (after_failure g posting reason p)
    unfolding after_failure
    after_failure-HasRoom reason p h = record {
      room = omega (arith, h.room, sum_of_counts-count_failure reason p.score_failure_counts);
      no_not_attempted =
          lookup-count_failure not_attempted_key reason p.score_failure_counts
            not_attempted-IsForeignKey h.no_not_attempted;
      no_deferred =
          lookup-count_failure deferred_key reason p.score_failure_counts deferred-IsForeignKey
            h.no_deferred;
    }

    entered-HasRoom :
        (gate : Option PeriodGate) (entry : ScoredPosting D) (w : World) (p : Progress D)
        → HasRoom (suc left) p
        → HasRoom left (record (entered g posting gate entry p) {
          world = w;
          scored_count = p.scored_count + 1;
        })
    entered-HasRoom none entry w p h = record {
      room = omega (arith, h.room);
      no_not_attempted = h.no_not_attempted;
      no_deferred = h.no_deferred;
    }
    entered-HasRoom (some gate) entry w p h = record {
      room = omega (arith, h.room);
      no_not_attempted = h.no_not_attempted;
      no_deferred = h.no_deferred;
    }

    after_score-HasRoom :
        (outcome : ScoreOutcome D) (recommendation : Recommendation) (truncated : Bool)
        (p : Progress D)
        → HasRoom (suc left) p
        → HasRoom left (after_score g posting outcome recommendation truncated p)
    unfolding after_score
    after_score-HasRoom outcome recommendation truncated p h =
        entered-HasRoom outcome.period_gate _ _ p h

    after_answer-HasRoom :
        (answer : Awaited (ScoreResult D)) (p : Progress D)
        → HasRoom (suc left) p
        → FlowHasRoom left (after_answer g posting answer p)
    unfolding after_answer FlowHasRoom
    after_answer-HasRoom (thrown message) p h = HasRoom-weaken (suc left) p h
    after_answer-HasRoom (answered (scored_ok outcome recommendation truncated)) p h =
        after_score-HasRoom outcome recommendation truncated p h
    after_answer-HasRoom (answered (not_scored reason false)) p h = after_failure-HasRoom reason p h
    after_answer-HasRoom (answered (not_scored reason true)) p h =
        let k = HasRoom-weaken left _ (after_failure-HasRoom reason p h) in
        record { room = k.room; no_not_attempted = k.no_not_attempted; no_deferred = k.no_deferred }

    score_one-HasRoom :
        (p : Progress D) → HasRoom (suc left) p → FlowHasRoom left (score_one g posting p)
    unfolding score_one ask_scorer FlowHasRoom
    score_one-HasRoom p h =
        elim (Bool-cases (not p.cancel_requested && g.cancel_requested_at p.world.tick)) [
          | inl e ↦ rw e (record {
            room = omega (arith, h.room);
            no_not_attempted = h.no_not_attempted;
            no_deferred = h.no_deferred;
          })
          | inr e ↦
              elim (Bool-cases (
                leb g.max_score_failures
                  (get_score_failure_count posting.fingerprint p.world.rows))) [
                    | inl k ↦ rw (e, k) (give_up-HasRoom p h)
                    | inr k ↦
                        rw (e, k)
                          (after_answer-HasRoom (g.score p.world.tick p.world.rows posting).1 _
                            (record {
                              room = h.room;
                              no_not_attempted = h.no_not_attempted;
                              no_deferred = h.no_deferred;
                            }))
                  ]
        ]

  module _ ⦃d : Double D⦄ (g : Given D) where
    pub score_all-HasRoom :
        (postings : List Posting) (p : Progress D)
        → HasRoom (length postings) p
        → FlowHasRoom 0 (score_all g postings p)
    unfolding score_all FlowHasRoom
    score_all-HasRoom [] p h = h
    score_all-HasRoom (posting ∷ postings) p h =
        resumed (score_one g posting p) (score_one-HasRoom g posting (length postings) p h)
          (λ q k. score_all-HasRoom postings q k)
      where
        resumed :
            (flow : Flow D)
            → FlowHasRoom (length postings) flow
            → ((q : Progress D)
                → HasRoom (length postings) q
                → FlowHasRoom 0 (score_all g postings q))
            → FlowHasRoom 0 (resume g flow (λ q. score_all g postings q))
        resumed (continues q) k rest = rest q k
        resumed (stops q) k rest = k
        resumed (throws q message) k rest = k

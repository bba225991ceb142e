-- ===== src/Pipeline/Tally.antt =====
-- The audit trail of a delivery run of main.ts against its counters.
use argos_career.Base.{
  ℕ, suc, ◌+◌, ◌≡◌, refl, sym, ◌∙◌, inl, inr, Bool, true, false, not, ◌&&◌, Text, same, same_refl,
  lookup, lookup-insert, Option, none, some, or_else, List, [], ◌∷◌, ◌++◌, leb, arith, Bool-cases,
  if◌then◌else◌,
}
use argos_career.Scoring.Number.{Double}
use argos_career.Scoring.Types.{
  Verdict, ScoreOutcome, PeriodGate, ScoreFailureReason, invalid_output, extraction_failed,
  matching_failed, max_retries_exceeded,
}
use argos_career.Posting.Posting.{Posting}
use argos_career.Delivery.Digest.{Recommendation, ScoredPosting}
use argos_career.Pipeline.State.{
  EventOutcome, passed, deferred, score_failed, delivered, scored_as, EventReason, failure_reason,
  PostingEvent, World, ScoreResult, scored_ok, not_scored, Awaited, answered, thrown, Given,
  Progress, reason_name, count_failure,
}
use argos_career.Pipeline.Score.{
  Flow, continues, stops, throws, give_up, entered, after_score, after_failure, after_answer,
  ask_scorer, score_one, resume, score_all, get_score_failure_count,
}

-- What an event of a run tells of a posting.

pub data Kind : Type 0 where
  passing scoring deferring delivering : Kind
  failing : ScoreFailureReason → Kind

abbrev pub same_reason : ScoreFailureReason → ScoreFailureReason → Bool
same_reason invalid_output invalid_output = true
same_reason extraction_failed extraction_failed = true
same_reason matching_failed matching_failed = true
same_reason max_retries_exceeded max_retries_exceeded = true
same_reason _ _ = false

abbrev pub tells : Kind → EventOutcome → Option EventReason → Bool
tells passing passed reason = true
tells scoring (scored_as verdict) reason = true
tells deferring deferred reason = true
tells delivering delivered reason = true
tells (failing cause) score_failed (some (failure_reason reason)) = same_reason reason cause
tells _ _ _ = false

abbrev pub bit : Bool → ℕ
bit false = 0
bit true = 1

-- How many events of a run are of a kind.
unfoldable pub tally : Text → Kind → List PostingEvent → ℕ
tally run_id kind [] = 0
tally run_id kind (e ∷ events) =
    let rest = tally run_id kind events in
    if same e.event_run_id run_id && tells kind e.event_outcome e.event_reason
    then suc rest
    else rest

pub tally-append :
    (run_id : Text) (kind : Kind) (events others : List PostingEvent)
    → tally run_id kind (events ++ others) ≡ tally run_id kind events + tally run_id kind others
unfolding tally
tally-append run_id kind [] others = omega arith
tally-append run_id kind (e ∷ events) others =
    ground (arith, tally-append run_id kind events others)

abbrev pub count_of : Text → List (Text × ℕ) → ℕ
unfolding lookup
count_of k counts = or_else (lookup k counts) 0

pub record IsTallied {D : Type 0} (run_id : Text) (delivered_count : ℕ) (p : Progress D)
    (events : List PostingEvent) : Type 0 where
  pub passes : tally run_id passing events ≡ p.filtered_count
  pub scores : tally run_id scoring events ≡ p.scored_count
  pub defers : tally run_id deferring events ≡ p.deferred_count
  pub delivers : tally run_id delivering events ≡ delivered_count
  pub fails :
      (reason : ScoreFailureReason)
      → tally run_id (failing reason) events
        ≡ or_else (lookup (reason_name reason) p.score_failure_counts) 0

lookup-count_failure_same :
    (reason other : ScoreFailureReason) (counts : List (Text × ℕ))
    → or_else (lookup (reason_name other) (count_failure reason counts)) 0
      ≡ or_else (lookup (reason_name other) counts) 0 + bit (same_reason reason other)
unfolding count_failure
lookup-count_failure_same reason other counts =
    rw
      (lookup-insert (reason_name reason) (reason_name other)
        (or_else (lookup (reason_name reason) counts) 0 + 1) counts)
      (go reason other)
  where
    go :
        (r o : ScoreFailureReason)
        → or_else
            (if same (reason_name r) (reason_name o)
              then some (or_else (lookup (reason_name r) counts) 0 + 1)
              else lookup (reason_name o) counts)
            0
          ≡ or_else (lookup (reason_name o) counts) 0 + bit (same_reason r o)
    go invalid_output invalid_output = omega arith
    go extraction_failed extraction_failed = omega arith
    go matching_failed matching_failed = omega arith
    go max_retries_exceeded max_retries_exceeded = omega arith
    go invalid_output extraction_failed = omega arith
    go invalid_output matching_failed = omega arith
    go invalid_output max_retries_exceeded = omega arith
    go extraction_failed invalid_output = omega arith
    go extraction_failed matching_failed = omega arith
    go extraction_failed max_retries_exceeded = omega arith
    go matching_failed invalid_output = omega arith
    go matching_failed extraction_failed = omega arith
    go matching_failed max_retries_exceeded = omega arith
    go max_retries_exceeded invalid_output = omega arith
    go max_retries_exceeded extraction_failed = omega arith
    go max_retries_exceeded matching_failed = omega arith

module _ {D : Type 0} ⦃d : Double D⦄ (g : Given D) where
  -- What has happened so far.
  abbrev pub AllTold : Progress D → Type 0
  AllTold p = IsTallied g.run_id 0 p p.world.events

  -- Wherever a pass of the loop leaves it.
  abbrev pub FlowTold : Flow D → Type 0
  FlowTold (continues p) = AllTold p
  FlowTold (stops p) = AllTold p
  FlowTold (throws p message) = AllTold p

  tally-one :
      (kind : Kind) (events : List PostingEvent) (e : PostingEvent)
      → tally g.run_id kind (events ++ (e ∷ []))
        ≡ tally g.run_id kind events
          + bit (same e.event_run_id g.run_id && tells kind e.event_outcome e.event_reason)
  unfolding tally
  tally-one kind events e = ground (arith, tally-append g.run_id kind events (e ∷ []))

  module _ (posting : Posting) where
    failed_told :
        (reason : ScoreFailureReason) (p q : Progress D) (e : PostingEvent)
        → e.event_run_id ≡ g.run_id
        → e.event_outcome ≡ score_failed
        → e.event_reason ≡ some (failure_reason reason)
        → q.world.events ≡ p.world.events ++ (e ∷ [])
        → q.filtered_count ≡ p.filtered_count
        → q.scored_count ≡ p.scored_count
        → q.deferred_count ≡ p.deferred_count
        → q.score_failure_counts ≡ count_failure reason p.score_failure_counts
        → AllTold p
        → AllTold q
    failed_told reason p q e mine outcome cause events f s n counts h = record {
      passes = rw (events, f) (told passing refl ∙ h.passes);
      scores = rw (events, s) (told scoring refl ∙ h.scores);
      defers = rw (events, n) (told deferring refl ∙ h.defers);
      delivers = rw events (told delivering refl ∙ h.delivers);
      fails = λ other.
          rw (events, counts)
            (tally-one (failing other) p.world.events e
              ∙ added other
              ∙ sym (lookup-count_failure_same reason other p.score_failure_counts));
    }
      where
        one :
            (kind : Kind) (b : Bool)
            → tells kind score_failed (some (failure_reason reason)) ≡ b
            → bit (same e.event_run_id g.run_id && tells kind e.event_outcome e.event_reason)
              ≡ bit b
        one kind b k = rw (mine, outcome, cause, same_refl g.run_id, k) refl

        told :
            (kind : Kind)
            → tells kind score_failed (some (failure_reason reason)) ≡ false
            → tally g.run_id kind (p.world.events ++ (e ∷ [])) ≡ tally g.run_id kind p.world.events
        told kind k = omega (arith, tally-one kind p.world.events e, one kind false k)

        added :
            (other : ScoreFailureReason)
            → tally g.run_id (failing other) p.world.events
                + bit (
                    same e.event_run_id g.run_id
                    && tells (failing other) e.event_outcome e.event_reason)
              ≡ or_else (lookup (reason_name other) p.score_failure_counts) 0
                + bit (same_reason reason other)
        added other =
            omega (arith, h.fails other, one (failing other) (same_reason reason other) refl)

    give_up-AllTold : (p : Progress D) → AllTold p → AllTold (give_up g posting p)
    unfolding give_up
    give_up-AllTold p h =
        failed_told max_retries_exceeded p (give_up g posting p) _ refl refl refl refl refl refl
          refl refl h

    after_failure-AllTold :
        (reason : ScoreFailureReason) (p : Progress D)
        → AllTold p
        → AllTold (after_failure g posting reason p)
    unfolding after_failure
    after_failure-AllTold reason p h =
        failed_told reason p (after_failure g posting reason p) _ refl refl refl refl refl refl refl
          refl h

    scored_told :
        (verdict : Verdict) (p q : Progress D) (e : PostingEvent)
        → e.event_run_id ≡ g.run_id
        → e.event_outcome ≡ scored_as verdict
        → q.world.events ≡ p.world.events ++ (e ∷ [])
        → q.filtered_count ≡ p.filtered_count
        → q.scored_count ≡ p.scored_count + 1
        → q.deferred_count ≡ p.deferred_count
        → q.score_failure_counts ≡ p.score_failure_counts
        → AllTold p
        → AllTold q
    scored_told verdict p q e mine outcome events f s n counts h = record {
      passes = rw (events, f) (omega (arith, told passing, h.passes));
      scores = rw (events, s) (omega (arith, told scoring, h.scores));
      defers = rw (events, n) (omega (arith, told deferring, h.defers));
      delivers = rw events (omega (arith, told delivering, h.delivers));
      fails = λ reason. rw (events, counts) (omega (arith, told (failing reason), h.fails reason));
    }
      where
        one :
            (kind : Kind)
            → bit (same e.event_run_id g.run_id && tells kind e.event_outcome e.event_reason)
              ≡ bit (tells kind (scored_as verdict) e.event_reason)
        one kind = rw (mine, outcome, same_refl g.run_id) refl

        told :
            (kind : Kind)
            → tally g.run_id kind (p.world.events ++ (e ∷ []))
              ≡ tally g.run_id kind p.world.events
                + bit (tells kind (scored_as verdict) e.event_reason)
        told kind = omega (arith, tally-one kind p.world.events e, one kind)

    entered_told :
        (verdict : Verdict) (gate : Option PeriodGate) (entry : ScoredPosting D) (w : World)
        (p : Progress D) (e : PostingEvent)
        → e.event_run_id ≡ g.run_id
        → e.event_outcome ≡ scored_as verdict
        → w.events ≡ p.world.events ++ (e ∷ [])
        → AllTold p
        → AllTold (record (entered g posting gate entry p) {
          world = w;
          scored_count = p.scored_count + 1;
        })
    entered_told verdict none entry w p e mine outcome events h =
        scored_told verdict p _ e mine outcome events refl refl refl refl h
    entered_told verdict (some gate) entry w p e mine outcome events h =
        scored_told verdict p _ e mine outcome events refl refl refl refl h

    after_score-AllTold :
        (outcome : ScoreOutcome D) (recommendation : Recommendation) (truncated : Bool)
        (p : Progress D)
        → AllTold p
        → AllTold (after_score g posting outcome recommendation truncated p)
    unfolding after_score
    after_score-AllTold outcome recommendation truncated p h =
        entered_told outcome.verdict outcome.period_gate _ _ p _ refl refl refl h

    -- Nothing that is told is changed.
    retold :
        (p q : Progress D)
        → q.world.events ≡ p.world.events
        → q.filtered_count ≡ p.filtered_count
        → q.scored_count ≡ p.scored_count
        → q.deferred_count ≡ p.deferred_count
        → q.score_failure_counts ≡ p.score_failure_counts
        → AllTold p
        → AllTold q
    retold p q events f s n counts h = record {
      passes = rw (events, f) h.passes;
      scores = rw (events, s) h.scores;
      defers = rw (events, n) h.defers;
      delivers = rw events h.delivers;
      fails = λ reason. rw (events, counts) (h.fails reason);
    }

    after_answer-FlowTold :
        (answer : Awaited (ScoreResult D)) (p : Progress D)
        → AllTold p
        → FlowTold (after_answer g posting answer p)
    unfolding after_answer
    after_answer-FlowTold (thrown message) p h = h
    after_answer-FlowTold (answered (scored_ok outcome recommendation truncated)) p h =
        after_score-AllTold outcome recommendation truncated p h
    after_answer-FlowTold (answered (not_scored reason false)) p h =
        after_failure-AllTold reason p h
    after_answer-FlowTold (answered (not_scored reason true)) p h =
        retold (after_failure g posting reason p) _ refl refl refl refl refl
          (after_failure-AllTold reason p h)

    score_one-FlowTold : (p : Progress D) → AllTold p → FlowTold (score_one g posting p)
    unfolding score_one ask_scorer
    score_one-FlowTold p h =
        elim (Bool-cases (not p.cancel_requested && g.cancel_requested_at p.world.tick)) [
          | inl e ↦
              rw e (retold p (record p { cancel_requested = true }) refl refl refl refl refl h)
          | inr e ↦
              elim (Bool-cases (
                leb g.max_score_failures
                  (get_score_failure_count posting.fingerprint p.world.rows))) [
                    | inl k ↦ rw (e, k) (give_up-AllTold p h)
                    | inr k ↦
                        rw (e, k)
                          (after_answer-FlowTold (g.score p.world.tick p.world.rows posting).1 _
                            (retold p _ refl refl refl refl refl h))
                  ]
        ]

  pub score_all-FlowTold :
      (postings : List Posting) (p : Progress D) → AllTold p → FlowTold (score_all g postings p)
  unfolding score_all
  score_all-FlowTold [] p h = h
  score_all-FlowTold (posting ∷ postings) p h =
      resumed (score_one g posting p) (score_one-FlowTold posting p h)
        (λ q k. score_all-FlowTold postings q k)
    where
      resumed :
          (flow : Flow D)
          → FlowTold flow
          → ((q : Progress D) → AllTold q → FlowTold (score_all g postings q))
          → FlowTold (resume g flow (λ q. score_all g postings q))
      resumed (continues q) k rest = rest q k
      resumed (stops q) k rest = k
      resumed (throws q message) k rest = k

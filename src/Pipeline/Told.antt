-- ===== src/Pipeline/Told.antt =====
-- What the audit trail of a delivery run tells when its scoring loop starts.
use argos_career.Base.{
  ℕ, zero, suc, ◌+◌, ◌≡◌, refl, ap, ◌∙◌, inl, inr, Bool, true, false, ◌&&◌, same, same_refl, lookup,
  Option, none, some, List, [], ◌∷◌, ◌++◌, All, filter, map, length, arith, Bool-cases,
  if◌then◌else◌, place, sort,
}
use argos_career.Scoring.Number.{Double}
use argos_career.Posting.Posting.{Posting}
use argos_career.Posting.Unicode.{Unicode}
use argos_career.Prefilter.Criteria.{Criteria}
use argos_career.Prefilter.Rank.{comes_before, decorate, rank_for_scoring}
use argos_career.Delivery.Digest.{ScoredPosting}
use argos_career.Persistence.Postings.{PostingRow, Rows}
use argos_career.Pipeline.Origin.{admit}
use argos_career.Pipeline.State.{
  passed, rejected, deferred, delivered, comparison_bound_reached, EventReason,
  international_budget_exhausted, PostingEvent, World, Awaited, answered, thrown, DedupResult,
  Given, Progress,
}
use argos_career.Pipeline.Tally.{
  Kind, passing, scoring, deferring, delivering, failing, tells, tally, tally-append, IsTallied,
  AllTold,
}
use argos_career.Pipeline.Deliver.{
  decided, decision_event, delivery_event, filter_event, ranked_postings, admitted_progress,
  no_progress, truncation_event, dedup_and_claim, execute_dedup_and_claim, begun,
}

length-map : {A B : Type 0} (f : A → B) (xs : List A) → length (map f xs) ≡ length xs
length-map f [] = refl
length-map f (x ∷ xs) = ap suc (length-map f xs)

length-place :
    {A : Type 0} (before : A → A → Bool) (x : A) (xs : List A)
    → length (place before x xs) ≡ suc (length xs)
unfolding place
length-place before x [] = refl
length-place before x (y ∷ ys) = elim (Bool-cases (before y x)) [
  | inl e ↦ rw e (ap suc (length-place before x ys))
  | inr e ↦ rw e refl
]

length-sort :
    {A : Type 0} (before : A → A → Bool) (xs : List A) → length (sort before xs) ≡ length xs
unfolding sort
length-sort before [] = refl
length-sort before (x ∷ xs) =
    length-place before x (sort before xs) ∙ ap suc (length-sort before xs)

abbrev is_passing : Kind → Bool
is_passing passing = true
is_passing _ = false

abbrev is_deferring : Kind → Bool
is_deferring deferring = true
is_deferring _ = false

abbrev is_delivering : Kind → Bool
is_delivering delivering = true
is_delivering _ = false

delivered_told : (kind : Kind) → tells kind delivered none ≡ is_delivering kind
delivered_told passing = refl
delivered_told scoring = refl
delivered_told deferring = refl
delivered_told delivering = refl
delivered_told (failing cause) = refl

outcome_told :
    (kind : Kind) (b : Bool) (reason : Option EventReason)
    → tells kind (if b then passed else rejected) reason ≡ (is_passing kind && b)
outcome_told passing true reason = refl
outcome_told passing false reason = refl
outcome_told scoring true reason = refl
outcome_told scoring false reason = refl
outcome_told deferring true reason = refl
outcome_told deferring false reason = refl
outcome_told delivering true reason = refl
outcome_told delivering false reason = refl
outcome_told (failing cause) true reason = refl
outcome_told (failing cause) false reason = refl

deferred_told :
    (kind : Kind) → tells kind deferred (some international_budget_exhausted) ≡ is_deferring kind
deferred_told passing = refl
deferred_told scoring = refl
deferred_told deferring = refl
deferred_told delivering = refl
deferred_told (failing cause) = refl

module _ {D : Type 0} ⦃d : Double D⦄ where
  length-decorate :
      (u : Unicode) (criteria : Criteria D) (now i : ℕ) (ps : List Posting)
      → length (decorate u criteria now i ps) ≡ length ps
  unfolding decorate
  length-decorate u criteria now i [] = refl
  length-decorate u criteria now i (p ∷ ps) = ap suc (length-decorate u criteria now (suc i) ps)

  length-rank_for_scoring :
      (u : Unicode) (criteria : Criteria D) (now : ℕ) (ps : List Posting)
      → length (rank_for_scoring u criteria now ps) ≡ length ps
  unfolding rank_for_scoring
  length-rank_for_scoring u criteria now ps =
      length-map _ (sort comes_before (decorate u criteria now 0 ps))
      ∙ length-sort comes_before (decorate u criteria now 0 ps)
      ∙ length-decorate u criteria now 0 ps

  module _ (g : Given D) where
    -- Events of other runs.
    abbrev pub AreForeign : List PostingEvent → Type 0
    AreForeign = All (λ (e : PostingEvent). same e.event_run_id g.run_id ≡ false)

    abbrev pub AreForeignShadows : Awaited DedupResult → Type 0
    AreForeignShadows (thrown message) = Unit
    AreForeignShadows (answered result) = AreForeign result.shadow_events

    tally_foreign :
        (kind : Kind) (events : List PostingEvent)
        → AreForeign events
        → tally g.run_id kind events ≡ 0
    unfolding tally
    tally_foreign kind [] h = refl
    tally_foreign kind (e ∷ events) h = rw (h.0, tally_foreign kind events h.1) refl

    AreForeign-append :
        (events others : List PostingEvent)
        → AreForeign events
        → AreForeign others
        → AreForeign (events ++ others)
    AreForeign-append [] others h k = k
    AreForeign-append (e ∷ events) others h k = (h.0, AreForeign-append events others h.1 k)

    -- The events of the pre-filter tell of the postings that pass, and of nothing else.
    tally-decision :
        (started_at : ℕ) (kind : Kind) (claimed : Rows)
        → tally g.run_id kind
            (map (λ (r : PostingRow). decision_event g started_at (g.posting_of r)) claimed)
          ≡ (if is_passing kind
              then length (
                  filter
                    (λ (p : Posting). (decided g started_at p).passed)
                    (map g.posting_of claimed))
              else 0)
    unfolding tally decision_event filter_event
    tally-decision started_at kind [] = ground arith
    tally-decision started_at kind (r ∷ claimed) =
        let b = (decided g started_at (g.posting_of r)).passed in
        let reason = (decision_event g started_at (g.posting_of r)).event_reason in
        ground (
          arith,
          same_refl g.run_id,
          outcome_told kind b reason,
          tally-decision started_at kind claimed,
        )

    -- Those of the budget tell of the postings that it defers.
    tally_deferred :
        (started_at : ℕ) (kind : Kind) (held_back : List Posting)
        → tally g.run_id kind (
            map
              (λ (p : Posting).
                filter_event g started_at p deferred (some international_budget_exhausted))
              held_back)
          ≡ (if is_deferring kind then length held_back else 0)
    unfolding tally filter_event
    tally_deferred started_at kind [] = ground arith
    tally_deferred started_at kind (p ∷ held_back) =
        ground
          (arith, same_refl g.run_id, deferred_told kind, tally_deferred started_at kind held_back)

    pub admitted_progress-AllTold :
        (started_at : ℕ) (claimed : Rows) (w : World)
        → AreForeign w.events
        → AllTold g (admitted_progress g started_at claimed w).1
    unfolding admitted_progress ranked_postings lookup
    admitted_progress-AllTold started_at claimed w h = record {
      passes = omega (arith, told passing, length_ranked);
      scores = omega (arith, told scoring);
      defers = omega (arith, told deferring);
      delivers = omega (arith, told delivering);
      fails = λ reason. omega (arith, told (failing reason));
    }
      where
        held_back : List Posting
        held_back = (admit g.upper g.origin (ranked_postings g started_at claimed)).1

        passing_postings : List Posting
        passing_postings =
            filter (λ (p : Posting). (decided g started_at p).passed) (map g.posting_of claimed)

        told :
            (kind : Kind)
            → tally g.run_id kind (admitted_progress g started_at claimed w).1.world.events
              ≡ (if is_passing kind then length passing_postings else 0)
                + (if is_deferring kind then length held_back else 0)
        told kind =
            let decisions =
              map (λ (r : PostingRow). decision_event g started_at (g.posting_of r)) claimed in
            let deferrals =
              map
                (λ (p : Posting).
                  filter_event g started_at p deferred (some international_budget_exhausted))
                held_back in
            tally-append g.run_id kind (w.events ++ decisions) deferrals
            ∙ omega (
              arith,
              tally-append g.run_id kind w.events decisions,
              tally_foreign kind w.events h,
              tally-decision started_at kind claimed,
              tally_deferred started_at kind held_back,
            )

        length_ranked : length passing_postings ≡ length (ranked_postings g started_at claimed)
        length_ranked =
            omega (arith, length-rank_for_scoring g.unicode g.criteria started_at passing_postings)

    -- The events of a digest that is sent tell of its entries.
    tally-delivered :
        (at_ms : ℕ) (kind : Kind) (sent : List (ScoredPosting D))
        → tally g.run_id kind (map (delivery_event g at_ms) sent)
          ≡ (if is_delivering kind then length sent else 0)
    unfolding tally delivery_event filter_event
    tally-delivered at_ms kind [] = ground arith
    tally-delivered at_ms kind (entry ∷ sent) =
        ground (arith, same_refl g.run_id, delivered_told kind, tally-delivered at_ms kind sent)

    pub delivered-IsTallied :
        (at_ms : ℕ) (p : Progress D) (sent : List (ScoredPosting D))
        → AllTold g p
        → IsTallied g.run_id (length sent) p (p.world.events ++ map (delivery_event g at_ms) sent)
    delivered-IsTallied at_ms p sent h = record {
      passes = told passing ∙ omega (arith, h.passes);
      scores = told scoring ∙ omega (arith, h.scores);
      defers = told deferring ∙ omega (arith, h.defers);
      delivers = told delivering ∙ omega (arith, h.delivers);
      fails = λ reason. told (failing reason) ∙ omega (arith, h.fails reason);
    }
      where
        told :
            (kind : Kind)
            → tally g.run_id kind (p.world.events ++ map (delivery_event g at_ms) sent)
              ≡ tally g.run_id kind p.world.events + (if is_delivering kind then length sent else 0)
        told kind =
            tally-append g.run_id kind p.world.events (map (delivery_event g at_ms) sent)
            ∙ omega (arith, tally-delivered at_ms kind sent)

    pub no_progress-AllTold : (w : World) → AreForeign w.events → AllTold g (no_progress g w)
    unfolding lookup
    no_progress-AllTold w h = record {
      passes = tally_foreign passing w.events h;
      scores = tally_foreign scoring w.events h;
      defers = tally_foreign deferring w.events h;
      delivers = tally_foreign delivering w.events h;
      fails = λ reason. tally_foreign (failing reason) w.events h;
    }

    -- The run is the only one of its id, and the similarity pass records no event of it.
    pub record IsOwnRun (w : World) : Type 0 where
      pub no_events : AreForeign w.events
      pub own_id : same g.dedup_run_id g.run_id ≡ false
      pub own_shadows : (rows : Rows) → AreForeignShadows (g.dedup rows)

    truncation_event-AreForeign :
        (result : DedupResult) (now : ℕ)
        → same g.dedup_run_id g.run_id ≡ false
        → AreForeign (truncation_event g result now)
    unfolding truncation_event
    truncation_event-AreForeign result now h = go result.comparison_truncated_count
      where
        go :
            (n : ℕ)
            → AreForeign (elim n as (λ _. List PostingEvent) [
              | zero ↦ []
              | suc k ↦
                  record {
                    event_run_id = g.dedup_run_id;
                    event_fingerprint = none;
                    event_outcome = comparison_bound_reached;
                    event_reason = none;
                    occurred_at = now;
                  }
                  ∷ []
            ])
        go zero = tt
        go (suc k) = (h, tt)

    dedup_and_claim-AreForeign :
        (w : World) (answer : Awaited DedupResult)
        → AreForeign w.events
        → same g.dedup_run_id g.run_id ≡ false
        → AreForeignShadows answer
        → AreForeign (dedup_and_claim g w answer).0.events
    unfolding dedup_and_claim
    dedup_and_claim-AreForeign w (thrown message) h own k = h
    dedup_and_claim-AreForeign w (answered result) h own k =
        AreForeign-append (w.events ++ result.shadow_events) _
          (AreForeign-append w.events result.shadow_events h k)
          (truncation_event-AreForeign result (g.clock w.tick) own)

    pub claimed-AreForeign :
        (w : World) → IsOwnRun w → AreForeign (execute_dedup_and_claim g (begun g w)).0.events
    unfolding execute_dedup_and_claim begun
    claimed-AreForeign w h =
        dedup_and_claim-AreForeign _ (g.dedup w.rows) h.no_events h.own_id (h.own_shadows w.rows)

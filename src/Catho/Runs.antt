-- ===== src/Catho/Runs.antt =====
-- What a run of the collector does to each id: `runOnce` of collect.ts and requeue.ts.
use argos_career.Base.{
  ℕ, zero, suc, not, ◌+◌, ◌≡◌, refl, ◌⊎◌, inl, inr, Bool, true, false, ◌||◌, Text, same, same_iff,
  Option, none, some, List, [], ◌∷◌, map, filter, take, All, has, lookup, if◌then◌else◌, Bool-cases,
  length, leb, arith,
}
use argos_career.Catho.State.{
  collected, ingested, expired, retryable, quarantined, CathoPayload, CathoStateEntry, CathoState,
  PageOutcome, page_retryable, plain, failed, fail_count_of, needs_page_fetch, apply_page_outcome,
  has_state, is_state, quarantined_ids, requeue_quarantined, collected_payloads_pending_ingest,
}
use argos_career.Catho.Collect.{SitemapCandidate, to_fetch, fetch_pages, ingest_pending, run_once}
use argos_career.Catho.Lifecycle.{
  lookup-apply_page_outcome, lookup-mark_ingested, lookup-requeue_each,
}

abbrev pub last_of : Text → List Text → Text
last_of x [] = x
last_of x (y ∷ ys) = last_of y ys

abbrev pub Avoids : Text → List SitemapCandidate → Type 0
Avoids j = All (λ c. same c.id j ≡ false)

Avoids-take : (n : ℕ) (cs : List SitemapCandidate) (j : Text) → Avoids j cs → Avoids j (take n cs)
Avoids-take zero cs j h = tt
Avoids-take (suc n) [] j h = tt
Avoids-take (suc n) (c ∷ cs) j h = (h.0, Avoids-take n cs j h.1)

module _ {J : Type 0} where
  -- Candidates of other ids leave the entry of an id alone.
  lookup-fetch_pages :
      (load : SitemapCandidate → PageOutcome J) (s : CathoState J) (cs : List SitemapCandidate)
      (j : Text)
      → Avoids j cs
      → lookup j (fetch_pages load s cs) ≡ lookup j s
  unfolding fetch_pages
  lookup-fetch_pages load s [] j h = refl
  lookup-fetch_pages load s (c ∷ cs) j h =
      rw (lookup-fetch_pages load (apply_page_outcome s c.id (load c)) cs j h.1)
        (ground (arith, lookup-apply_page_outcome s c.id j (load c)))

  Avoids-filter :
      (s : CathoState J) (cs : List SitemapCandidate) (j : Text)
      → needs_page_fetch s j ≡ false
      → Avoids j (filter (λ c. needs_page_fetch s c.id) cs)
  Avoids-filter s [] j h = tt
  Avoids-filter s (c ∷ cs) j h = elim (Bool-cases (needs_page_fetch s c.id)) [
    | inl e ↦ rw e (ground (arith, same_iff c.id j), Avoids-filter s cs j h)
    | inr e ↦ rw e (Avoids-filter s cs j h)
  ]

  -- An id that needs no page keeps its entry until the ingest step.
  lookup-fetched :
      (load : SitemapCandidate → PageOutcome J) (n : ℕ) (cs : List SitemapCandidate)
      (s : CathoState J) (j : Text)
      → needs_page_fetch s j ≡ false
      → lookup j (fetch_pages load s (to_fetch s n cs)) ≡ lookup j s
  unfolding to_fetch
  lookup-fetched load n cs s j h =
      lookup-fetch_pages load s _ j (Avoids-take n _ j (Avoids-filter s cs j h))

  -- The ingest step changes a collected entry only, only into an ingested one, and only when the
  -- API has confirmed the batch.
  lookup-ingest_pending :
      (confirm : List (CathoPayload J) → Bool) (s : CathoState J) (j : Text)
      → (lookup j (ingest_pending confirm s) ≡ lookup j s)
        ⊎ ((has_state collected (lookup j s) ≡ true)
            × (lookup j (ingest_pending confirm s) ≡ some (plain ingested))
            × (confirm (collected_payloads_pending_ingest s) ≡ true))
  unfolding ingest_pending
  lookup-ingest_pending confirm s j =
      let ids = map (λ (p : CathoPayload J). p.id) (collected_payloads_pending_ingest s) in
      ground (arith, lookup-mark_ingested s ids j)

  -- A run never touches an entry that is ingested, expired or quarantined, whatever the sitemap
  -- lists, the pages show and the API answers.
  run_once_keeps_settled :
      (load : SitemapCandidate → PageOutcome J) (confirm : List (CathoPayload J) → Bool) (n : ℕ)
      (cs : List SitemapCandidate) (s : CathoState J) (j : Text) (e : CathoStateEntry J)
      → lookup j s ≡ some e
      → (is_state e.state ingested || is_state e.state expired || is_state e.state quarantined)
        ≡ true
      → lookup j (run_once load confirm n cs s) ≡ some e
  unfolding run_once needs_page_fetch
  run_once_keeps_settled load confirm n cs s j e found settled = ground (
    arith,
    lookup-ingest_pending confirm (fetch_pages load s (to_fetch s n cs)) j,
    lookup-fetched load n cs s j,
  )

  -- A payload that is waiting is never lost: a run leaves the entry as it is, or the API has
  -- confirmed the batch of pending payloads and the entry is now ingested.
  pub run_once_keeps_payload :
      (load : SitemapCandidate → PageOutcome J) (confirm : List (CathoPayload J) → Bool) (n : ℕ)
      (cs : List SitemapCandidate) (s : CathoState J) (j : Text) (e : CathoStateEntry J)
      → lookup j s ≡ some e
      → e.state ≡ collected
      → (lookup j (run_once load confirm n cs s) ≡ some e)
        ⊎ ((lookup j (run_once load confirm n cs s) ≡ some (plain ingested))
            × (confirm (collected_payloads_pending_ingest (fetch_pages load s (to_fetch s n cs)))
                ≡ true))
  unfolding run_once needs_page_fetch
  run_once_keeps_payload load confirm n cs s j e found state = ground (
    arith,
    lookup-ingest_pending confirm (fetch_pages load s (to_fetch s n cs)) j,
    lookup-fetched load n cs s j,
  )

  fetched_not_ingested :
      (load : SitemapCandidate → PageOutcome J) (s : CathoState J) (cs : List SitemapCandidate)
      (j : Text)
      → has_state ingested (lookup j s) ≡ false
      → has_state ingested (lookup j (fetch_pages load s cs)) ≡ false
  unfolding fetch_pages
  fetched_not_ingested load s [] j h = h
  fetched_not_ingested load s (c ∷ cs) j h =
      fetched_not_ingested load (apply_page_outcome s c.id (load c)) cs j
        (ground (arith, lookup-apply_page_outcome s c.id j (load c)))

  -- Nothing becomes ingested but by a confirmation: if an id is ingested after a run, it was
  -- before, or the API has confirmed the batch of pending payloads of this run.
  pub run_once_ingests_confirmed :
      (load : SitemapCandidate → PageOutcome J) (confirm : List (CathoPayload J) → Bool) (n : ℕ)
      (cs : List SitemapCandidate) (s : CathoState J) (j : Text)
      → has_state ingested (lookup j (run_once load confirm n cs s)) ≡ true
      → (has_state ingested (lookup j s) ≡ true)
        ⊎ (confirm (collected_payloads_pending_ingest (fetch_pages load s (to_fetch s n cs)))
            ≡ true)
  unfolding run_once
  run_once_ingests_confirmed load confirm n cs s j h = ground (
    arith,
    lookup-ingest_pending confirm (fetch_pages load s (to_fetch s n cs)) j,
    fetched_not_ingested load s (to_fetch s n cs) j,
  )

  has-quarantined_ids :
      (s : CathoState J) (j : Text)
      → has_state quarantined (lookup j s) ≡ true
      → has (quarantined_ids s) j ≡ true
  unfolding lookup has
  has-quarantined_ids [] j h = cc
  has-quarantined_ids ((k, e) ∷ s) j h = ground (arith, has-quarantined_ids s j)

  -- Requeueing all forgets exactly the quarantined ids, which then compete like unseen ones, and
  -- keeps every other entry.
  pub requeue_quarantined_all :
      (s : CathoState J) (j : Text)
      → lookup j (requeue_quarantined s none).0
        ≡ (if has_state quarantined (lookup j s) then none else lookup j s)
  unfolding requeue_quarantined
  requeue_quarantined_all s j =
      ground (arith, lookup-requeue_each s (quarantined_ids s) j, has-quarantined_ids s j)

  -- The entry of an id after a row of retryable outcomes, from a count of failures.
  abbrev pub fail_each : CathoState J → Text → List Text → CathoState J
  fail_each s id [] = s
  fail_each s id (reason ∷ reasons) =
      fail_each (apply_page_outcome s id (page_retryable reason)) id reasons

  abbrev AfterFailures : Option (CathoStateEntry J) → ℕ → Text → Type 0
  AfterFailures found fails reason =
      found ≡ some (failed (if leb 5 fails then quarantined else retryable) fails reason)

  fail_once :
      (s : CathoState J) (id reason : Text)
      → AfterFailures
          (lookup id (apply_page_outcome s id (page_retryable reason)))
          (fail_count_of (lookup id s) + 1)
          reason
  fail_once s id reason =
      ground (arith, lookup-apply_page_outcome s id id (page_retryable reason), same_iff id id)

  lookup-fail_each :
      (s : CathoState J) (id reason : Text) (reasons : List Text)
      → AfterFailures
          (lookup id (fail_each s id (reason ∷ reasons)))
          (fail_count_of (lookup id s) + suc (length reasons))
          (last_of reason reasons)
  lookup-fail_each s id reason [] = fail_once s id reason
  lookup-fail_each s id reason (r ∷ rs) =
      let s' = apply_page_outcome s id (page_retryable reason) in
      let counted : fail_count_of (lookup id s') ≡ fail_count_of (lookup id s) + 1 =
        rw (fail_once s id reason) in
      let total : fail_count_of (lookup id s') + suc (length rs)
          ≡ fail_count_of (lookup id s) + suc (suc (length rs)) =
        omega arith in
      rw (← total) (lookup-fail_each s' id r rs)

  -- Failures in a row are counted from the entry's count, with the last reason kept; the id is
  -- retried up to a count of four and quarantined, with no more page loads, from five on.
  pub fail_each_lem :
      (s : CathoState J) (id : Text) (reason : Text) (reasons : List Text)
      → let fails = fail_count_of (lookup id s) + suc (length reasons) in
        let after = fail_each s id (reason ∷ reasons) in
        (lookup id after
          ≡ some (
              failed
                (if leb 5 fails then quarantined else retryable)
                fails
                (last_of reason reasons)))
        × (needs_page_fetch after id ≡ not (leb 5 fails))
  unfolding needs_page_fetch
  fail_each_lem s id reason reasons =
      let found = lookup-fail_each s id reason reasons in
      (found, rw (needs_page_fetch, found) (ground arith))

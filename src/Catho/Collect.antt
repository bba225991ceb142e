-- ===== src/Catho/Collect.antt =====
-- collectors/catho/collect.ts, `runOnce`, and requeue.ts: a run over the state file's content. The
-- browser and the API are arguments: `load` gives what `classifyPageResult` makes of the page of a
-- candidate, and `confirm` says whether the answer to the ingest request was 2xx.
use argos_career.Base.{ℕ, Bool, Text, List, [], ◌∷◌, map, filter, take, if◌then◌else◌}
use argos_career.Catho.State.{
  CathoPayload, CathoState, PageOutcome, needs_page_fetch, apply_page_outcome,
  collected_payloads_pending_ingest, mark_ingested,
}

pub record SitemapCandidate : Type 0 where
  pub id : Text
  pub url : Text

module _ {J : Type 0} where
  unfoldable pub to_fetch : CathoState J → ℕ → List SitemapCandidate → List SitemapCandidate
  to_fetch state max_pages candidates =
      take max_pages (filter (λ c. needs_page_fetch state c.id) candidates)

  -- The loop over the pages: each outcome goes into the state that the ones before it left.
  unfoldable pub fetch_pages :
      (SitemapCandidate → PageOutcome J) → CathoState J → List SitemapCandidate → CathoState J
  unfolding apply_page_outcome
  fetch_pages load state [] = state
  fetch_pages load state (c ∷ cs) = fetch_pages load (apply_page_outcome state c.id (load c)) cs

  -- With nothing pending the source sends either nothing or an empty batch, and marks nothing.
  unfoldable pub ingest_pending : (List (CathoPayload J) → Bool) → CathoState J → CathoState J
  unfolding collected_payloads_pending_ingest mark_ingested
  ingest_pending confirm state =
      let pending = collected_payloads_pending_ingest state in
      if confirm pending
      then mark_ingested state (map (λ (p : CathoPayload J). p.id) pending)
      else state

  unfoldable pub run_once :
      (SitemapCandidate → PageOutcome J)
      → (List (CathoPayload J) → Bool)
      → ℕ
      → List SitemapCandidate
      → CathoState J
      → CathoState J
  unfolding to_fetch fetch_pages ingest_pending
  run_once load confirm max_pages candidates state =
      ingest_pending confirm (fetch_pages load state (to_fetch state max_pages candidates))

-- ===== src/Catho/Validity.antt =====
-- What an entry of the state holds, by its state, and that the operations of state.ts keep it.
use argos_career.Base.{
  map, ℕ, ◌+◌, ◌≤◌, ◌<◌, ◌≡◌, refl, ◌&&◌, leb, Text, same, same_iff, Option, some, List, has,
  lookup, or_else, Bool-cases, arith, inl, inr, ◌∷◌, Bool, [],
}
use mathlib.Core.Path.{subst}
use mathlib.Core.Option.{some-injective}
use argos_career.Catho.State.{
  collected_payloads_pending_ingest, CathoEntryState, collected, ingested, retryable, quarantined,
  CathoPayload, CathoStateEntry, CathoState, PageOutcome, page_collected, page_expired,
  page_retryable, plain, entry_after, apply_page_outcome, has_state, requeue_quarantined,
  mark_ingested, quarantined_ids, fail_count_of, max_retryable_attempts_before_quarantine,
}
use argos_career.Catho.Collect.{SitemapCandidate, to_fetch, fetch_pages, ingest_pending, run_once}
use argos_career.Catho.Lifecycle.{
  lookup-apply_page_outcome, lookup-mark_ingested, lookup-requeue_each,
}

module _ {J : Type 0} where
  -- A collected entry has the payload of its own id; a retryable one has failed from one to four
  -- times, a quarantined one five times or more.
  abbrev pub HoldsAs : CathoEntryState → Text → CathoStateEntry J → Type 0
  HoldsAs collected k e = (p : CathoPayload J) × (e.payload ≡ some p) × (p.id ≡ k)
  HoldsAs retryable k e = (n : ℕ) × (e.fail_count ≡ some n) × (1 ≤ n) × (n < 5)
  HoldsAs quarantined k e = (n : ℕ) × (e.fail_count ≡ some n) × (5 ≤ n)
  HoldsAs _ k e = Unit

  abbrev pub IsValidEntry : Text → CathoStateEntry J → Type 0
  IsValidEntry k e = HoldsAs e.state k e

  abbrev pub IsValid : CathoState J → Type 0
  IsValid s = (k : Text) (e : CathoStateEntry J) → lookup k s ≡ some e → IsValidEntry k e

  -- A collected page carries the payload of the id that it is recorded under.
  abbrev pub Fits : Text → PageOutcome J → Type 0
  Fits id (page_collected p) = p.id ≡ id
  Fits id _ = Unit

  entry_after-IsValidEntry :
      (id : Text) (before : Option (CathoStateEntry J)) (o : PageOutcome J)
      → Fits id o
      → IsValidEntry id (entry_after before o)
  entry_after-IsValidEntry id before (page_collected p) fits = (p, refl, fits)
  entry_after-IsValidEntry id before page_expired fits = tt
  entry_after-IsValidEntry id before (page_retryable reason) fits =
      elim (Bool-cases (leb max_retryable_attempts_before_quarantine (fail_count_of before + 1))) [
        | inl e ↦ rw e (fail_count_of before + 1, refl, ground arith)
        | inr e ↦ rw e (fail_count_of before + 1, refl, omega arith, ground arith)
      ]

  -- Recording the outcome of a page keeps the state valid.
  apply_page_outcome-IsValid :
      (s : CathoState J) (id : Text) (o : PageOutcome J)
      → IsValid s
      → Fits id o
      → IsValid (apply_page_outcome s id o)
  apply_page_outcome-IsValid s id o v fits k e h = elim (Bool-cases (same id k)) [
    | inl q ↦
        let here : some (entry_after (lookup id s) o) ≡ some e =
          ground (arith, lookup-apply_page_outcome s id k o) in
        subst (IsValidEntry k) (some-injective _ _ here) (
          subst (λ j. IsValidEntry j (entry_after (lookup id s) o)) ((same_iff id k).0 q)
            (entry_after-IsValidEntry id (lookup id s) o fits))
    | inr q ↦ v k e (ground (arith, lookup-apply_page_outcome s id k o))
  ]

  ingested-IsValidEntry :
      (k : Text) (e : CathoStateEntry J) → some (plain ingested) ≡ some e → IsValidEntry k e
  ingested-IsValidEntry k e h = subst (IsValidEntry k) (some-injective _ _ h) tt

  -- So does marking ids as ingested, and so does requeueing, of any ids.
  mark_ingested-IsValid :
      (s : CathoState J) (ids : List Text) → IsValid s → IsValid (mark_ingested s ids)
  mark_ingested-IsValid s ids v k e h =
      elim (Bool-cases (has ids k && has_state collected (lookup k s))) [
        | inl q ↦ ingested-IsValidEntry k e (ground (arith, lookup-mark_ingested s ids k))
        | inr q ↦ v k e (ground (arith, lookup-mark_ingested s ids k))
      ]

  pub requeue_quarantined-IsValid :
      (s : CathoState J) (ids : Option (List Text))
      → IsValid s
      → IsValid (requeue_quarantined s ids).0
  unfolding requeue_quarantined
  requeue_quarantined-IsValid s ids v k e h =
      v k e (ground (arith, lookup-requeue_each s (or_else ids (quarantined_ids s)) k))

  fetch_pages-IsValid :
      (load : SitemapCandidate → PageOutcome J) (cs : List SitemapCandidate) (s : CathoState J)
      → ((c : SitemapCandidate) → Fits c.id (load c))
      → IsValid s
      → IsValid (fetch_pages load s cs)
  unfolding fetch_pages
  fetch_pages-IsValid load [] s fits v = v
  fetch_pages-IsValid load (c ∷ cs) s fits v =
      fetch_pages-IsValid load cs (apply_page_outcome s c.id (load c)) fits
        (apply_page_outcome-IsValid s c.id (load c) v (fits c))

  -- A run keeps every entry of the state well formed, whatever the sitemap lists and the API
  -- answers, if a collected page carries the id of its candidate.
  pub run_once-IsValid :
      (load : SitemapCandidate → PageOutcome J) (confirm : List (CathoPayload J) → Bool) (n : ℕ)
      (cs : List SitemapCandidate) (s : CathoState J)
      → ((c : SitemapCandidate) → Fits c.id (load c))
      → IsValid s
      → IsValid (run_once load confirm n cs s)
  unfolding run_once ingest_pending
  run_once-IsValid load confirm n cs s fits v =
      let fetched = fetch_pages load s (to_fetch s n cs) in
      let kept = fetch_pages-IsValid load (to_fetch s n cs) s fits v in
      elim (Bool-cases (confirm (collected_payloads_pending_ingest fetched))) [
        | inl e ↦ rw e (
            mark_ingested-IsValid fetched
              (map (λ (p : CathoPayload J). p.id) (collected_payloads_pending_ingest fetched)) kept)
        | inr e ↦ rw e kept
      ]

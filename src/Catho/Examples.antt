-- ===== src/Catho/Examples.antt =====
-- The theorems on the Catho collector at a small state file.
use argos_career.Base.{
  ℕ, ◌≡◌, refl, ◌⊎◌, inl, inr, ◌↔◌, Bool, true, Text, codes, none, some, List, [], ◌∷◌, lookup,
  same, same_iff, arith, Bool-cases,
}
use mathlib.Core.Path.{subst}
use mathlib.Core.Option.{some-injective}
use argos_career.Catho.State.{
  collected, ingested, quarantined, CathoPayload, CathoStateEntry, CathoState, ParsedUrl, UrlParser,
  PageOutcome, page_collected, page_expired, PageResult, plain, failed, needs_page_fetch, has_state,
  classify_page_result, collected_payloads_pending_ingest,
}
use argos_career.Catho.Collect.{SitemapCandidate, to_fetch, fetch_pages, run_once}
use argos_career.Catho.Validity.{IsValidEntry, IsValid, run_once-IsValid}
use argos_career.Catho.Runs.{run_once_keeps_payload, run_once_ingests_confirmed}
use argos_career.Catho.Classify.{Expires, classify_page_result-expired_iff}

abbrev payload : Text → CathoPayload ℕ
payload id = record { id = id; url = codes "u"; page_title = codes "t"; job_posting = 0 }

abbrev waiting : CathoStateEntry ℕ
waiting = record {
  state = collected;
  payload = some (payload (codes "a"));
  fail_count = none;
  reason = none;
}

abbrev given_up : CathoStateEntry ℕ
given_up = failed quarantined 5 (codes "HTTP 500")

abbrev state : CathoState ℕ
state = (codes "a", waiting) ∷ (codes "b", given_up) ∷ []

abbrev candidate : Text → SitemapCandidate
candidate id = record { id = id; url = codes "u" }

abbrev candidates : List SitemapCandidate
candidates = candidate (codes "a") ∷ candidate (codes "b") ∷ candidate (codes "c") ∷ []

abbrev load : SitemapCandidate → PageOutcome ℕ
load c = page_collected (payload c.id)

abbrev confirm : List (CathoPayload ℕ) → Bool
confirm batch = true

run_once_runs :
    run_once load confirm 2 candidates state
    ≡ (codes "a", plain ingested) ∷ (codes "b", given_up) ∷ (codes "c", plain ingested) ∷ []
unfolding run_once needs_page_fetch
run_once_runs = refl

found_a : lookup (codes "a") state ≡ some waiting
unfolding lookup
found_a = refl

found_b : lookup (codes "b") state ≡ some given_up
unfolding lookup
found_b = refl

run_once_keeps_payload_example :
    (lookup (codes "a") (run_once load confirm 2 candidates state) ≡ some waiting)
    ⊎ ((lookup (codes "a") (run_once load confirm 2 candidates state) ≡ some (plain ingested))
        × (confirm (
              collected_payloads_pending_ingest
                (fetch_pages load state (to_fetch state 2 candidates)))
            ≡ true))
run_once_keeps_payload_example =
    run_once_keeps_payload load confirm 2 candidates state (codes "a") waiting found_a refl

ingested_c :
    has_state ingested (lookup (codes "c") (run_once load confirm 2 candidates state)) ≡ true
unfolding lookup run_once needs_page_fetch
ingested_c = refl

run_once_ingests_confirmed_example :
    (has_state ingested (lookup (codes "c") state) ≡ true)
    ⊎ (confirm
          (collected_payloads_pending_ingest (fetch_pages load state (to_fetch state 2 candidates)))
        ≡ true)
run_once_ingests_confirmed_example =
    run_once_ingests_confirmed load confirm 2 candidates state (codes "c") ingested_c

abbrev home : ParsedUrl
home = record {
  protocol = codes "https:";
  hostname = codes "www.catho.com.br";
  port = [];
  pathname = codes "/vagas/";
}

abbrev parse : UrlParser
parse url = some home

abbrev page : PageResult ℕ
page = record {
  http_status = some 200;
  final_url = codes "https://www.catho.com.br/vagas/";
  json_ld = some 1;
  page_title = codes "t";
  candidate_id = codes "a";
  candidate_url = codes "u";
}

classify_page_result-expired_iff_example :
    (classify_page_result parse page ≡ page_expired) ↔ Expires parse page
classify_page_result-expired_iff_example = classify_page_result-expired_iff parse page

page_is_expired : classify_page_result parse page ≡ page_expired
unfolding classify_page_result
page_is_expired = refl

cons-IsValid :
    (k : Text) (e : CathoStateEntry ℕ) (s : CathoState ℕ)
    → IsValidEntry k e
    → IsValid s
    → IsValid ((k, e) ∷ s)
unfolding lookup
cons-IsValid k e s here rest j f h = elim (Bool-cases (same k j)) [
  | inl q ↦
      let found : some e ≡ some f = ground arith in
      subst (IsValidEntry j) (some-injective _ _ found)
        (subst (λ i. IsValidEntry i e) ((same_iff k j).0 q) here)
  | inr q ↦ rest j f (ground arith)
]

nil-IsValid : IsValid {J = ℕ} []
unfolding lookup
nil-IsValid k e h = cc

state-IsValid : IsValid state
state-IsValid =
    cons-IsValid (codes "a") waiting _ (payload (codes "a"), refl, refl)
      (cons-IsValid (codes "b") given_up _ (5, refl, omega arith) nil-IsValid)

run_once-IsValid_example : IsValid (run_once load confirm 2 candidates state)
run_once-IsValid_example =
    run_once-IsValid load confirm 2 candidates state (λ c. refl) state-IsValid

-- ===== src/Catho/State.antt =====
-- collectors/catho/state.ts: the pure part, over a state file's entries. The JSON value of a
-- posting and the parser of URLs are parameters.
use argos_career.Base.{
  ℕ, ◌+◌, Bool, true, false, not, ◌&&◌, ◌||◌, Text, codes, same, decimal, ◌++◌, Option, none, some,
  List, [], ◌∷◌, Dict, lookup, insert, delete, if◌then◌else◌, leb, ltb, or_else,
}
use argos_career.Base.{is_empty}

pub data CathoEntryState : Type 0 where
  collected ingested expired retryable quarantined : CathoEntryState

pub record CathoPayload (J : Type 0) : Type 0 where
  pub id : Text
  pub url : Text
  pub page_title : Text
  pub job_posting : J

pub record CathoStateEntry (J : Type 0) : Type 0 where
  pub state : CathoEntryState
  pub payload : Option (CathoPayload J)
  pub fail_count : Option ℕ
  pub reason : Option Text

-- `version` is the constant 2.
abbrev pub CathoState : Type 0 → Type 0
CathoState J = Dict (CathoStateEntry J)

abbrev pub max_retryable_attempts_before_quarantine : ℕ
max_retryable_attempts_before_quarantine = 5

abbrev pub is_state : CathoEntryState → CathoEntryState → Bool
is_state collected collected = true
is_state ingested ingested = true
is_state expired expired = true
is_state retryable retryable = true
is_state quarantined quarantined = true
is_state _ _ = false

-- What `new URL(s)` gives: `none` where it throws.
pub record ParsedUrl : Type 0 where
  pub protocol : Text
  pub hostname : Text
  pub port : Text
  pub pathname : Text

abbrev pub UrlParser : Type 0
UrlParser = Text → Option ParsedUrl

-- `toLowerCase` on the host name, which the parser has made ASCII.
abbrev pub lower_ascii : Text → Text
lower_ascii [] = []
lower_ascii (c ∷ s) = (if leb b'A' c && leb c b'Z' then c + 32 else c) ∷ lower_ascii s

abbrev pub allowed_catho_host : Text
allowed_catho_host = codes "www.catho.com.br"

unfoldable pub is_allowed_catho_url : UrlParser → Text → Bool
is_allowed_catho_url parse url = elim (parse url) [
  | none ↦ false
  | some parsed ↦
      same parsed.protocol (codes "https:")
      && same (lower_ascii parsed.hostname) allowed_catho_host
      && is_empty parsed.port
]

unfoldable pub is_generic_listing_redirect : UrlParser → Text → Bool
is_generic_listing_redirect parse final_url = elim (parse final_url) [
  | none ↦ false
  | some parsed ↦ same parsed.pathname (codes "/vagas") || same parsed.pathname (codes "/vagas/")
]

pub data PageOutcome (J : Type 0) : Type 0 where
  page_collected : CathoPayload J → PageOutcome J
  page_expired : PageOutcome J
  page_retryable : Text → PageOutcome J

pub record PageResult (J : Type 0) : Type 0 where
  pub http_status : Option ℕ
  pub final_url : Text
  pub json_ld : Option J  -- `none` where the value is falsy
  pub page_title : Text
  pub candidate_id : Text
  pub candidate_url : Text

module _ {J : Type 0} where
  abbrev pub empty_state : CathoState J
  empty_state = []

  unfoldable pub needs_page_fetch : CathoState J → Text → Bool
  needs_page_fetch state id = elim (lookup id state) [
    | none ↦ true
    | some entry ↦ is_state entry.state retryable
  ]

  classify_settled : UrlParser → PageResult J → PageOutcome J
  unfolding is_allowed_catho_url is_generic_listing_redirect
  classify_settled parse input =
      if not (is_allowed_catho_url parse input.final_url)
      then page_retryable (codes "final URL host not allowed")
      else if is_generic_listing_redirect parse input.final_url
      then page_expired
      else elim input.json_ld [
        | none ↦ page_retryable (codes "missing or invalid JSON-LD")
        | some json_ld ↦ page_collected (record {
          id = input.candidate_id;
          url = input.candidate_url;
          page_title = input.page_title;
          job_posting = json_ld;
        })
      ]

  unfoldable pub classify_page_result : UrlParser → PageResult J → PageOutcome J
  unfolding classify_settled decimal
  classify_page_result parse input = elim input.http_status [
    | none ↦ page_retryable (codes "no response")
    | some status ↦
        if ltb status 200 || leb 300 status
        then page_retryable (codes "HTTP " ++ decimal status)
        else classify_settled parse input
  ]

  abbrev pub plain : CathoEntryState → CathoStateEntry J
  plain state = record { state = state; payload = none; fail_count = none; reason = none }

  abbrev pub failed : CathoEntryState → ℕ → Text → CathoStateEntry J
  failed state fail_count reason = record {
    state = state;
    payload = none;
    fail_count = some fail_count;
    reason = some reason;
  }

  -- `state.entries[id]?.failCount ?? 0`.
  abbrev pub fail_count_of : Option (CathoStateEntry J) → ℕ
  fail_count_of none = 0
  fail_count_of (some entry) = or_else entry.fail_count 0

  abbrev pub entry_after : Option (CathoStateEntry J) → PageOutcome J → CathoStateEntry J
  entry_after before (page_collected payload) = record {
    state = collected;
    payload = some payload;
    fail_count = none;
    reason = none;
  }
  entry_after before page_expired = plain expired
  entry_after before (page_retryable reason) =
      let fail_count = fail_count_of before + 1 in
      if leb max_retryable_attempts_before_quarantine fail_count
      then failed quarantined fail_count reason
      else failed retryable fail_count reason

  unfoldable pub apply_page_outcome : CathoState J → Text → PageOutcome J → CathoState J
  unfolding insert lookup
  apply_page_outcome state id outcome = insert id (entry_after (lookup id state) outcome) state

  abbrev pub state_of : Option (CathoStateEntry J) → Option CathoEntryState
  state_of none = none
  state_of (some entry) = some entry.state

  abbrev pub has_state : CathoEntryState → Option (CathoStateEntry J) → Bool
  has_state s none = false
  has_state s (some entry) = is_state entry.state s

  -- The loop of `requeueQuarantined`.
  unfoldable pub requeue_each : CathoState J → List Text → CathoState J × List Text
  requeue_each entries [] = (entries, [])
  requeue_each entries (id ∷ ids) =
      let hit = has_state quarantined (lookup id entries) in
      let (after, requeued) = requeue_each (if hit then delete id entries else entries) ids in
      (after, if hit then id ∷ requeued else requeued)

  abbrev pub quarantined_ids : CathoState J → List Text
  quarantined_ids [] = []
  quarantined_ids ((id, entry) ∷ entries) =
      if is_state entry.state quarantined
      then id ∷ quarantined_ids entries
      else quarantined_ids entries

  unfoldable pub requeue_quarantined : CathoState J → Option (List Text) → CathoState J × List Text
  unfolding requeue_each lookup delete
  requeue_quarantined state ids = requeue_each state (or_else ids (quarantined_ids state))

  abbrev pub pending_of : CathoStateEntry J → List (CathoPayload J) → List (CathoPayload J)
  pending_of entry rest =
      if is_state entry.state collected
      then elim entry.payload [ none ↦ rest | some payload ↦ payload ∷ rest ]
      else rest

  unfoldable pub collected_payloads_pending_ingest : CathoState J → List (CathoPayload J)
  collected_payloads_pending_ingest [] = []
  collected_payloads_pending_ingest ((id, entry) ∷ entries) =
      pending_of entry (collected_payloads_pending_ingest entries)

  unfoldable pub mark_ingested : CathoState J → List Text → CathoState J
  unfolding lookup insert
  mark_ingested entries [] = entries
  mark_ingested entries (id ∷ ids) =
      mark_ingested
        (if has_state collected (lookup id entries)
          then insert id (plain ingested) entries
          else entries)
        ids

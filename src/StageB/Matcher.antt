-- ===== src/StageB/Matcher.antt =====
-- `StageBMatcher.match` of src/scoring/infrastructure/stage-b-matcher.ts. What
-- `parseModelOutputWithRetries` returns for a requirement, and the order in which the concurrent
-- requests are answered, are arguments.
use argos_career.Base.{
  ℕ, zero, suc, ◌+◌, ◌-◌, ◌%◌, Bool, true, false, not, ◌&&◌, ◌||◌, Text, Option, none, some,
  is_some, List, [], ◌∷◌, ◌++◌, length, leb, ltb, ◌==◌, if◌then◌else◌,
}
use argos_career.Scoring.Types.{MatchStatus, Requirement, Match, create_match}
use argos_career.Profile.Period.{UtcDate}
use argos_career.Evidence.Catalog.{Profile}
use argos_career.Evidence.Provenance.{
  Folding, is_known_profile_evidence, is_evidence_applicable_to_requirement,
}
use argos_career.Llm.Output.{LlmParseResult, ok, not_ok, permanent_error, FailureReason}
use argos_career.StageB.Matches.{
  CacheKey, Store, find, find_partial_at, upsert_matches, upsert_partial, same_requirement, item,
}

pub record MatchOutput : Type 0 where
  pub status : MatchStatus
  pub evidence : Option Text

pub data Answer : Type 0 where
  matched : Match → Bool → Answer
  unanswered : ℕ → Bool → Answer

pub data MatchingResult : Type 0 where
  matches_found : List Match → Bool → ℕ → MatchingResult
  matching_failed : ℕ → Bool → MatchingResult

pub record Matching : Type 0 where
  pub folding : Folding
  pub profile : Profile
  pub evaluated_at : UtcDate
  pub written_at : ℕ
  pub key : CacheKey
  pub concurrency : ℕ
  pub prompts_build : Bool
  pub ask : ℕ → Requirement → LlmParseResult MatchOutput
  pub next_answered : ℕ → ℕ

-- The variables of `runBounded`, with the indices whose task is in flight.
pub record Workers : Type 0 where
  pub cursor : ℕ
  pub stopped : Bool
  pub in_flight : List ℕ
  pub results : ℕ → Option Answer
  pub store : Store

module _ (m : Matching) (requirements : List Requirement) where
  -- A quote that is known, and that applies to the requirement.
  unfoldable pub is_grounded_quote : Text → Requirement → Bool
  unfolding is_known_profile_evidence is_evidence_applicable_to_requirement
  is_grounded_quote quote requirement =
      is_known_profile_evidence quote m.profile m.evaluated_at
      && is_evidence_applicable_to_requirement m.folding quote requirement m.profile m.evaluated_at

  abbrev pub is_grounded : Option Text → Requirement → Bool
  is_grounded none requirement = true
  is_grounded (some quote) requirement = is_grounded_quote quote requirement

  abbrev pub is_current : Match → Requirement → Bool
  is_current match current =
      same_requirement match.requirement current && is_grounded match.evidence current

  -- The cached list, position by position against the current requirements.
  unfoldable pub are_current : List Match → List Requirement → Bool
  unfolding is_grounded_quote
  are_current [] [] = true
  are_current (match ∷ matches) (current ∷ rest) =
      is_current match current && are_current matches rest
  are_current _ _ = false

  -- The part of `askOne` after the model: the evidence that is not grounded counts as none.
  unfoldable pub admitted_evidence : Option Text → Requirement → Option Text
  unfolding is_grounded_quote
  admitted_evidence none requirement = none
  admitted_evidence (some quote) requirement =
      if is_grounded_quote quote requirement then some quote else none

  abbrev pub is_permanent : FailureReason → Bool
  is_permanent permanent_error = true
  is_permanent _ = false

  unfoldable pub answer_of : Requirement → LlmParseResult MatchOutput → Answer
  unfolding create_match admitted_evidence
  answer_of requirement (not_ok failure) =
      unanswered failure.attempts (is_permanent failure.reason && failure.batch_fatal)
  answer_of requirement (ok output attempts) =
      let evidence = admitted_evidence output.evidence requirement in
      matched (create_match requirement output.status evidence)
        (is_some output.evidence && not (is_some evidence))

  -- A saved answer is served if its evidence still is grounded.
  unfoldable pub served : Requirement → Option Match → Option Match
  unfolding is_grounded_quote
  served requirement none = none
  served requirement (some match) =
      if is_grounded match.evidence requirement then some match else none

  -- `askOne`: the answer at an index, and what it writes.

  unfoldable pub ask_one : (ℕ → Option Match) → ℕ → Requirement → Answer
  unfolding served answer_of
  ask_one saved index requirement = elim (served requirement (saved index)) [
    | some match ↦ matched match false
    | none ↦ answer_of requirement (m.ask index requirement)
  ]

  write_answer : ℕ → Answer → Store → Store
  unfolding upsert_partial
  write_answer index (matched match rejected) store =
      upsert_partial m.key index match m.written_at store
  write_answer index (unanswered attempts permanent) store = store

  unfoldable pub checkpoint : (ℕ → Option Match) → ℕ → Requirement → Store → Store
  unfolding served write_answer answer_of
  checkpoint saved index requirement store = elim (served requirement (saved index)) [
    | some match ↦ store
    | none ↦ write_answer index (answer_of requirement (m.ask index requirement)) store
  ]

  abbrev pub is_matched : Answer → Bool
  is_matched (matched match rejected) = true
  is_matched (unanswered attempts permanent) = false

  -- A worker takes the next item, or ends.
  unfoldable pub take_next : Workers → Workers
  take_next w =
      if w.stopped || not (ltb w.cursor (length requirements))
      then w
      else record w { cursor = w.cursor + 1; in_flight = w.in_flight ++ (w.cursor ∷ []) }

  unfoldable pub launch : ℕ → Workers → Workers
  unfolding take_next
  launch zero w = w
  launch (suc n) w = launch n (take_next w)

  abbrev pub remove_at : ℕ → List ℕ → List ℕ
  remove_at n [] = []
  remove_at zero (x ∷ xs) = xs
  remove_at (suc n) (x ∷ xs) = x ∷ remove_at n xs

  -- The task of an index is answered, and its worker goes on.
  unfoldable pub settle_task : (ℕ → Option Match) → ℕ → Option Requirement → Workers → Workers
  unfolding ask_one checkpoint take_next
  settle_task saved index none w = w
  settle_task saved index (some requirement) w =
      let answer = ask_one saved index requirement in
      take_next (record w {
        stopped = w.stopped || not (is_matched answer);
        results = λ i. if i == index then some answer else w.results i;
        store = checkpoint saved index requirement w.store;
      })

  -- Each pass answers one task in flight; there are no more tasks than requirements.
  unfoldable pub run_bounded : ℕ → (ℕ → Option Match) → Workers → Workers
  unfolding settle_task
  run_bounded zero saved w = w
  run_bounded (suc n) saved w =
      let place = m.next_answered n % length w.in_flight in
      elim (item place w.in_flight) [
        | none ↦ w
        | some index ↦ run_bounded n saved (
            settle_task saved index (item index requirements)
              (record w { in_flight = remove_at place w.in_flight }))
      ]

  -- The requirements before the one that warms the prompt, and it, one after the other: the loop
  -- ends after the first that is not served.
  unfoldable pub warm_up : (ℕ → Option Match) → ℕ → List Requirement → Workers → Workers
  unfolding served ask_one checkpoint
  warm_up saved index [] w = w
  warm_up saved index (requirement ∷ rest) w =
      let answer = ask_one saved index requirement in
      let next = record w {
        cursor = index + 1;
        stopped = not (is_matched answer);
        results = λ i. if i == index then some answer else w.results i;
        store = checkpoint saved index requirement w.store;
      } in
      let later = warm_up saved (index + 1) rest next in
      elim (served requirement (saved index)) [ some match ↦ later | none ↦ next ]

  -- The loop over the answers, up to the first that is missing; a failed one is the result.
  unfoldable pub collect :
      ℕ → List Requirement → (ℕ → Option Answer) → List Match → ℕ → MatchingResult
  collect index [] results matches rejected = matches_found matches false rejected
  collect index (requirement ∷ rest) results matches rejected = elim (results index) [
    | none ↦ matching_failed 0 false
    | some (unanswered attempts permanent) ↦ matching_failed attempts permanent
    | some (matched match was_rejected) ↦
        collect (index + 1) rest results (matches ++ (match ∷ []))
          (if was_rejected then rejected + 1 else rejected)
  ]

  publish : MatchingResult → Store → Store
  unfolding upsert_matches
  publish (matches_found matches cached rejected) store =
      upsert_matches m.key matches m.written_at store
  publish (matching_failed attempts permanent) store = store

  abbrev pub worker_count : Workers → ℕ
  worker_count w =
      let left = length requirements - w.cursor in
      let limited = if leb m.concurrency left then m.concurrency else left in
      if leb 1 limited then limited else 1

  unfoldable pub match_fresh : Store → Store × MatchingResult
  unfolding warm_up launch run_bounded collect publish find_partial_at
  match_fresh store =
      let saved = λ (index : ℕ). find_partial_at m.key requirements index store.partial_rows in
      let warmed = warm_up saved 0 requirements (record {
        cursor = 0;
        stopped = false;
        in_flight = [];
        results = λ i. none;
        store = store;
      }) in
      let done =
        if warmed.stopped
        then warmed
        else run_bounded (length requirements) saved (launch (worker_count warmed) warmed) in
      let result = collect 0 requirements done.results [] 0 in (publish result done.store, result)

  unfoldable pub match_ : Store → Store × MatchingResult
  unfolding find are_current match_fresh
  match_ store = elim (find m.key store.complete_rows) [
    | some cached ↦
        (if are_current cached requirements
          then (store, matches_found cached true 0)
          else if m.prompts_build
          then match_fresh store
          else (store, matching_failed 0 false))
    | none ↦ (if m.prompts_build then match_fresh store else (store, matching_failed 0 false))
  ]

-- ===== src/StageB/Grounded.antt =====
-- That the matches of stage-b-matcher.ts stand on evidence of the profile.
use mathlib.Core.Path.{subst}
use mathlib.Core.Option.{some-injective}
use mathlib.Core.List.{append_assoc, append-nil}
use argos_career.Base.{
  ℕ, zero, suc, ◌+◌, ◌≡◌, refl, sym, ap, ◌∙◌, inl, inr, Bool, true, false, not, ◌||◌, Option, none,
  some, List, [], ◌∷◌, ◌++◌, length, ltb, ◌%◌, ◌==◌, if◌then◌else◌, arith, Bool-cases, Option-cases,
}
use argos_career.Scoring.Types.{Requirement, Match}
use argos_career.StageB.Matches.{Store, find, item, find_partial_at}
use argos_career.StageB.Matcher.{
  Answer, matched, unanswered, MatchingResult, matches_found, matching_failed, Matching,
  are_current, served, ask_one, Workers, take_next, launch, settle_task, run_bounded, warm_up,
  collect, match_fresh, match_, remove_at, worker_count,
}
use argos_career.StageB.Answers.{
  are_current-AreGrounded, find_coerced, ask_one-IsGroundedAnswer, find_partial_at-IsSaved,
  AreGrounded, IsGroundedAnswer, IsSaved,
}

module _ (m : Matching) (requirements : List Requirement) where
  -- The answers so far are grounded.
  abbrev AreSound : (ℕ → Option Answer) → Type 0
  AreSound results =
      (index : ℕ) (requirement : Requirement) (answer : Answer)
      → item index requirements ≡ some requirement
      → results index ≡ some answer
      → IsGroundedAnswer m requirements requirement answer

  module _ (saved : ℕ → Option Match) (s : IsSaved m requirements saved) where
    AreSound-answered :
        (results : ℕ → Option Answer) (index : ℕ) (requirement : Requirement)
        → item index requirements ≡ some requirement
        → AreSound results
        → AreSound (λ i.
          if i == index then some (ask_one m requirements saved index requirement) else results i)
    AreSound-answered results index requirement e sound i other answer k h =
        elim (Bool-cases (i == index)) [
          | inl q ↦ at_index (ground (arith, q)) (some-injective _ _ (rw q at h))
          | inr q ↦ sound i other answer k (rw q at h)
        ]
      where
        at_index :
            i ≡ index
            → ask_one m requirements saved index requirement ≡ answer
            → IsGroundedAnswer m requirements other answer
        at_index p a =
            let same_one = some-injective _ _ (sym e ∙ ap (λ n. item n requirements) (sym p) ∙ k) in
            subst (λ r. IsGroundedAnswer m requirements r answer) same_one
              (subst (λ x. IsGroundedAnswer m requirements requirement x) a
                (ask_one-IsGroundedAnswer m requirements saved index requirement s e))

    take_next-results : (w : Workers) → (take_next m requirements w).results ≡ w.results
    unfolding take_next
    take_next-results w =
        elim (Bool-cases (w.stopped || not (ltb w.cursor (length requirements)))) [
          | inl e ↦ rw e refl
          | inr e ↦ rw e refl
        ]

    settle_task-AreSound :
        (index : ℕ) (o : Option Requirement) (w : Workers)
        → item index requirements ≡ o
        → AreSound w.results
        → AreSound (settle_task m requirements saved index o w).results
    unfolding settle_task
    settle_task-AreSound index none w e h = h
    settle_task-AreSound index (some requirement) w e h =
        subst AreSound (sym (take_next-results _))
          (AreSound-answered w.results index requirement e h)

    run_bounded-AreSound :
        (n : ℕ) (w : Workers)
        → AreSound w.results
        → AreSound (run_bounded m requirements n saved w).results
    unfolding run_bounded
    run_bounded-AreSound zero w h = h
    run_bounded-AreSound (suc n) w h =
        go (item place w.in_flight) (λ v k. run_bounded-AreSound n v k)
      where
        place : ℕ
        place = m.next_answered n % length w.in_flight

        go :
            (o : Option ℕ)
            → ((v : Workers)
                → AreSound v.results
                → AreSound (run_bounded m requirements n saved v).results)
            → AreSound
                (elim o as (λ _. Workers) [
                  | none ↦ w
                  | some index ↦ run_bounded m requirements n saved (
                      settle_task m requirements saved index
                        (item index requirements)
                        (record w { in_flight = remove_at m requirements place w.in_flight }))
                ]).results
        go none rec = h
        go (some index) rec = rec _ (
            settle_task-AreSound index (item index requirements)
              (record w { in_flight = remove_at m requirements place w.in_flight }) refl h)

    launch-results : (n : ℕ) (w : Workers) → (launch m requirements n w).results ≡ w.results
    unfolding launch
    launch-results zero w = refl
    launch-results (suc n) w = launch-results n (take_next m requirements w) ∙ take_next-results w

    -- The rest of a list, from an index on.
    abbrev IsRest : ℕ → List Requirement → Type 0
    IsRest index rest = (k : ℕ) → item (k + index) requirements ≡ item k rest

    IsRest-next :
        (index : ℕ) (requirement : Requirement) (rest : List Requirement)
        → IsRest index (requirement ∷ rest)
        → IsRest (index + 1) rest
    IsRest-next index requirement rest h k =
        subst (λ n. item n requirements ≡ item k rest) (shift k) (h (suc k))
      where
        shift : (k : ℕ) → suc k + index ≡ k + (index + 1)
        shift k = omega arith

    IsRest-head :
        (index : ℕ) (requirement : Requirement) (rest : List Requirement)
        → IsRest index (requirement ∷ rest)
        → item index requirements ≡ some requirement
    IsRest-head index requirement rest h =
        subst (λ n. item n requirements ≡ some requirement) (zero_add index) (h zero)
      where
        zero_add : (n : ℕ) → zero + n ≡ n
        zero_add n = omega arith

    warm_up-AreSound :
        (index : ℕ) (rest : List Requirement) (w : Workers)
        → IsRest index rest
        → AreSound w.results
        → AreSound (warm_up m requirements saved index rest w).results
    unfolding warm_up
    warm_up-AreSound index [] w r h = h
    warm_up-AreSound index (requirement ∷ rest) w r h =
        let answered =
          AreSound-answered w.results index requirement (IsRest-head index requirement rest r) h in
        elim (Option-cases (served m requirements requirement (saved index))) [
          | inl e ↦ rw (warm_up, e) answered
          | inr (match, e) ↦
              rw (warm_up, e)
                (warm_up-AreSound (index + 1) rest _ (IsRest-next index requirement rest r)
                  answered)
        ]

  collect-AreGrounded :
      (index : ℕ) (rest : List Requirement) (results : ℕ → Option Answer) (before : List Match)
      (rejected : ℕ) (matches : List Match) (cached : Bool) (count : ℕ)
      → ((k : ℕ) → item (k + index) requirements ≡ item k rest)
      → AreSound results
      → collect m requirements index rest results before rejected
        ≡ matches_found matches cached count
      → (after : List Match) × (matches ≡ before ++ after) × AreGrounded m requirements after rest
  unfolding collect IsGroundedAnswer
  collect-AreGrounded index [] results before rejected matches cached count r sound h =
      ([], sym (found_list before false rejected h) ∙ sym (append-nil before), tt)
    where
      found_list :
          (xs : List Match) (c : Bool) (n : ℕ)
          → matches_found xs c n ≡ matches_found matches cached count
          → xs ≡ matches
      found_list xs c n e = cc
  collect-AreGrounded index (requirement ∷ rest) results before rejected matches cached count r
        sound h =
      go (results index) refl h (λ found n k.
        collect-AreGrounded (index + 1) rest results (before ++ (found ∷ [])) n matches cached count
          later sound k)
    where
      shift : (k : ℕ) → suc k + index ≡ k + (index + 1)
      shift k = omega arith

      later : (k : ℕ) → item (k + (index + 1)) requirements ≡ item k rest
      later k = subst (λ n. item n requirements ≡ item k rest) (shift k) (r (suc k))

      zero_add : (n : ℕ) → zero + n ≡ n
      zero_add n = omega arith

      here : item index requirements ≡ some requirement
      here = subst (λ n. item n requirements ≡ some requirement) (zero_add index) (r zero)

      Rest : Match → Type 0
      Rest found =
          (after : List Match) × (matches ≡ (before ++ (found ∷ [])) ++ after)
          × AreGrounded m requirements after rest

      go :
          (o : Option Answer)
          → results index ≡ o
          → elim o as (λ _. MatchingResult) [
            | none ↦ matching_failed 0 false
            | some (unanswered attempts permanent) ↦ matching_failed attempts permanent
            | some (matched match was_rejected) ↦
                collect m requirements
                  (index + 1)
                  rest
                  results
                  (before ++ (match ∷ []))
                  (if was_rejected then rejected + 1 else rejected)
          ]
            ≡ matches_found matches cached count
          → ((found : Match) (n : ℕ)
              → collect m requirements (index + 1) rest results (before ++ (found ∷ [])) n
                ≡ matches_found matches cached count
              → Rest found)
          → (after : List Match) × (matches ≡ before ++ after)
            × AreGrounded m requirements after (requirement ∷ rest)
      go none e k rec = cc
      go (some (unanswered attempts permanent)) e k rec = cc
      go (some (matched match was_rejected)) e k rec =
          let (after, q, g) = rec match (if was_rejected then rejected + 1 else rejected) k in
          (
            match ∷ after,
            q ∙ append_assoc before (match ∷ []) after,
            (sound index requirement (matched match was_rejected) here e, g),
          )

  match_fresh-AreGrounded :
      (store : Store) (matches : List Match) (cached : Bool) (count : ℕ)
      → (match_fresh m requirements store).1 ≡ matches_found matches cached count
      → AreGrounded m requirements matches requirements
  unfolding match_fresh
  match_fresh-AreGrounded store matches cached count h =
      let saved : ℕ → Option Match =
        λ index. find_partial_at m.key requirements index store.partial_rows in
      let kept : IsSaved m requirements saved = λ index requirement match e k.
        find_partial_at-IsSaved m requirements m.key index store.partial_rows requirement match e
          k in
      let first : Workers = record {
        cursor = 0;
        stopped = false;
        in_flight = [];
        results = λ i. none;
        store = store;
      } in
      let warmed = warm_up m requirements saved 0 requirements first in
      let warm_sound =
        warm_up-AreSound saved kept 0 requirements first (add_zero) (λ i q a e k. cc) in
      let (after, q, g) =
        collect-AreGrounded 0 requirements _ [] 0 matches cached count (add_zero)
          (done_sound saved kept warmed warm_sound) h in
      subst (λ ms. AreGrounded m requirements ms requirements) (sym q) g
    where
      add_zero : (k : ℕ) → item (k + 0) requirements ≡ item k requirements
      add_zero k = ap (λ n. item n requirements) (plus k)
        where
          plus : (k : ℕ) → k + 0 ≡ k
          plus k = omega arith

      either :
          (b : Bool) (x y : Workers)
          → AreSound x.results
          → AreSound y.results
          → AreSound (if b then x else y).results
      either true x y h k = h
      either false x y h k = k

      done_sound :
          (saved : ℕ → Option Match) (kept : IsSaved m requirements saved) (warmed : Workers)
          → AreSound warmed.results
          → AreSound
              (if warmed.stopped
                then warmed
                else run_bounded m requirements
                    (length requirements)
                    saved
                    (launch m requirements (worker_count m requirements warmed) warmed)).results
      done_sound saved kept warmed sound = either warmed.stopped _ _ sound (
          run_bounded-AreSound saved kept (length requirements) _ (
            subst AreSound
              (sym (launch-results saved kept (worker_count m requirements warmed) warmed)) sound))

  -- However the concurrent requests are answered, whatever the model says and whatever rows the cache
  -- holds, the matches that stage B returns are one for each requirement, in order, each of them of
  -- its requirement; its evidence, if there is any, is known to the profile and applies to the
  -- requirement, and without evidence it is not met.
  pub match-AreGrounded :
      (store : Store) (matches : List Match) (cached : Bool) (count : ℕ)
      → (match_ m requirements store).1 ≡ matches_found matches cached count
      → AreGrounded m requirements matches requirements
  unfolding match_
  match-AreGrounded store matches cached count h = go (find m.key store.complete_rows) refl h
    where
      fresh :
          (if m.prompts_build
              then match_fresh m requirements store
              else (store, matching_failed 0 false)).1
            ≡ matches_found matches cached count
          → AreGrounded m requirements matches requirements
      fresh k = elim (Bool-cases m.prompts_build) [
        | inl e ↦ match_fresh-AreGrounded store matches cached count (rw e at k)
        | inr e ↦ absurd (ground (arith, k, e))
      ]

      same_list :
          (xs : List Match)
          → matches_found xs true 0 ≡ matches_found matches cached count
          → xs ≡ matches
      same_list xs e = cc

      go :
          (o : Option (List Match))
          → find m.key store.complete_rows ≡ o
          → (elim o as (λ _. Store × MatchingResult) [
            | some found ↦
                (if are_current m requirements found requirements
                  then (store, matches_found found true 0)
                  else if m.prompts_build
                  then match_fresh m requirements store
                  else (store, matching_failed 0 false))
            | none ↦
                (if m.prompts_build
                  then match_fresh m requirements store
                  else (store, matching_failed 0 false))
          ]).1
            ≡ matches_found matches cached count
          → AreGrounded m requirements matches requirements
      go none e k = fresh k
      go (some found) e k = elim (Bool-cases (are_current m requirements found requirements)) [
        | inl c ↦
            subst (λ ms. AreGrounded m requirements ms requirements) (same_list found (rw c at k))
              (are_current-AreGrounded m requirements found requirements c
                (find_coerced m requirements m.key store.complete_rows found e))
        | inr c ↦ fresh (rw c at k)
      ]

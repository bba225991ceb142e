-- ===== src/Delivery/Attempts.antt =====
-- The requests that `sendMessageDetailed` of telegram-notifier.ts makes for a message.
use mathlib.Core.Path.{subst}
use argos_career.Base.{
  ℕ, zero, suc, ◌+◌, ◌≤◌, ◌<◌, ◌≡◌, refl, inl, inr, ◌⊎◌, Bool, true, false, not, ◌&&◌, Text, some,
  codes, decimal, ◌++◌, leb, ltb, ◌==◌, arith, Bool-cases,
}
use argos_career.Delivery.Notifier.{SendResult, sent, not_sent}
use argos_career.Delivery.Sender.{
  Reply, thrown, responded, is_certainly_undelivered, Acknowledgement, invalid, refused_ok,
  no_message_id, message, SenderOptions, Sending, ended, after_waiting, is_ok, acknowledged,
  after_throw, after_response, after_reply, send_from, send_message_detailed,
}

suc_add : (n : ℕ) → suc n ≡ n + 1
suc_add n = omega arith

lt_of_ltb : (a b : ℕ) → ltb a b ≡ true → a < b
lt_of_ltb a b h = ground arith

not_lt_of_ltb : (a b : ℕ) → ltb a b ≡ false → a < b → ⊥
not_lt_of_ltb a b h k = ground arith

-- After which a request is made again: the connection never opened, or a 429.
unfoldable pub is_retried : Reply → Bool
is_retried (thrown cause) = is_certainly_undelivered cause
is_retried (responded status body) = status == 429

-- Whether the message did not arrive for certain: the connection never opened, or the status says
-- that it was refused.
unfoldable pub is_rejected : Reply → Bool
is_rejected (thrown cause) = is_certainly_undelivered cause
is_rejected (responded status body) = not (is_ok status) && ltb status 500

module _ (s : SenderOptions) where
  -- What a result says of the last reply.
  unfoldable pub Concludes : Reply → SendResult → Type 0
  Concludes r (sent m) =
      (status : ℕ) × (body : Text) × (id : ℕ) × (r ≡ responded status body)
      × (is_ok status ≡ true)
      × (s.acknowledge body ≡ message id)
      × (m ≡ some id)
  Concludes r (not_sent e true) = is_rejected r ≡ false
  Concludes r (not_sent e false) = is_rejected r ≡ true

  -- The requests from an attempt on: each but the last is made again, the last concludes, and it is
  -- made again only at the bound.
  pub record IsRun (reply : ℕ → Reply) (attempt : ℕ) (run : Sending) : Type 0 where
    pub last : ℕ
    pub from : attempt ≤ last
    pub bound : last ≤ s.max_retries
    pub count : run.requests + attempt ≡ last + 1
    pub retried : (i : ℕ) → attempt ≤ i → i < last → is_retried (reply i) ≡ true
    pub stops : last < s.max_retries → is_retried (reply last) ≡ false
    pub concludes : Concludes (reply last) run.result

  module _ (reply : ℕ → Reply) (attempt : ℕ) (within : attempt ≤ s.max_retries) where
    ended-IsRun :
        (result : SendResult)
        → (attempt < s.max_retries → is_retried (reply attempt) ≡ false)
        → Concludes (reply attempt) result
        → IsRun reply attempt (ended result)
    ended-IsRun result stops concludes = record {
      last = attempt;
      from = omega arith;
      bound = within;
      count = omega arith;
      retried = λ i h k. absurd (omega arith);
      stops = stops;
      concludes = concludes;
    }

    after_waiting-IsRun :
        (ms : ℕ) (rest : Sending)
        → is_retried (reply attempt) ≡ true
        → IsRun reply (attempt + 1) rest
        → IsRun reply attempt (after_waiting ms rest)
    after_waiting-IsRun ms rest e r = record {
      last = r.last;
      from = omega (arith, r.from);
      bound = r.bound;
      count = omega (arith, r.count);
      retried = λ i h k. retried_at i (either i h) k;
      stops = r.stops;
      concludes = r.concludes;
    }
      where
        either : (i : ℕ) → attempt ≤ i → (attempt ≡ i) ⊎ (attempt + 1 ≤ i)
        either i h = elim (Bool-cases (attempt == i)) [
          | inl k ↦ inl (ground (arith, k))
          | inr k ↦ inr (ground (arith, k))
        ]

        retried_at :
            (i : ℕ) → (attempt ≡ i) ⊎ (attempt + 1 ≤ i) → i < r.last → is_retried (reply i) ≡ true
        retried_at i (inl q) k = subst (λ n. is_retried (reply n) ≡ true) q e
        retried_at i (inr h) k = r.retried i h k

    module _ (rest : Sending)
        (goes_on : attempt < s.max_retries → IsRun reply (attempt + 1) rest) where
      after_throw-IsRun :
          (cause : _)
          → reply attempt ≡ thrown cause
          → IsRun reply attempt (after_throw s attempt cause rest)
      unfolding after_throw is_retried is_rejected Concludes
      after_throw-IsRun cause q = elim (Bool-cases (is_certainly_undelivered cause)) [
        | inl e ↦ elim (Bool-cases (ltb attempt s.max_retries)) [
          | inl k ↦ rw (e, k) (after_waiting-IsRun _ rest (rw q e) (goes_on (lt_of_ltb _ _ k)))
          | inr k ↦ rw (e, k) (ended-IsRun _ (λ h. absurd (not_lt_of_ltb _ _ k h)) (rw q e))
        ]
        | inr e ↦ rw e (ended-IsRun _ (λ h. rw q e) (rw q e))
      ]

      acknowledged-Concludes :
          (status : ℕ) (body : Text) (a : Acknowledgement)
          → reply attempt ≡ responded status body
          → is_ok status ≡ true
          → s.acknowledge body ≡ a
          → Concludes (reply attempt) (acknowledged s a)
      unfolding acknowledged is_rejected Concludes
      acknowledged-Concludes status body (message id) q o a = (status, body, id, q, o, a, refl)
      acknowledged-Concludes status body invalid q o a = rw (q, o) refl
      acknowledged-Concludes status body refused_ok q o a = rw (q, o) refl
      acknowledged-Concludes status body no_message_id q o a = rw (q, o) refl

      refused-Concludes :
          (status : ℕ) (body error : Text)
          → reply attempt ≡ responded status body
          → is_ok status ≡ false
          → Concludes (reply attempt) (not_sent error (leb 500 status))
      unfolding is_rejected Concludes
      refused-Concludes status body error q o = elim (Bool-cases (leb 500 status)) [
        | inl e ↦ rw (e, q, o) (ground (arith, e))
        | inr e ↦ rw (e, q, o) (ground (arith, e))
      ]

      after_response-IsRun :
          (status : ℕ) (body : Text)
          → reply attempt ≡ responded status body
          → IsRun reply attempt (after_response s attempt status body rest)
      unfolding after_response is_retried is_rejected Concludes
      after_response-IsRun status body q = elim (Bool-cases (status == 429)) [
        | inl e ↦ elim (Bool-cases (ltb attempt s.max_retries)) [
          | inl k ↦ rw (e, k) (after_waiting-IsRun _ rest (rw q e) (goes_on (lt_of_ltb _ _ k)))
          | inr k ↦
              rw (e, k)
                (ended-IsRun _ (λ h. absurd (not_lt_of_ltb _ _ k h)) (rw q (ground (arith, e))))
        ]
        | inr e ↦ elim (Bool-cases (is_ok status)) [
          | inl k ↦
              rw (e, k)
                (ended-IsRun _ (λ h. rw q e) (acknowledged-Concludes status body _ q k refl))
          | inr k ↦
              rw (e, k)
                (ended-IsRun _ (λ h. rw q e)
                  (refused-Concludes status body
                    (codes "Telegram request failed: " ++ decimal status) q k))
        ]
      ]

      after_reply-IsRun :
          (r : Reply) → reply attempt ≡ r → IsRun reply attempt (after_reply s attempt r rest)
      unfolding after_reply
      after_reply-IsRun (thrown cause) q = after_throw-IsRun cause q
      after_reply-IsRun (responded status body) q = after_response-IsRun status body q

  send_from-IsRun :
      (reply : ℕ → Reply) (attempt passes : ℕ)
      → attempt + passes ≡ s.max_retries
      → IsRun reply attempt (send_from s reply attempt (suc passes))
  unfolding send_from
  send_from-IsRun reply attempt zero e =
      after_reply-IsRun reply attempt (omega arith) _ (λ h. absurd (omega arith)) (reply attempt)
        refl
  send_from-IsRun reply attempt (suc passes) e =
      after_reply-IsRun reply attempt (omega arith) (send_from s reply (attempt + 1) (suc passes))
        (λ h. send_from-IsRun reply (attempt + 1) passes (omega arith)) (reply attempt) refl

  -- Sending a message always comes to an end by one of the returns inside its loop, after at most one
  -- request more than the retries: each request before the last ended without a connection or with a
  -- 429, the last did neither or is the one at the bound, and the result is `sent` only on its
  -- acknowledgement, and uncertain exactly when it may have arrived.
  pub send_message_detailed-IsRun :
      (reply : ℕ → Reply) → IsRun reply 0 (send_message_detailed s reply)
  unfolding send_message_detailed
  send_message_detailed-IsRun reply =
      subst (λ n. IsRun reply 0 (send_from s reply 0 n)) (suc_add s.max_retries)
        (send_from-IsRun reply 0 s.max_retries (omega arith))

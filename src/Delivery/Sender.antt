-- ===== src/Delivery/Sender.antt =====
-- src/delivery/infrastructure/telegram-notifier.ts: `sendMessageDetailed`, one message with its
-- retries. What each request is answered with, and the reading of the two kinds of body as JSON, are
-- arguments.
use argos_career.Base.{
  ℕ, zero, suc, ◌+◌, ◌*◌, Bool, true, false, ◌&&◌, ◌++◌, Text, codes, contains, decimal, Option,
  none, some, List, [], ◌∷◌, or_else, leb, ltb, ◌==◌, if◌then◌else◌,
}
use argos_career.Delivery.Notifier.{SendResult, sent, not_sent}

abbrev pub default_max_retries : ℕ
default_max_retries = 3

abbrev pub default_retry_after_cap_ms : ℕ
default_retry_after_cap_ms = 30_000

abbrev pub default_retry_after_ms : ℕ
default_retry_after_ms = 5_000

abbrev pub default_transport_retry_base_ms : ℕ
default_transport_retry_base_ms = 500

-- A thrown value, as its name, its code and its cause.
pub data Cause : Type 0 where
  nothing : Cause
  error : Option Text → Option Text → Cause → Cause

abbrev pub never_sent_error_codes : List Text
never_sent_error_codes =
    codes "ENOTFOUND"
    ∷ codes "EAI_AGAIN"
    ∷ codes "ECONNREFUSED"
    ∷ codes "EHOSTUNREACH"
    ∷ codes "ENETUNREACH"
    ∷ codes "ENETDOWN"
    ∷ []

abbrev pub is_one_of : List Text → Option Text → Bool
is_one_of texts none = false
is_one_of texts (some text) = contains texts text

abbrev pub timeouts : List Text
timeouts = codes "AbortError" ∷ codes "TimeoutError" ∷ []

-- The loop, from a depth that is so far from its bound.
unfoldable pub never_sent_within : ℕ → Cause → Bool
never_sent_within zero cause = false
never_sent_within (suc n) nothing = false
never_sent_within (suc n) (error name code cause) =
    let rest = never_sent_within n cause in
    if is_one_of timeouts name
    then false
    else if is_one_of never_sent_error_codes code
    then true
    else rest

unfoldable pub is_certainly_undelivered : Cause → Bool
unfolding never_sent_within
is_certainly_undelivered cause = never_sent_within 5 cause

-- What a request comes to: a rejection, of the request or of the reading of its body, or a status
-- with the body, which is read on 2xx and on 429.
pub data Reply : Type 0 where
  thrown : Cause → Reply
  responded : ℕ → Text → Reply

-- A success body: not JSON, without `ok: true`, without a message id that is an integer, or with it.
pub data Acknowledgement : Type 0 where
  invalid refused_ok no_message_id : Acknowledgement
  message : ℕ → Acknowledgement

pub record SenderOptions : Type 0 where
  pub max_retries : ℕ
  pub retry_after_cap_ms : ℕ
  pub transport_retry_base_ms : ℕ
  pub retry_after_of : Text → Option ℕ
  pub acknowledge : Text → Acknowledgement

-- A message's result, the number of requests that were made for it, and the waits between them.
pub record Sending : Type 0 where
  pub result : SendResult
  pub requests : ℕ
  pub waits : List ℕ

abbrev pub ended : SendResult → Sending
ended result = record { result = result; requests = 1; waits = [] }

abbrev pub after_waiting : ℕ → Sending → Sending
after_waiting ms rest = record {
  result = rest.result;
  requests = rest.requests + 1;
  waits = ms ∷ rest.waits;
}

unfoldable pub power_of_two : ℕ → ℕ
power_of_two zero = 1
power_of_two (suc n) = power_of_two n + power_of_two n

abbrev pub is_ok : ℕ → Bool
is_ok status = leb 200 status && leb status 299

module _ (s : SenderOptions) where
  unfoldable pub acknowledged : Acknowledgement → SendResult
  acknowledged invalid = not_sent (codes "Telegram returned an invalid success body") true
  acknowledged refused_ok = not_sent (codes "Telegram returned ok:false in a success response") true
  acknowledged no_message_id =
      not_sent (codes "Telegram success response omitted a valid message_id") true
  acknowledged (message id) = sent (some id)

  -- A rejection; the last argument is the rest of the loop.
  unfoldable pub after_throw : ℕ → Cause → Sending → Sending
  unfolding is_certainly_undelivered power_of_two
  after_throw attempt cause rest =
      if is_certainly_undelivered cause
      then (if ltb attempt s.max_retries
          then after_waiting (s.transport_retry_base_ms * power_of_two attempt) rest
          else ended (not_sent (codes "Telegram request failed") false))
      else ended (not_sent (codes "Telegram request failed") true)

  unfoldable pub after_response : ℕ → ℕ → Text → Sending → Sending
  unfolding acknowledged decimal
  after_response attempt status body rest =
      if status == 429
      then (if ltb attempt s.max_retries
          then (let ms = or_else (s.retry_after_of body) default_retry_after_ms in
              after_waiting (if leb ms s.retry_after_cap_ms then ms else s.retry_after_cap_ms) rest)
          else ended (
              not_sent
                (codes "Telegram request failed: 429, exhausted "
                  ++ decimal s.max_retries
                  ++ codes " retries")
                false))
      else if is_ok status
      then ended (acknowledged (s.acknowledge body))
      else ended (not_sent (codes "Telegram request failed: " ++ decimal status) (leb 500 status))

  unfoldable pub after_reply : ℕ → Reply → Sending → Sending
  unfolding after_throw after_response
  after_reply attempt (thrown cause) rest = after_throw attempt cause rest
  after_reply attempt (responded status body) rest = after_response attempt status body rest

  -- The loop from an attempt on, with the number of passes up to its bound, and what stands after
  -- it.
  unfoldable pub send_from : (ℕ → Reply) → ℕ → ℕ → Sending
  unfolding after_reply
  send_from reply attempt zero = record {
    result = not_sent (codes "Telegram request failed: exhausted retries") false;
    requests = 0;
    waits = [];
  }
  send_from reply attempt (suc passes) =
      let rest = send_from reply (attempt + 1) passes in after_reply attempt (reply attempt) rest

  -- The n-th request is answered with the n-th reply.
  unfoldable pub send_message_detailed : (ℕ → Reply) → Sending
  unfolding send_from
  send_message_detailed reply = send_from reply 0 (s.max_retries + 1)

-- ===== src/Delivery/SendExamples.antt =====
-- The theorems on `sendMessageDetailed` of telegram-notifier.ts at a chat that is rate limited once.
use argos_career.Base.{ℕ, zero, suc, ◌≡◌, refl, codes, some, [], ◌∷◌}
use argos_career.Delivery.Sender.{Reply, responded, message, SenderOptions, send_message_detailed}
use argos_career.Delivery.Attempts.{IsRun, send_message_detailed-IsRun}

abbrev options : SenderOptions
options = record {
  max_retries = 3;
  retry_after_cap_ms = 30_000;
  transport_retry_base_ms = 500;
  retry_after_of = λ t. some 2_000;
  acknowledge = λ t. message 77;
}

abbrev replies : ℕ → Reply
replies zero = responded 429 (codes "{}")
replies (suc n) = responded 200 (codes "{}")

two_requests : (send_message_detailed options replies).requests ≡ 2
unfolding send_message_detailed
two_requests = refl

one_wait : (send_message_detailed options replies).waits ≡ 2_000 ∷ []
unfolding send_message_detailed
one_wait = refl

send_message_detailed-IsRun_example :
    IsRun options replies 0 (send_message_detailed options replies)
send_message_detailed-IsRun_example = send_message_detailed-IsRun options replies

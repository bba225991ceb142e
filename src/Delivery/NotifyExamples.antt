-- ===== src/Delivery/NotifyExamples.antt =====
-- The theorems on notify of telegram-notifier.ts at a digest of one chunk and an empty store.
use argos_career.Base.{◌≡◌, refl, false, Text, codes, none, some, [], ◌∷◌}
use argos_career.Persistence.DeliveryOperations.{
  Db, ChunkRow, chunk_confirmed, chunk_failed, operation_id_of,
}
use argos_career.Delivery.Notifier.{
  Setting, sent, not_sent, ok, send_failed, channel_key, notify_prepared, notify,
}
use argos_career.Delivery.Resume.{HandsOver, due, notify_prepared-HandsOver}
use argos_career.Delivery.Cover.{IsSettled}
use argos_career.Delivery.Settle.{IsQuiet, notify_settles}

-- The hash is the identity, and the transport accepts every chunk.

abbrev working : Setting
working = record {
  sha256 = λ t. t;
  chat_id = codes "42";
  owner = codes "w";
  delivery_lease_ms = 1000;
  clock = λ n. n;
  send = λ tick db body. (db, sent (some 7));
}

abbrev broken : Setting
broken = record working { send = λ tick db body. (db, not_sent (codes "503") false) }

abbrev empty : Db
empty = record { operations = []; chunks = [] }

abbrev text : Text
text = codes "hi"

-- The second attempt takes up the chunk that the first one could not send, and a third has none.
retries :
    ((notify broken text empty).result ≡ send_failed 0 (codes "503"))
    × ((notify working text (notify broken text empty).db).handed ≡ 0 ∷ [])
    × ((notify working text (notify working text (notify broken text empty).db).db).handed ≡ [])
unfolding notify
retries = (refl, refl, refl)

working-IsQuiet : IsQuiet working
working-IsQuiet tick db body = refl

sent_at_once : (notify working text empty).result ≡ ok
unfolding notify
sent_at_once = refl

notify_settles_example :
    IsSettled
      (operation_id_of working.sha256 (channel_key working) (working.sha256 text))
      (notify working text empty).db
notify_settles_example = notify_settles working working-IsQuiet text empty sent_at_once

abbrev row : ChunkRow
row = record {
  id = codes "c";
  operation_id = codes "o";
  chunk_index = 0;
  content_hash = text;
  body = text;
  status = chunk_confirmed;
  attempts = 1;
  telegram_message_id = some 7;
  confirmed_at = some 1;
  last_error = none;
}

abbrev failed_row : ChunkRow
failed_row = record row { chunk_index = 1; status = chunk_failed }

abbrev store : Db
store = record { operations = []; chunks = row ∷ failed_row ∷ [] }

notify_prepared-HandsOver_example :
    HandsOver
      (notify_prepared working (codes "o") 1 store (row ∷ failed_row ∷ []))
      (due (row ∷ failed_row ∷ []))
notify_prepared-HandsOver_example =
    notify_prepared-HandsOver working (codes "o") 1 store (row ∷ failed_row ∷ [])

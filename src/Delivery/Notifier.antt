-- ===== src/Delivery/Notifier.antt =====
-- src/delivery/infrastructure/telegram-notifier.ts: `notify` over a delivery store, which is the
-- repository of the delivery operations. The text of the digest, SHA-256, the clock, the random
-- owner and the transport are arguments.
use argos_career.Base.{
  ℕ, ◌+◌, Bool, true, false, not, Text, codes, ◌++◌, Option, none, some, List, [], ◌∷◌, any, every,
  or_else, if◌then◌else◌,
}
use argos_career.Persistence.DeliveryOperations.{
  Db, ChunkRow, is_confirmed, is_sending_or_uncertain, prepare, claim, start_chunk, confirm_chunk,
  stop_chunk, chunk_failed, chunk_uncertain, complete, release,
}
use argos_career.Delivery.Split.{split_for_telegram, telegram_message_limit}

-- What `sendMessageDetailed` returns.

pub data SendResult : Type 0 where
  sent : Option ℕ → SendResult
  not_sent : Text → Bool → SendResult

-- Why a notification is not `{ ok: true }`.
pub data NotifyResult : Type 0 where
  ok not_prepared must_reconcile owned_by_another ownership_lost : NotifyResult
  send_failed : ℕ → Text → NotifyResult

-- What a notification leaves: the tables, the number of clock readings so far, the indices of the
-- chunks that it handed to the transport, and its result.
pub record Notified : Type 0 where
  pub db : Db
  pub tick : ℕ
  pub handed : List ℕ
  pub result : NotifyResult

-- The n-th call of `sendMessageDetailed` happens at the n-th clock reading; while it is awaited,
-- others act on the tables.
abbrev pub Transport : Type 0
Transport = ℕ → Db → Text → Db × SendResult

pub record Setting : Type 0 where
  pub sha256 : Text → Text
  pub chat_id : Text
  pub owner : Text
  pub delivery_lease_ms : ℕ
  pub clock : ℕ → ℕ
  pub send : Transport

module _ (s : Setting) where
  abbrev pub handing : ℕ → Notified → Notified
  handing index n = record n { handed = index ∷ n.handed }

  abbrev pub stopped : Text → ℕ → ℕ → Db → Text → Bool → Notified
  stopped operation_id index tick db error uncertain = record {
    db =
        stop_chunk (if uncertain then chunk_uncertain else chunk_failed) operation_id index error
          (s.clock tick) db;
    tick = tick + 1;
    handed = [];
    result = send_failed index error;
  }

  -- One pass of the loop, once `sendMessageDetailed` has answered; the last argument but two is the
  -- rest of the loop.
  unfoldable pub answered : Text → ChunkRow → ℕ → (ℕ → Db → Notified) → Db → SendResult → Notified
  unfolding stop_chunk confirm_chunk
  answered operation_id chunk tick rest db (not_sent error uncertain) =
      stopped operation_id chunk.chunk_index (tick + 2) db error uncertain
  answered operation_id chunk tick rest db (sent message_id) =
      rest (tick + 3)
        (confirm_chunk operation_id chunk.chunk_index message_id (s.clock (tick + 2)) db)

  -- The pass from the refreshed claim on.
  unfoldable pub attempt : Text → ChunkRow → ℕ → (ℕ → Db → Notified) → Db → Bool → Notified
  unfolding start_chunk answered
  attempt operation_id chunk tick rest db false = record {
    db = db;
    tick = tick + 1;
    handed = [];
    result = ownership_lost;
  }
  attempt operation_id chunk tick rest db true =
      let started = start_chunk operation_id chunk.chunk_index (s.clock (tick + 1)) db in
      let (later, answer) = s.send (tick + 1) started chunk.body in
      handing chunk.chunk_index (answered operation_id chunk tick rest later answer)

  unfoldable pub pass : Text → ChunkRow → ℕ → (ℕ → Db → Notified) → Db → Bool → Notified
  unfolding claim attempt
  pass operation_id chunk tick rest db true = rest tick db
  pass operation_id chunk tick rest db false =
      let (claimed, owned) = claim operation_id s.owner (s.clock tick) s.delivery_lease_ms db in
      attempt operation_id chunk tick rest claimed owned

  -- The loop over the chunks, without its pauses, and the completion after it.
  unfoldable pub deliver : Text → ℕ → Db → List ChunkRow → Notified
  unfolding pass complete
  deliver operation_id tick db [] = record {
    db = complete operation_id (s.clock tick) db;
    tick = tick + 1;
    handed = [];
    result = ok;
  }
  deliver operation_id tick db (chunk ∷ chunks) =
      pass operation_id chunk tick (λ t d. deliver operation_id t d chunks) db
        (is_confirmed chunk.status)

  -- From the claim on; `finally` releases whatever the loop came to.
  unfoldable pub notify_prepared : Text → ℕ → Db → List ChunkRow → Notified
  unfolding deliver claim release complete
  notify_prepared operation_id tick db rows =
      if every (λ (r : ChunkRow). is_confirmed r.status) rows
      then record {
        db = complete operation_id (s.clock tick) db;
        tick = tick + 1;
        handed = [];
        result = ok;
      }
      else if any (λ (r : ChunkRow). is_sending_or_uncertain r.status) rows
      then record { db = db; tick = tick; handed = []; result = must_reconcile }
      else (let (claimed, owned) =
            claim operation_id s.owner (s.clock tick) s.delivery_lease_ms db in
          if not owned
          then record { db = claimed; tick = tick + 1; handed = []; result = owned_by_another }
          else (let n = deliver operation_id (tick + 1) claimed rows in
              record n {
                db = release operation_id s.owner (s.clock n.tick) n.db;
                tick = n.tick + 1;
              }))

  abbrev pub channel_key : Text
  channel_key = s.sha256 (codes "telegram:" ++ s.chat_id)

  unfoldable pub notify : Text → Db → Notified
  unfolding notify_prepared prepare split_for_telegram
  notify text db =
      let chunks = or_else (split_for_telegram text telegram_message_limit) [] in
      let (prepared, found) = prepare s.sha256 channel_key (s.sha256 text) chunks (s.clock 0) db in
      elim found [
        | none ↦ record { db = prepared; tick = 1; handed = []; result = not_prepared }
        | some (operation_id, rows) ↦ notify_prepared operation_id 1 prepared rows
      ]

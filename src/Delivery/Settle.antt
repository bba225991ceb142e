-- ===== src/Delivery/Settle.antt =====
-- That a notification of telegram-notifier.ts that is ok leaves no chunk of its operation
-- unconfirmed.
use argos_career.Base.{
  ℕ, ◌+◌, ◌≡◌, refl, sym, inl, inr, Bool, true, false, not, ◌||◌, Text, same, List, [], ◌∷◌, any,
  every, All, or_else, arith, Bool-cases,
}
use mathlib.Core.Path.{subst}
use argos_career.Persistence.DeliveryOperations.{
  Db, ChunkRow, is_confirmed, is_sending_or_uncertain, chunks_of, operation_id_of, prepared_db,
  prepare, same_bodies, claim, start_chunk, complete, release,
}
use argos_career.Delivery.Split.{split_for_telegram, telegram_message_limit}
use argos_career.Delivery.Notifier.{
  SendResult, sent, not_sent, ok, Notified, Setting, answered, attempt, pass, deliver,
  notify_prepared, notify, channel_key,
}
use argos_career.Delivery.Cover.{
  Covers, IsSettled, Covers-of_confirmed, Covers-start_chunk, Covers-confirm_chunk,
  Covers-chunks_of, Covers-of_every,
}

-- Others leave the table of chunks alone while the transport is awaited.

abbrev pub IsQuiet : Setting → Type 0
IsQuiet s = (tick : ℕ) (db : Db) (body : Text) → (s.send tick db body).0.chunks ≡ db.chunks

module _ (s : Setting) (quiet : IsQuiet s) (operation_id : Text) where
  module _ (row : ChunkRow) (rows : List ChunkRow) (rest : ℕ → Db → Notified)
      (h : (tick : ℕ) (db : Db)
        → Covers operation_id rows db.chunks
        → (rest tick db).result ≡ ok
        → IsSettled operation_id (rest tick db).db) where
    answered_settles :
        (tick : ℕ) (db : Db) (answer : SendResult)
        → Covers operation_id (row ∷ rows) db.chunks
        → (answered s operation_id row tick rest db answer).result ≡ ok
        → IsSettled operation_id (answered s operation_id row tick rest db answer).db
    unfolding answered
    answered_settles tick db (sent message_id) c k =
        h _ _ (Covers-confirm_chunk operation_id row rows message_id _ db c) k
    answered_settles tick db (not_sent error uncertain) c k = cc

    attempt_settles :
        (tick : ℕ) (db : Db) (owned : Bool)
        → is_confirmed row.status ≡ false
        → Covers operation_id (row ∷ rows) db.chunks
        → (attempt s operation_id row tick rest db owned).result ≡ ok
        → IsSettled operation_id (attempt s operation_id row tick rest db owned).db
    unfolding attempt
    attempt_settles tick db false e c k = cc
    attempt_settles tick db true e c k =
        let started = start_chunk operation_id row.chunk_index (s.clock (tick + 1)) db in
        let (later, answer) = s.send (tick + 1) started row.body in
        answered_settles tick later answer
          (subst (Covers operation_id (row ∷ rows)) (sym (quiet (tick + 1) started row.body))
            (Covers-start_chunk operation_id row rows (s.clock (tick + 1)) db e c))
          k

    pass_settles :
        (tick : ℕ) (db : Db) (confirmed : Bool)
        → is_confirmed row.status ≡ confirmed
        → Covers operation_id (row ∷ rows) db.chunks
        → (pass s operation_id row tick rest db confirmed).result ≡ ok
        → IsSettled operation_id (pass s operation_id row tick rest db confirmed).db
    unfolding pass claim
    pass_settles tick db true e c k =
        h tick db (Covers-of_confirmed operation_id row rows db.chunks e c) k
    pass_settles tick db false e c k =
        let (claimed, owned) = claim operation_id s.owner (s.clock tick) s.delivery_lease_ms db in
        attempt_settles tick claimed owned e c k

  settled_of_Covers :
      (rs : List ChunkRow)
      → Covers operation_id [] rs
      → All
          (λ (r : ChunkRow).
            (not (same r.operation_id operation_id) || is_confirmed r.status) ≡ true)
          rs
  settled_of_Covers [] c = tt
  settled_of_Covers (r ∷ rs) c = (ground (arith, c.0), settled_of_Covers rs c.1)

  deliver_settles :
      (tick : ℕ) (db : Db) (rows : List ChunkRow)
      → Covers operation_id rows db.chunks
      → (deliver s operation_id tick db rows).result ≡ ok
      → IsSettled operation_id (deliver s operation_id tick db rows).db
  unfolding deliver complete
  deliver_settles tick db [] c k = settled_of_Covers db.chunks c
  deliver_settles tick db (row ∷ rows) c k =
      pass_settles row rows (λ t d. deliver s operation_id t d rows)
        (λ t d. deliver_settles t d rows) tick db (is_confirmed row.status) refl c k

module _ (s : Setting) (quiet : IsQuiet s) where
  notify_prepared_settles :
      (operation_id : Text) (tick : ℕ) (db : Db) (rows : List ChunkRow)
      → Covers operation_id rows db.chunks
      → (notify_prepared s operation_id tick db rows).result ≡ ok
      → IsSettled operation_id (notify_prepared s operation_id tick db rows).db
  unfolding notify_prepared release complete claim
  notify_prepared_settles operation_id tick db rows c k =
      let (claimed, owned) = claim operation_id s.owner (s.clock tick) s.delivery_lease_ms db in
      elim (Bool-cases (every (λ (r : ChunkRow). is_confirmed r.status) rows)) [
        | inl e ↦ rw e (
            settled_of_Covers s quiet operation_id db.chunks
              (Covers-of_every operation_id rows db.chunks e c))
        | inr e ↦
            elim (Bool-cases (any (λ (r : ChunkRow). is_sending_or_uncertain r.status) rows)) [
              | inl d ↦ absurd (ground (arith, k, e, d))
              | inr d ↦ elim (Bool-cases owned) [
                | inl o ↦
                    rw (e, d, o)
                      (deliver_settles s quiet operation_id (tick + 1) claimed rows c
                        (rw (e, d, o) at k))
                | inr o ↦ absurd (ground (arith, k, e, d, o))
              ]
            ]
      ]

  -- If others leave the table of chunks alone, a notification that is ok leaves every chunk of its
  -- operation confirmed, those of earlier notifications included.
  pub notify_settles :
      (text : Text) (db : Db)
      → (notify s text db).result ≡ ok
      → IsSettled (operation_id_of s.sha256 (channel_key s) (s.sha256 text)) (notify s text db).db
  unfolding notify prepare
  notify_settles text db k =
      let bodies = or_else (split_for_telegram text telegram_message_limit) [] in
      let operation_id = operation_id_of s.sha256 (channel_key s) (s.sha256 text) in
      let written = prepared_db s.sha256 (channel_key s) (s.sha256 text) bodies (s.clock 0) db in
      let rows = chunks_of written operation_id in
      elim (Bool-cases (same_bodies s.sha256 rows bodies)) [
        | inl e ↦
            rw (notify, e)
              (notify_prepared_settles operation_id 1 written rows
                (Covers-chunks_of operation_id written) (rw (notify, e) at k))
        | inr e ↦ absurd (ground (arith, k, e))
      ]

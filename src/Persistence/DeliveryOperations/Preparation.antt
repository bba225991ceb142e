-- ===== src/Persistence/DeliveryOperations/Preparation.antt =====
-- `prepare` of delivery-operations-repository.ts. SHA-256 is a parameter.
use argos_career.Base.{
  ℕ, suc, Bool, true, false, ◌&&◌, ◌||◌, Text, codes, same, decimal, Option, none, some, List, [],
  ◌∷◌, ◌++◌, any, ◌==◌, if◌then◌else◌,
}
use argos_career.Persistence.DeliveryOperations.Tables.{
  OperationRow, ChunkRow, Db, chunks_of, chunk_pending, operation_pending,
}

module _ (sha256 : Text → Text) where
  abbrev pub chunk_id : Text → ℕ → Text
  chunk_id operation_id index = sha256 (operation_id ++ codes ":" ++ decimal index)

  abbrev pub operation_id_of : Text → Text → Text
  operation_id_of channel content = sha256 (channel ++ 0 ∷ content)

  -- `onConflictDoNothing`, on the primary key and the unique index of each table.
  abbrev pub insert_operation : OperationRow → List OperationRow → List OperationRow
  insert_operation row rows =
      if any
        (λ r.
          same r.operation_key row.operation_key
          || (same r.channel_key row.channel_key && same r.digest_hash row.digest_hash))
        rows
      then rows
      else rows ++ row ∷ []

  abbrev pub insert_chunk : ChunkRow → List ChunkRow → List ChunkRow
  insert_chunk row rows =
      if any
        (λ r.
          same r.id row.id
          || (same r.operation_id row.operation_id && (r.chunk_index == row.chunk_index)))
        rows
      then rows
      else rows ++ row ∷ []

  unfoldable pub new_chunk : Text → ℕ → Text → ChunkRow
  unfolding decimal
  new_chunk operation_id index body = record {
    id = chunk_id operation_id index;
    operation_id = operation_id;
    chunk_index = index;
    content_hash = sha256 body;
    body = body;
    status = chunk_pending;
    attempts = 0;
    telegram_message_id = none;
    confirmed_at = none;
    last_error = none;
  }

  unfoldable pub insert_chunks : Text → ℕ → List Text → List ChunkRow → List ChunkRow
  unfolding new_chunk
  insert_chunks operation_id index [] rows = rows
  insert_chunks operation_id index (body ∷ bodies) rows =
      insert_chunks operation_id (suc index) bodies
        (insert_chunk (new_chunk operation_id index body) rows)

  abbrev pub same_bodies : List ChunkRow → List Text → Bool
  same_bodies [] [] = true
  same_bodies (r ∷ rs) (b ∷ bs) = same r.body b && same_bodies rs bs
  same_bodies _ _ = false

  unfoldable pub prepared_db : Text → Text → List Text → ℕ → Db → Db
  unfolding insert_chunks
  prepared_db channel content bodies now db =
      let operation_id = operation_id_of channel content in
      record {
        operations =
            insert_operation
              (record {
                operation_key = operation_id;
                channel_key = channel;
                digest_hash = content;
                operation_status = operation_pending;
                claimed_by = none;
                claim_expires_at = none;
                created_at = now;
                updated_at = now;
                completed_at = none;
              })
              db.operations;
        chunks = insert_chunks operation_id 0 bodies db.chunks;
      }

  -- The operation and its rows; `none` where the source throws. The tables are written in both
  -- cases.
  unfoldable pub prepare : Text → Text → List Text → ℕ → Db → Db × Option (Text × List ChunkRow)
  unfolding prepared_db chunks_of
  prepare channel content bodies now db =
      let operation_id = operation_id_of channel content in
      let written = prepared_db channel content bodies now db in
      let rows = chunks_of written operation_id in
      (written, if same_bodies rows bodies then some (operation_id, rows) else none)

-- ===== src/Persistence/DeliveryOperations/Reconciliation.antt =====
-- `reconcileUncertainChunk` of delivery-operations-repository.ts.
use argos_career.Base.{
  ℕ, Bool, true, false, not, ◌&&◌, Text, codes, same, Option, none, some, List, [], ◌∷◌, filter,
  every, if◌then◌else◌,
}
use argos_career.Persistence.Table.{update_where}
use argos_career.Persistence.DeliveryOperations.Tables.{
  OperationRow, ChunkRow, Db, is_confirmed, is_sending_or_uncertain, of_operation, of_chunk,
  chunk_pending, chunk_confirmed, operation_pending, operation_complete,
}

pub data Resolution : Type 0 where
  as_confirmed retry : Resolution

abbrev pub reconciled_row : Resolution → ℕ → Option ℕ → ChunkRow → ChunkRow
reconciled_row as_confirmed now message_id r = record r {
  status = chunk_confirmed;
  confirmed_at = some now;
  telegram_message_id = message_id;
  last_error = some (codes "manually reconciled as confirmed");
}
reconciled_row retry now message_id r = record r {
  status = chunk_pending;
  confirmed_at = none;
  telegram_message_id = none;
  last_error = some (codes "manual retry authorized after uncertain acknowledgement");
}

abbrev pub is_nil : List ChunkRow → Bool
is_nil [] = true
is_nil (r ∷ rs) = false

abbrev pub reconciled_db : Text → ℕ → Resolution → ℕ → Option ℕ → Db → Db
reconciled_db operation_id index resolution now message_id db =
    let chunks =
      update_where (of_chunk operation_id index) (reconciled_row resolution now message_id)
        db.chunks in
    let remaining = filter (λ (r : ChunkRow). same r.operation_id operation_id) chunks in
    let done =
      not (is_nil remaining) && every (λ (r : ChunkRow). is_confirmed r.status) remaining in
    record {
      operations =
          update_where (of_operation operation_id)
            (λ (r : OperationRow). record r {
              operation_status = if done then operation_complete else operation_pending;
              updated_at = now;
              completed_at = if done then some now else none;
              claimed_by = none;
              claim_expires_at = none;
            })
            db.operations;
      chunks = chunks;
    }

-- `none` where the source throws; the transaction then writes nothing.
unfoldable pub reconcile_uncertain_chunk : Text → ℕ → Resolution → ℕ → Option ℕ → Db → Option Db
reconcile_uncertain_chunk operation_id index resolution now message_id db =
    elim (filter (of_chunk operation_id index) db.chunks) [
      | [] ↦ none
      | row ∷ rows ↦
          if is_sending_or_uncertain row.status
          then some (reconciled_db operation_id index resolution now message_id db)
          else none
    ]

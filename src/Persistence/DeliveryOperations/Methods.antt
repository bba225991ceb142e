-- ===== src/Persistence/DeliveryOperations/Methods.antt =====
-- The claims of delivery-operations-repository.ts and the progress of its chunks.
use argos_career.Base.{
  ℕ, ◌+◌, Bool, true, false, not, ◌&&◌, ◌||◌, Text, same, Option, none, some, List, [], ◌∷◌, filter,
  length, ltb, ◌==◌, if◌then◌else◌,
}
use argos_career.Persistence.Table.{update_where}
use argos_career.Persistence.DeliveryOperations.Tables.{
  ChunkStatus, OperationStatus, OperationRow, ChunkRow, Db, is_complete, of_operation, of_chunk,
  chunk_sending, chunk_confirmed, operation_in_progress, operation_failed, operation_complete,
}

-- `lt(claimExpiresAt, now)` is not true of NULL.

abbrev pub expired_at : Option ℕ → ℕ → Bool
expired_at none now = false
expired_at (some t) now = ltb t now

abbrev pub claimable : Text → Text → ℕ → OperationRow → Bool
claimable operation_id owner now r =
    of_operation operation_id r
    && (not (is_complete r.operation_status)
        && (elim r.claimed_by [ none ↦ true | some o ↦ same o owner ]
            || expired_at r.claim_expires_at now))

unfoldable pub claim : Text → Text → ℕ → ℕ → Db → Db × Bool
claim operation_id owner now lease_ms db =
    let hits = claimable operation_id owner now in
    (
      record db {
        operations =
            update_where hits
              (λ (r : OperationRow). record r {
                claimed_by = some owner;
                claim_expires_at = some (now + lease_ms);
                operation_status = operation_in_progress;
                updated_at = now;
              })
              db.operations;
      },
      length (filter hits db.operations) == 1,
    )

abbrev pub set_operation : Text → OperationStatus → ℕ → List OperationRow → List OperationRow
set_operation operation_id status now =
    update_where (of_operation operation_id)
      (λ (r : OperationRow). record r { operation_status = status; updated_at = now })

-- `(row?.attempts ?? 0) + 1`, of the first row of the chunk.
abbrev pub next_attempt : Text → ℕ → List ChunkRow → ℕ
next_attempt operation_id index [] = 1
next_attempt operation_id index (r ∷ rs) =
    if of_chunk operation_id index r then r.attempts + 1 else next_attempt operation_id index rs

unfoldable pub start_chunk : Text → ℕ → ℕ → Db → Db
start_chunk operation_id index started_at db = record {
  operations = set_operation operation_id operation_in_progress started_at db.operations;
  chunks =
      update_where (of_chunk operation_id index)
        (λ (r : ChunkRow). record r {
          status = chunk_sending;
          attempts = next_attempt operation_id index db.chunks;
          last_error = none;
        })
        db.chunks;
}

unfoldable pub confirm_chunk : Text → ℕ → Option ℕ → ℕ → Db → Db
confirm_chunk operation_id index message_id confirmed_at db = record db {
  chunks =
      update_where (of_chunk operation_id index)
        (λ (r : ChunkRow). record r {
          status = chunk_confirmed;
          confirmed_at = some confirmed_at;
          telegram_message_id = message_id;
          last_error = none;
        })
        db.chunks;
}

-- `failChunk` and `markChunkUncertain`, which differ in the status that they set.
unfoldable pub stop_chunk : ChunkStatus → Text → ℕ → Text → ℕ → Db → Db
stop_chunk status operation_id index error now db = record {
  operations = set_operation operation_id operation_failed now db.operations;
  chunks =
      update_where (of_chunk operation_id index)
        (λ (r : ChunkRow). record r { status = status; last_error = some error }) db.chunks;
}

unfoldable pub complete : Text → ℕ → Db → Db
complete operation_id completed_at db = record db {
  operations =
      update_where (of_operation operation_id)
        (λ (r : OperationRow). record r {
          operation_status = operation_complete;
          completed_at = some completed_at;
          updated_at = completed_at;
          claimed_by = none;
          claim_expires_at = none;
        })
        db.operations;
}

unfoldable pub release : Text → Text → ℕ → Db → Db
release operation_id owner now db = record db {
  operations =
      update_where
        (λ r.
          of_operation operation_id r && elim r.claimed_by [ none ↦ false | some o ↦ same o owner ])
        (λ (r : OperationRow). record r {
          claimed_by = none;
          claim_expires_at = none;
          updated_at = now;
        })
        db.operations;
}

-- ===== src/Persistence/DeliveryOperations/Tables.antt =====
-- The tables of delivery-operations-repository.ts, from schema.ts, and the tests on their rows.
use argos_career.Base.{
  ℕ, Bool, true, false, ◌&&◌, Text, same, Option, List, filter, sort, ltb, ◌==◌,
}

pub data ChunkStatus : Type 0 where
  chunk_pending chunk_failed chunk_sending chunk_uncertain chunk_confirmed : ChunkStatus

pub data OperationStatus : Type 0 where
  operation_pending operation_in_progress operation_failed operation_complete : OperationStatus

pub record OperationRow : Type 0 where
  pub operation_key : Text  -- `operationId` of this table
  pub channel_key : Text
  pub digest_hash : Text  -- `contentHash` of this table
  pub operation_status : OperationStatus
  pub claimed_by : Option Text
  pub claim_expires_at : Option ℕ
  pub created_at : ℕ
  pub updated_at : ℕ
  pub completed_at : Option ℕ

pub record ChunkRow : Type 0 where
  pub id : Text
  pub operation_id : Text
  pub chunk_index : ℕ
  pub content_hash : Text
  pub body : Text
  pub status : ChunkStatus
  pub attempts : ℕ
  pub telegram_message_id : Option ℕ
  pub confirmed_at : Option ℕ
  pub last_error : Option Text

pub record Db : Type 0 where
  pub operations : List OperationRow
  pub chunks : List ChunkRow

abbrev pub is_confirmed : ChunkStatus → Bool
is_confirmed chunk_confirmed = true
is_confirmed _ = false

abbrev pub is_sending_or_uncertain : ChunkStatus → Bool
is_sending_or_uncertain chunk_sending = true
is_sending_or_uncertain chunk_uncertain = true
is_sending_or_uncertain _ = false

abbrev pub is_complete : OperationStatus → Bool
is_complete operation_complete = true
is_complete _ = false

abbrev pub of_operation : Text → OperationRow → Bool
of_operation operation_id r = same r.operation_key operation_id

abbrev pub of_chunk : Text → ℕ → ChunkRow → Bool
of_chunk operation_id index r = same r.operation_id operation_id && (r.chunk_index == index)

-- The rows of an operation in the order of their indices.
abbrev pub index_before : ChunkRow → ChunkRow → Bool
index_before a b = ltb a.chunk_index b.chunk_index

unfoldable pub chunks_of : Db → Text → List ChunkRow
unfolding sort
chunks_of db operation_id =
    sort index_before (filter (λ r. same r.operation_id operation_id) db.chunks)

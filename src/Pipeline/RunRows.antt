-- ===== src/Pipeline/RunRows.antt =====
-- src/persistence/infrastructure/runs-repository.ts: the rows of the runs, with the columns of the
-- collection, of the deduplication and of the delivery, less what the runs record of the model's
-- usage. The new run id is an argument.
use argos_career.Base.{
  ℕ, Bool, true, false, ◌&&◌, Text, same, Dict, Option, none, some, List, [], ◌∷◌, ◌++◌, filter,
  leb, if◌then◌else◌,
}
use argos_career.Persistence.Table.{update_where}

pub data RunOutcome : Type 0 where
  success failed cancelled : RunOutcome

pub record RunRow : Type 0 where
  pub run_id : Text
  pub kind : Text
  pub triggered_by : Text
  pub started_at : ℕ
  pub finished_at : Option ℕ
  pub outcome : Option RunOutcome
  pub collected_count : ℕ
  pub new_count : ℕ
  pub duplicate_count : ℕ
  pub filtered_count : ℕ
  pub scored_count : ℕ
  pub delivered_count : ℕ
  pub failure_reason : Option Text
  pub failed_sources : List Text
  pub truncated_sources : List Text
  pub score_failure_counts : Dict ℕ

unfoldable pub start_run : Text → Text → ℕ → Text → List RunRow → List RunRow
start_run run_id kind started_at triggered_by rows =
    rows
    ++ (record {
      run_id = run_id;
      kind = kind;
      triggered_by = triggered_by;
      started_at = started_at;
      finished_at = none;
      outcome = none;
      collected_count = 0;
      new_count = 0;
      duplicate_count = 0;
      filtered_count = 0;
      scored_count = 0;
      delivered_count = 0;
      failure_reason = none;
      failed_sources = [];
      truncated_sources = [];
      score_failure_counts = [];
    }
        ∷ [])

-- The SET clause, with the counts that a caller writes as a function of the row.
abbrev pub closed : ℕ → RunOutcome → (RunRow → RunRow) → RunRow → RunRow
closed finished_at outcome counts r =
    counts (record r { finished_at = some finished_at; outcome = some outcome })

unfoldable pub finish : Text → ℕ → RunOutcome → (RunRow → RunRow) → List RunRow → List RunRow
finish run_id finished_at outcome counts =
    update_where (λ (r : RunRow). same r.run_id run_id) (closed finished_at outcome counts)

abbrev started_since : Option ℕ → RunRow → Bool
started_since none r = true
started_since (some since) r = leb since r.started_at

unfoldable pub find_runs_since : Text → Option ℕ → List RunRow → List RunRow
find_runs_since kind since = filter (λ (r : RunRow). same r.kind kind && started_since since r)

abbrev is_success : Option RunOutcome → Bool
is_success (some success) = true
is_success _ = false

abbrev later : Option ℕ → Option ℕ → Option ℕ
later none b = b
later (some a) none = some a
later (some a) (some b) = if leb a b then some b else some a

-- `finishedAt` of the row that `findLatestFinished` selects for the outcome `success`.
unfoldable pub latest_success : Text → List RunRow → Option ℕ
latest_success kind [] = none
latest_success kind (r ∷ rows) =
    let rest = latest_success kind rows in
    if same r.kind kind && is_success r.outcome then later r.finished_at rest else rest

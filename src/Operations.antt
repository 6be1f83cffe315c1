-- ===== src/Operations.antt =====
-- src/server/operations.ts, lines 4 to 34: the record of a management operation. Times are seconds;
-- the context and the texts of the errors are left out.
pub mod Retries
use wireguard_panel.Base.{
  ℕ, ◌+◌, ◌*◌, ◌^◌, min, Bool, true, false, ◌||◌, List, [], ◌∷◌, ◌++◌, Option, none, some,
  if◌then◌else◌,
}
use wireguard_panel.Base.Text.{Text}

pub data OperationStatus : Type 0 where
  creating active partial needs_reconciliation failed completed pending_cleanup : OperationStatus

pub record Operation : Type 0 where
  pub status : OperationStatus
  pub steps : List Text
  pub has_error : Bool
  pub retry_count : ℕ
  pub next_retry_at : Option ℕ
  pub finished_at : Option ℕ

unfoldable pub start_operation : Operation
start_operation = record {
  status = creating;
  steps = [];
  has_error = false;
  retry_count = 0;
  next_retry_at = none;
  finished_at = none;
}

-- `CASE WHEN status='creating' THEN 'active' ELSE status END`.
abbrev pub activated : OperationStatus → OperationStatus
activated creating = active
activated status = status

-- `operationStep` with the status `succeeded`.
unfoldable pub operation_step : Text → Operation → Operation
operation_step step o = record o { steps = o.steps ++ step ∷ []; status = activated o.status }

-- `$2 IN ('completed','failed')`.
abbrev pub is_final : OperationStatus → Bool
is_final completed = true
is_final failed = true
is_final _ = false

unfoldable pub finish_operation : ℕ → OperationStatus → Operation → Operation
finish_operation now status o = record o {
  status = status;
  has_error = false;
  finished_at = if is_final status then some now else o.finished_at;
}

abbrev pub is_retried : OperationStatus → Bool
is_retried needs_reconciliation = true
is_retried pending_cleanup = true
is_retried _ = false

abbrev pub is_failed : OperationStatus → Bool
is_failed failed = true
is_failed _ = false

-- `LEAST(3600, power(2, LEAST(retry_count, 11)) * 15)`.
unfoldable pub retry_delay : ℕ → ℕ
retry_delay retry_count = min 3600 (2 ^ min retry_count 11 * 15)

unfoldable pub fail_operation : ℕ → OperationStatus → Operation → Operation
fail_operation now status o = record o {
  status = status;
  has_error = true;
  retry_count = o.retry_count + 1;
  next_retry_at = if is_retried status then some (now + retry_delay o.retry_count) else none;
  finished_at = if is_failed status then some now else o.finished_at;
}

-- `finishReconciledFailure` of src/server/operation-reconciler.ts.
unfoldable pub finish_reconciled_failure : ℕ → Operation → Operation
finish_reconciled_failure now o = record o {
  status = failed;
  next_retry_at = none;
  finished_at = some now;
}

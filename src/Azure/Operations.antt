-- ===== src/Azure/Operations.antt =====
-- The states of the operations that the Azure Marketplace lists (ci/glci/az.py).
use gardenlinux.Prelude.{String, Bool, true, false, List, [], ◌∷◌, ◌==◌, if◌then◌else◌, string_eq}
use gardenlinux.Prelude.Result.{Result, ok, err, value_error, runtime_error, ◌>>=◌}

-- `AzmpOperationState`
pub data OperationState : Type 0 where
  not_started running completed succeeded failed : OperationState

-- `AzmpTransportDest`
pub data TransportDest : Type 0 where
  staging production : TransportDest

-- `AzmpOperationState(text)`
unfoldable pub operation_state : String → Result OperationState
operation_state text =
    if text == "notStarted"
    then ok not_started
    else if text == "running"
    then ok running
    else if text == "completed"
    then ok completed
    else if text == "succeeded"
    then ok succeeded
    else if text == "failed"
    then ok failed
    else err value_error

-- `AzmpTransportDest(text)`
unfoldable pub transport_dest : String → Result TransportDest
transport_dest text =
    if text == "staging"
    then ok staging
    else if text == "production"
    then ok production
    else err value_error

abbrev pub dest_beq : TransportDest → TransportDest → Bool
dest_beq staging staging = true
dest_beq production production = true
dest_beq _ _ = false

abbrev pub is_running : OperationState → Bool
is_running running = true
is_running _ = false

-- An operation as the marketplace lists it.
pub record Submission : Type 0 where
  pub id : String
  pub slot : String
  pub submission_state : String

-- The test of the loop: the state is read only where the destination is the wanted one.
unfoldable pub is_ongoing : TransportDest → Submission → Result Bool
unfolding operation_state transport_dest
is_ongoing dest operation = do
  slot ← transport_dest operation.slot
  (if dest_beq slot dest
      then (do state ← operation_state operation.submission_state; ok (is_running state))
      else ok false)

-- The loop of `fetch_ongoing_operation_id`.
unfoldable pub ongoing_id : TransportDest → List Submission → Result String
unfolding is_ongoing
ongoing_id dest [] = err runtime_error
ongoing_id dest (operation ∷ operations) =
    let rest = ongoing_id dest operations in
    (do ongoing ← is_ongoing dest operation; (if ongoing then ok operation.id else rest))

-- ===== src/Engine/Proposal/Control.antt =====
-- crates/shard-stream-engine/src/coordinator/proposal.rs: who wins a queued commit, its caller that
-- cancels or the coordinator that begins.
use shard_stream.Prelude.{
  Bool, true, false, Option, none, some, if◌then◌else◌, ◌≡◌, ◌≢◌, ◌⊎◌, arith,
}
use shard_stream.Prelude.Results.{Result, ok, err}
use shard_stream.Engine.Model.{EngineError, fenced, corrupt_state}

pub data ControlState : Type 0 where
  control_pending control_cancelled control_committing : ControlState

unfoldable pub cancel : ControlState → Bool × ControlState
cancel control_pending = (true, control_cancelled)
cancel control_cancelled = (true, control_cancelled)
cancel control_committing = (false, control_committing)

unfoldable pub begin_commit : ControlState → Result EngineError (Unit {0}) × ControlState
begin_commit control_pending = (ok tt, control_committing)
begin_commit control_cancelled = (err fenced, control_cancelled)
begin_commit control_committing = (err fenced, control_committing)

pub data CommitOutcome (A : Type 0) : Type 0 where
  settled : A → CommitOutcome A
  unallocated : EngineError → CommitOutcome A
  unknown : EngineError → CommitOutcome A

-- What the coordinator sent back.
pub data Returned (A : Type 0) : Type 0 where
  returned_ok : A → Returned A
  returned_error : EngineError → Returned A

-- What a receive yields, before its deadline and after it.
pub data Received (A : Type 0) : Type 0 where
  received : Returned A → Received A
  disconnected : Received A
  timed_out : Received A

pub returned_commit : {A : Type 0} → Returned A → CommitOutcome A
returned_commit (returned_ok a) = settled a
returned_commit (returned_error e) = unallocated e

pub missing_commit : {A : Type 0} → ControlState → CommitOutcome A × ControlState
unfolding cancel
missing_commit control =
    let (won, after) = cancel control in
    (if won then unallocated corrupt_state else unknown corrupt_state, after)

-- The wait without a deadline for a commit that owns the arbitration; `late` is nothing once the
-- sender is gone.
pub await_late : {A : Type 0} → Option (Returned A) → ControlState → CommitOutcome A × ControlState
unfolding returned_commit missing_commit
await_late (some result) control = (returned_commit result, control)
await_late none control = missing_commit control

-- `late` is what a second receive would yield, and `control` the state when the first one returns.
unfoldable pub await_commit :
    {A : Type 0} → Received A → Option (Returned A) → ControlState → CommitOutcome A × ControlState
unfolding await_late
await_commit (received result) late control = (returned_commit result, control)
await_commit disconnected late control = missing_commit control
await_commit timed_out late control =
    let (won, after) = cancel control in
    if won then (unallocated fenced, after) else await_late late after

-- An append is called unallocated only when the coordinator answered with that error, or when its
-- commit is cancelled before any coordinator began it, and so none can begin any more.
pub await_commit-unallocated :
    {A : Type 0} (first : Received A) (late : Option (Returned A)) (control : ControlState)
    (e : EngineError)
    → (await_commit first late control).0 ≡ unallocated e
    → ((control ≢ control_committing)
        × ((await_commit first late control).1 ≡ control_cancelled)
        × ((begin_commit (await_commit first late control).1).0 ≡ err fenced))
      ⊎ ((first ≡ received (returned_error e)) ⊎ (late ≡ some (returned_error e)))
unfolding await_commit begin_commit cancel
await_commit-unallocated first late control e h = ground arith

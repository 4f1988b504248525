-- ===== src/Engine/Tests/Followers.antt =====
-- Theorems on a follower's guarded reservation at concrete inputs.
use shard_stream.Prelude.{◌≡◌, arith, none}
use shard_stream.Prelude.Results.{ok}
use shard_stream.Engine.Proposal.Control.{control_pending}
use shard_stream.Engine.Commit.{commit}
use shard_stream.Engine.Commit.Exact.{reserved_as}
use shard_stream.Engine.Replica.Guarded.{
  PreparedReplica, prepare_replica, replica_new, commit_guarded,
}
use shard_stream.Engine.Replica.Leader.{batch_of, follower_form, commit_guarded-leader}
use shard_stream.Engine.Tests.{add_ids, fresh, intent, prepared, prepare_run, fresh-IsCurrent}

abbrev accepted : PreparedReplica
accepted = record { reservation = prepared.proposal.reservation; prepared = follower_form prepared }

commit_guarded-leader_example :
    (q : PreparedReplica) × (prepare_replica add_ids fresh (batch_of prepared) ≡ ok (replica_new q))
    × (let leader = (commit add_ids fresh prepared none).0 in
        let follower = (commit_guarded add_ids fresh q control_pending).0 in
        (leader.0 ≡ ok (reserved_as prepared))
        × (follower.0 ≡ leader.0)
        × (follower.1.sequencer ≡ leader.1.sequencer))
commit_guarded-leader_example =
    commit_guarded-leader add_ids fresh intent prepared fresh-IsCurrent.valid (omega arith)
      prepare_run

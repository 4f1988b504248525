-- ===== src/Engine/Tests/Parts.antt =====
-- Theorems on waiters, lineage sources, producers and commit controls at concrete inputs.
use shard_stream.Prelude.{ℕ, ◌≡◌, ◌≢◌, ◌⊎◌, ◌↔◌, refl, Option, some, none, [], ◌∷◌, arith}
use shard_stream.Prelude.Results.{ok, err}
use shard_stream.Engine.Model.{fenced, ProducerIdentity}
use shard_stream.Engine.Lineage.{capture, begin_exchange, finish_exchange, deny_if}
use shard_stream.Engine.Lineage.Revision.{act, begins, finishes, denies, act_all, begin-lapses}
use shard_stream.Engine.Partition.{
  PartitionState, empty, advance_cached_watermarks, wait_until_visible, ordered,
}
use shard_stream.Engine.Partition.Waiting.{
  AreWaiting, asked, advance_cached_watermarks-AreWaiting, wait_until_visible-AreWaiting,
  advance_cached_watermarks-asked,
}
use shard_stream.Engine.Producer.{check_producer, advance_producer}
use shard_stream.Engine.Producer.Accepts.{Expects, check_producer_iff}
use shard_stream.Engine.Proposal.Control.{
  control_pending, control_cancelled, control_committing, await_commit, begin_commit, unallocated,
  timed_out, Returned, returned_error, received, Received, await_commit-unallocated,
}
use shard_stream.Engine.Tests.{fresh, writer, one_done}

abbrev with_waiter : PartitionState
with_waiter = record fresh {
  last_stable_offset = 4;
  ordered_waiters = (3, 8 ∷ 9 ∷ []) ∷ (7, 6 ∷ []) ∷ [];
}

advance_cached_watermarks-AreWaiting_example : AreWaiting (advance_cached_watermarks with_waiter)
advance_cached_watermarks-AreWaiting_example = advance_cached_watermarks-AreWaiting with_waiter

advance_cached_watermarks-asked_example :
    asked 9 (advance_cached_watermarks with_waiter) ≡ asked 9 with_waiter
advance_cached_watermarks-asked_example = advance_cached_watermarks-asked with_waiter 9

wait_until_visible-AreWaiting_example :
    AreWaiting (wait_until_visible (advance_cached_watermarks with_waiter) 5 ordered 4)
wait_until_visible-AreWaiting_example =
    wait_until_visible-AreWaiting (advance_cached_watermarks with_waiter) 5 ordered 4
      (advance_cached_watermarks-AreWaiting with_waiter)

-- A settled source of revision 3.
abbrev revision_3 : ℕ
revision_3 = 12884901888

captured : capture revision_3 ≡ some revision_3
unfolding capture
captured = refl

-- The word while a mutation of revision 3 is active.
abbrev active_3 : ℕ
active_3 = 12884901889

finished : act_all active_3 (finishes active_3 ∷ []) ≡ revision_3
unfolding act_all act finish_exchange
finished = refl

act_nothing : act_all revision_3 [] ≡ revision_3
unfolding act_all
act_nothing = refl

-- A thread that loaded the active word fails once the other one has finished, and denies the source.
begin-lapses_example :
    let (due, word) = begin_exchange active_3 revision_3 in
    act_all
      (deny_if due (act_all word (begins revision_3 ∷ [])))
      (finishes 17179869185 ∷ denies ∷ [])
    ≢ revision_3
begin-lapses_example =
    begin-lapses revision_3 active_3 revision_3 revision_3 [] (finishes active_3 ∷ [])
      (begins revision_3 ∷ []) (finishes 17179869185 ∷ denies ∷ []) captured act_nothing finished

check_producer_iff_example :
    (check_producer one_done 1 (some writer) 2 99 ≡ ok none)
    ↔ Expects one_done writer (one_done.producers 22)
check_producer_iff_example = check_producer_iff one_done 1 2 99 writer

abbrev moved : PartitionState
moved = (advance_producer fresh writer 2).1

advance_run : advance_producer fresh writer 2 ≡ (ok tt, moved)
unfolding advance_producer empty
advance_run = refl

abbrev next_append : ProducerIdentity
next_append = record { producer_id = 22; epoch = 1; first_sequence = 2; event_id = none }

next_expected : Expects moved next_append (moved.producers 22)
unfolding advance_producer empty
next_expected = (omega arith, refl, λ e. (refl, refl))

abbrev no_answer : Received ℕ
no_answer = timed_out

abbrev no_late_answer : Option (Returned ℕ)
no_late_answer = none

abbrev refusal : Received ℕ
refusal = received (returned_error fenced)

abbrev late_refusal : Option (Returned ℕ)
late_refusal = some (returned_error fenced)

cancelled_run : (await_commit no_answer no_late_answer control_pending).0 ≡ unallocated fenced
unfolding await_commit
cancelled_run = refl

await_commit-unallocated_example :
    ((control_pending ≢ control_committing)
      × ((await_commit no_answer no_late_answer control_pending).1 ≡ control_cancelled)
      × ((begin_commit (await_commit no_answer no_late_answer control_pending).1).0 ≡ err fenced))
    ⊎ ((no_answer ≡ refusal) ⊎ (no_late_answer ≡ late_refusal))
await_commit-unallocated_example =
    await_commit-unallocated no_answer no_late_answer control_pending fenced cancelled_run

-- ===== src/Core/Sequencer/History.antt =====
-- Any history of calls of one sequencer grants consecutive coordinates
-- (crates/shard-stream-core/src/sequencer.rs).
use shard_stream.Prelude.{ℕ, ◌+◌, ◌≤◌, ◌<◌, ◌≡◌, refl, List, [], ◌∷◌, ◌++◌, none, arith}
use shard_stream.Prelude.Results.{Result, ok, err, panic}
use shard_stream.Core.Model.{Reservation}
use shard_stream.Core.Sequencer.{
  SequencerError, TopicSequencer, ReservationProposal, propose_reservation, commit_reservation,
  commit_proposed, reserve, reconfigure, observe_leader_epoch,
}
use shard_stream.Core.Sequencer.Reserve.{commit_reservation-Reserves}
use shard_stream.Core.Sequencer.Propose.{
  commit_reservation_refused, commit_reservation_panics, propose_records,
}

-- The calls that change a sequencer; a commit brings any proposal.
pub data Call : Type 0 where
  reserves : ℕ → Call
  commits : ReservationProposal → Call
  reconfigures : (ring : ℕ) (lanes : List ℕ) → Call
  observes : ℕ → Call

-- Record counts are NonZeroU32.
abbrev pub IsCall : Call → Type 0
IsCall (reserves count) = 0 < count
IsCall (commits p) = 0 < p.reservation.record_count
IsCall (reconfigures ring lanes) = Unit {0}
IsCall (observes epoch) = Unit {0}

abbrev pub AreCalls : List Call → Type 0
AreCalls [] = Unit {0}
AreCalls (c ∷ cs) = IsCall c × AreCalls cs

abbrev granted : Result SequencerError Reservation → List Reservation
granted (ok r) = r ∷ []
granted (err e) = []
granted panic = []

pub step : TopicSequencer → Call → List Reservation × TopicSequencer
step s (reserves count) = let (r, t) = reserve s count in (granted r, t)
step s (commits p) = let (r, t) = commit_reservation s p in (granted r, t)
step s (reconfigures ring lanes) = ([], (reconfigure s ring lanes).1)
step s (observes epoch) = ([], (observe_leader_epoch s epoch).1)

-- The reservations that a history grants, in order, and the sequencer that it leaves.
pub run : TopicSequencer → List Call → List Reservation × TopicSequencer
run s [] = ([], s)
run s (c ∷ cs) = let (rs, t) = step s c in let (more, u) = run t cs in (rs ++ more, u)

-- From `s` to `t` the reservations follow one another: offsets, batches, placement sequences.
abbrev pub Consecutive : TopicSequencer → ℕ → ℕ → ℕ → List Reservation → Type 0
Consecutive t offset batch sequence [] =
    (offset ≡ t.next_offset) × (batch ≡ t.next_batch_id) × (sequence ≡ t.next_placement_sequence)
Consecutive t offset batch sequence (r ∷ rs) =
    (r.first_offset ≡ offset)
    × (r.first_offset ≤ r.last_offset)
    × (r.last_offset + 1 ≡ offset + r.record_count)
    × (r.batch_id ≡ batch)
    × (r.placement.sequence ≡ sequence)
    × Consecutive t (r.last_offset + 1) (batch + 1) (sequence + 1) rs

-- One call: at most one reservation, and epochs that do not fall.
record Steps (s t : TopicSequencer) (rs : List Reservation) : Type 0 where
  consecutive : Consecutive t s.next_offset s.next_batch_id s.next_placement_sequence rs
  leader : s.leader_epoch ≤ t.leader_epoch
  ring : s.ring_epoch ≤ t.ring_epoch

same_Steps : (s t : TopicSequencer) → t ≡ s → Steps s t []
same_Steps s t e = ground (arith, e)

stepped-Steps :
    (s : TopicSequencer) (p : ReservationProposal)
    (x : Result SequencerError Reservation × TopicSequencer)
    → 0 < p.reservation.record_count
    → commit_reservation s p ≡ x
    → Steps s x.1 (granted x.0)
stepped-Steps s p (ok r, t) positive h =
    ground (arith, commit_reservation-Reserves s t p r positive h)
stepped-Steps s p (err e, t) positive h = same_Steps s t (commit_reservation_refused s t p e h).1
stepped-Steps s p (panic, t) positive h = same_Steps s t (commit_reservation_panics s t p h)

proposed-Steps :
    (s : TopicSequencer) (count : ℕ) (c : Result SequencerError ReservationProposal)
    → 0 < count
    → propose_reservation s count none ≡ c
    → let (r, t) = commit_proposed s c in Steps s t (granted r)
proposed-Steps s count (ok p) positive h =
    stepped-Steps s p _ (omega (arith, propose_records s count none p h)) refl
proposed-Steps s count (err e) positive h = same_Steps s s refl
proposed-Steps s count panic positive h = same_Steps s s refl

step-Steps : (s : TopicSequencer) (c : Call) → IsCall c → Steps s (step s c).1 (step s c).0
unfolding step reserve reconfigure observe_leader_epoch
step-Steps s (reserves count) positive = proposed-Steps s count _ positive refl
step-Steps s (commits p) positive = stepped-Steps s p _ positive refl
step-Steps s (reconfigures ring lanes) u = ground arith
step-Steps s (observes epoch) u = ground arith

Consecutive-append :
    (s t : TopicSequencer) (offset batch sequence : ℕ) (rs more : List Reservation)
    → Consecutive s offset batch sequence rs
    → Consecutive t s.next_offset s.next_batch_id s.next_placement_sequence more
    → Consecutive t offset batch sequence (rs ++ more)
Consecutive-append s t offset batch sequence [] more c d = rw (c.0, c.1, c.2) d
Consecutive-append s t offset batch sequence (r ∷ rs) more c d = (
  c.0,
  c.1,
  c.2,
  c.3,
  c.4,
  Consecutive-append s t (r.last_offset + 1) (batch + 1) (sequence + 1) rs more c.5 d,
)

-- Whatever the calls and their order, what is granted has consecutive offsets, batch identifiers and
-- placement sequences, from those of the first sequencer up to those of the last.
pub run-Consecutive :
    (s : TopicSequencer) (cs : List Call)
    → AreCalls cs
    → Consecutive (run s cs).1 s.next_offset s.next_batch_id s.next_placement_sequence (run s cs).0
unfolding run
run-Consecutive s [] u = (refl, refl, refl)
run-Consecutive s (c ∷ cs) u =
    Consecutive-append (step s c).1 (run (step s c).1 cs).1 _ _ _ (step s c).0 _
      (step-Steps s c u.0).consecutive (run-Consecutive (step s c).1 cs u.1)

-- No history lowers an epoch.
pub run_epochs :
    (s : TopicSequencer) (cs : List Call)
    → AreCalls cs
    → let t = (run s cs).1 in (s.leader_epoch ≤ t.leader_epoch) × (s.ring_epoch ≤ t.ring_epoch)
unfolding run
run_epochs s [] u = omega arith
run_epochs s (c ∷ cs) u =
    let h = step-Steps s c u.0 in omega (arith, h.leader, h.ring, run_epochs (step s c).1 cs u.1)

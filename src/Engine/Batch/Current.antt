-- ===== src/Engine/Batch/Current.antt =====
-- The handlers that change a batch keep the cached watermarks up to date (coordinator.rs).
use shard_stream.Prelude.{
  ℕ, zero, suc, ◌-◌, ◌≤◌, ◌≡◌, ◌≢◌, inl, inr, refl, ap, sym, ◌∙◌, subst, Bool, true, false, ◌||◌,
  not, Option, none, some, List, [], ◌∷◌, ◌++◌, if◌then◌else◌, get_elem?, modify, leb, arith,
  Bool-cases,
}
use shard_stream.Core.Model.{Reservation, reservation_eq}
use shard_stream.SegmentMap.Sequence
use shard_stream.SegmentMap.Dense
use shard_stream.SegmentMap.Dense.{DenseOrderedMap, PushResult, pushed, refused, values}
use shard_stream.SegmentMap.Dense.Inv.{IsValid, push-IsValid, push_refines}
use shard_stream.SegmentMap.Dense.Lookup.{get_refines}
use shard_stream.SegmentMap.Dense.Update.{update-IsValid, update_refines}
use shard_stream.Engine.Model.{BatchRuntime, BatchStatus, is_pending}
use shard_stream.Engine.Partition.{
  PartitionState, capacity, stops_contiguous, stops_stable, advance_cached_watermarks,
}
use shard_stream.Engine.Partition.Frontier.{frontier, Frees}
use shard_stream.Engine.Partition.Watermarks.{
  IsCurrent, stops_policy, advance_cached_watermarks-IsCurrent,
}
use shard_stream.Engine.Batch.{marked, write, mark_found, mark_batch, append_batch_runtime}

Frees-same :
    (stops : BatchRuntime → Bool) (items extra : List BatchRuntime)
    → Frees stops items (items ++ extra)
Frees-same stops [] extra = tt
Frees-same stops (b ∷ bs) extra = (refl, (λ h. h), Frees-same stops bs extra)

Frees-refl : (stops : BatchRuntime → Bool) (items : List BatchRuntime) → Frees stops items items
Frees-refl stops [] = tt
Frees-refl stops (b ∷ bs) = (refl, (λ h. h), Frees-refl stops bs)

-- `f` keeps the reservation of `b`, and does not stop a watermark that passed it.
abbrev KeepsFree : (BatchRuntime → Bool) → (BatchRuntime → BatchRuntime) → BatchRuntime → Type 0
KeepsFree stops f b = ((f b).reservation ≡ b.reservation) × (stops b ≡ false → stops (f b) ≡ false)

pub Frees-modify :
    (stops : BatchRuntime → Bool) (f : BatchRuntime → BatchRuntime) (items : List BatchRuntime)
    (i : ℕ)
    → ((b : BatchRuntime) → get_elem? items i ≡ some b → KeepsFree stops f b)
    → Frees stops items (modify f items i)
Frees-modify stops f [] i k = tt
Frees-modify stops f (b ∷ bs) zero k = ((k b refl).0, (k b refl).1, Frees-refl stops bs)
Frees-modify stops f (b ∷ bs) (suc i) k = (refl, (λ h. h), Frees-modify stops f bs i k)

-- What a write must do at the batch under `key`.
abbrev pub FreesAt : PartitionState → ℕ → (BatchRuntime → BatchRuntime) → Type 0
FreesAt s key f =
    (b : BatchRuntime)
    → Dense.get capacity s.batches key ≡ some b
    → KeepsFree stops_contiguous f b × KeepsFree stops_stable f b × KeepsFree (stops_policy s) f b

pub write_lem :
    (s : PartitionState) (key : ℕ) (f : BatchRuntime → BatchRuntime)
    → IsValid capacity s.batches
    → let t = write s key f in
      (t.batches.first_key ≡ s.batches.first_key)
      × (values t.batches ≡ (
          if leb s.batches.first_key key
          then modify f (values s.batches) (key - s.batches.first_key)
          else values s.batches))
unfolding Sequence.update
write_lem s key f v =
    let e = update_refines f capacity s.batches key (omega arith) v in
    elim (Bool-cases (leb s.batches.first_key key)) [
      | inl from ↦
          rw from
            (ground (arith, from, ap (λ q. q.first) e), ground (arith, from, ap (λ q. q.items) e))
      | inr before ↦
          rw before (
            ground (arith, before, ap (λ q. q.first) e),
            ground (arith, before, ap (λ q. q.items) e),
          )
    ]

pub get-from :
    (s : PartitionState) (key : ℕ) (b : BatchRuntime)
    → IsValid capacity s.batches
    → s.batches.first_key ≤ key
    → get_elem? (values s.batches) (key - s.batches.first_key) ≡ some b
    → Dense.get capacity s.batches key ≡ some b
unfolding Sequence.get
get-from s key b v from e = ground (arith, get_refines capacity (omega arith) s.batches key v, e)

write-Frees :
    (stops : BatchRuntime → Bool) (s : PartitionState) (key : ℕ) (f : BatchRuntime → BatchRuntime)
    → IsValid capacity s.batches
    → ((b : BatchRuntime) → Dense.get capacity s.batches key ≡ some b → KeepsFree stops f b)
    → Frees stops (values s.batches) (values (write s key f).batches)
write-Frees stops s key f v k =
    rw (write_lem s key f v).1 (elim (Bool-cases (leb s.batches.first_key key)) [
      | inl from ↦ rw from (
          Frees-modify stops f (values s.batches) _
            (λ b e. k b (get-from s key b v (ground (arith, from)) e)))
      | inr before ↦ rw before (Frees-refl stops (values s.batches))
    ])

-- A write that stops no watermark, followed by an advance.
pub write-IsCurrent :
    (s : PartitionState) (key : ℕ) (f : BatchRuntime → BatchRuntime)
    → IsCurrent s
    → FreesAt s key f
    → IsCurrent (advance_cached_watermarks (write s key f))
write-IsCurrent s key f c k =
    let first = (write_lem s key f c.valid).0 in
    advance_cached_watermarks-IsCurrent (write s key f) (values s.batches)
      (update-IsValid f capacity s.batches key c.valid)
      (record {
        contiguous =
            c.cached.contiguous
            ∙ ap (λ n. frontier stops_contiguous n s.log_start (values s.batches)) (sym first);
        stable =
            c.cached.stable
            ∙ ap (λ n. frontier stops_stable n s.log_start (values s.batches)) (sym first);
        replicated =
            c.cached.replicated
            ∙ ap (λ n. frontier (stops_policy s) n s.log_start (values s.batches)) (sym first);
      })
      (record {
        contiguous = write-Frees stops_contiguous s key f c.valid (λ b e. (k b e).0);
        stable = write-Frees stops_stable s key f c.valid (λ b e. (k b e).1);
        replicated = write-Frees (stops_policy s) s key f c.valid (λ b e. (k b e).2);
      })

pub push_lem :
    (m : DenseOrderedMap BatchRuntime) (b : BatchRuntime) (r : PushResult BatchRuntime)
    (n : DenseOrderedMap BatchRuntime)
    → Dense.push capacity m b.reservation.batch_id b ≡ (r, n)
    → (r ≡ pushed
        → IsValid capacity m
        → (n.first_key ≡ m.first_key) × (values n ≡ values m ++ b ∷ []))
      × (r ≢ pushed → n ≡ m)
unfolding Dense.push Sequence.push
push_lem m b r n e = (
  (λ done v.
      let w = sym (push_refines capacity (omega arith) m b.reservation.batch_id b v) in
      ground (arith, done, e, w)),
  (λ refused. ground (arith, refused, e)),
)

pushed-IsCurrent :
    (s : PartitionState) (b : BatchRuntime) (n : DenseOrderedMap BatchRuntime)
    → Dense.push capacity s.batches b.reservation.batch_id b ≡ (pushed, n)
    → IsCurrent s
    → IsCurrent (advance_cached_watermarks (record s { batches = n }))
pushed-IsCurrent s b n e c =
    let (first, items) = (push_lem s.batches b pushed n e).0 refl c.valid in
    advance_cached_watermarks-IsCurrent (record s { batches = n }) (values s.batches)
      (subst (λ p. IsValid capacity p.1) e
        (push-IsValid capacity (omega arith) s.batches b.reservation.batch_id b c.valid))
      (record {
        contiguous =
            c.cached.contiguous
            ∙ ap (λ k. frontier stops_contiguous k s.log_start (values s.batches)) (sym first);
        stable =
            c.cached.stable
            ∙ ap (λ k. frontier stops_stable k s.log_start (values s.batches)) (sym first);
        replicated =
            c.cached.replicated
            ∙ ap (λ k. frontier (stops_policy s) k s.log_start (values s.batches)) (sym first);
      })
      (record {
        contiguous = rw items (Frees-same stops_contiguous (values s.batches) (b ∷ []));
        stable = rw items (Frees-same stops_stable (values s.batches) (b ∷ []));
        replicated = rw items (Frees-same (stops_policy s) (values s.batches) (b ∷ []));
      })

appended-IsCurrent :
    (s : PartitionState) (b : BatchRuntime) (r : PushResult BatchRuntime)
    (n : DenseOrderedMap BatchRuntime)
    → Dense.push capacity s.batches b.reservation.batch_id b ≡ (r, n)
    → IsCurrent s
    → IsCurrent (append_batch_runtime s b).1
unfolding append_batch_runtime
appended-IsCurrent s b pushed n e c =
    rw (e, append_batch_runtime)
      (pushed-IsCurrent s b (Dense.push capacity s.batches b.reservation.batch_id b).1
        (ap (λ p. (p.0, (Dense.push capacity s.batches b.reservation.batch_id b).1)) e) c)
appended-IsCurrent s b (refused x) n e c =
    rw (e, append_batch_runtime)
      (subst (λ m. IsCurrent (record s { batches = m }))
        (sym ((push_lem s.batches b (refused x) n e).1 (λ same. ground arith))
          ∙ ap (λ p. p.1) (sym e))
        c)

-- A batch that enters, in any status, leaves the watermarks up to date.
pub append_batch_runtime-IsCurrent :
    (s : PartitionState) (b : BatchRuntime) → IsCurrent s → IsCurrent (append_batch_runtime s b).1
append_batch_runtime-IsCurrent s b c = appended-IsCurrent s b _ _ refl c

-- A batch that waits for its result holds every watermark back, so its mark frees them.
marked-FreesAt :
    (s : PartitionState) (key : ℕ) (status : BatchStatus) (durable : ℕ) (b : BatchRuntime)
    → Dense.get capacity s.batches key ≡ some b
    → is_pending b.status ≡ true
    → FreesAt s key (marked status durable)
unfolding marked
marked-FreesAt s key status durable b e p c g = ground (arith, e, p, g)

mark_found-IsCurrent :
    (s : PartitionState) (r : Reservation) (status : BatchStatus) (durable : ℕ)
    (found : Option BatchRuntime)
    → Dense.get capacity s.batches r.batch_id ≡ found
    → IsCurrent s
    → IsCurrent (mark_found s r status durable found).1
unfolding mark_found
mark_found-IsCurrent s r status durable none e c = c
mark_found-IsCurrent s r status durable (some b) e c =
    elim (Bool-cases (not (reservation_eq b.reservation r) || not (is_pending b.status))) [
      | inl bad ↦ rw bad c
      | inr good ↦ rw good (
          write-IsCurrent s r.batch_id (marked status durable) c
            (marked-FreesAt s r.batch_id status durable b e (ground (arith, good))))
    ]

-- The mark of a batch leaves the watermarks up to date.
pub mark_batch-IsCurrent :
    (s : PartitionState) (r : Reservation) (status : BatchStatus) (durable : ℕ)
    → IsCurrent s
    → IsCurrent (mark_batch s r status durable).1
unfolding mark_batch
mark_batch-IsCurrent s r status durable c = mark_found-IsCurrent s r status durable _ refl c

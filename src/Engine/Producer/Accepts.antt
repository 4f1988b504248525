-- ===== src/Engine/Producer/Accepts.antt =====
-- Which appends of a producer are new (coordinator.rs).
use shard_stream.Prelude.{
  ℕ, ◌+◌, ◌==◌, ◌≤◌, ◌<◌, ◌≡◌, ◌↔◌, inl, inr, refl, ap, sym, ◌∙◌, subst, false, Option, none, some,
  ltb, arith, ==_refl, u64_mod, Bool-cases,
}
use shard_stream.Prelude.Maps.{insert}
use shard_stream.Prelude.Results.{ok}
use shard_stream.Engine.Model.{ProducerIdentity, ProducerCursor, DedupRecord, dedup_key}
use shard_stream.Engine.Partition.{PartitionState}
use shard_stream.Engine.Producer.{
  check_producer, check_cursor, check_current, check_sequence, advance_producer, advance_cursor,
}

-- The sequence that a new append must start with, and what else it needs.
abbrev pub Expects : PartitionState → ProducerIdentity → Option ProducerCursor → Type 0
Expects s p none = p.first_sequence ≡ 0
Expects s p (some cursor) =
    (cursor.epoch ≤ p.epoch)
    × (p.first_sequence ≡ cursor.next_sequence)
    × (cursor.epoch ≡ p.epoch → (s.dedup (dedup_key p) ≡ none) × (cursor.failed ≡ false))

check_current_iff :
    (request count digest : ℕ) (p : ProducerIdentity) (cursor : ProducerCursor)
    (found : Option DedupRecord)
    → (check_current request p cursor count digest found ≡ ok none)
      ↔ ((p.first_sequence ≡ cursor.next_sequence) × (found ≡ none) × (cursor.failed ≡ false))
unfolding check_current check_sequence
check_current_iff request count digest p cursor none = ground arith
check_current_iff request count digest p cursor (some r) = ground arith

check_cursor_iff :
    (s : PartitionState) (request count digest : ℕ) (p : ProducerIdentity)
    (cursor : Option ProducerCursor)
    → (check_cursor s request p count digest cursor ≡ ok none) ↔ Expects s p cursor
unfolding check_cursor check_sequence
check_cursor_iff s request count digest p none = ground arith
check_cursor_iff s request count digest p (some cursor) =
    ground (arith, check_current_iff request count digest p cursor (s.dedup (dedup_key p)))

-- An append is new exactly when it starts at the sequence that its producer must use next: 0 from an
-- unknown producer, and in the producer's own epoch only when no such append was recorded and none
-- has failed.
pub check_producer_iff :
    (s : PartitionState) (request count digest : ℕ) (p : ProducerIdentity)
    → (check_producer s request (some p) count digest ≡ ok none)
      ↔ Expects s p (s.producers p.producer_id)
unfolding check_producer
check_producer_iff s request count digest p =
    check_cursor_iff s request count digest p (s.producers p.producer_id)

inserted :
    (s : PartitionState) (p : ProducerIdentity) (next : ℕ)
    → insert ◌==◌ s.producers p.producer_id
        (advance_cursor (s.producers p.producer_id) p next)
        p.producer_id
      ≡ some (advance_cursor (s.producers p.producer_id) p next)
inserted s p next = rw (==_refl p.producer_id, insert) refl

advanced_cursor :
    (s t : PartitionState) (p : ProducerIdentity) (count : ℕ)
    → advance_producer s p count ≡ (ok tt, t)
    → (p.first_sequence + count < u64_mod)
      × (t.producers p.producer_id
          ≡ some (advance_cursor (s.producers p.producer_id) p (p.first_sequence + count)))
      × (t.dedup ≡ s.dedup)
unfolding advance_producer
advanced_cursor s t p count h = elim (Bool-cases (ltb (p.first_sequence + count) u64_mod)) [
  | inl fits ↦
      let next = p.first_sequence + count in
      let done : (
        ok tt,
        record s {
          producers =
              insert ◌==◌ s.producers p.producer_id
                (advance_cursor (s.producers p.producer_id) p next);
        },
      )
          ≡ advance_producer s p count =
        rw (fits, advance_producer) refl in
      let e = done ∙ h in
      (
        ground (arith, fits),
        sym (ap (λ x. x.1.producers p.producer_id) e) ∙ inserted s p next,
        sym (ap (λ x. x.1.dedup) e),
      )
  | inr wraps ↦ absurd (ground (arith, wraps, ap (λ x. x.0) h))
]

advance_cursor-next :
    (c : Option ProducerCursor) (p : ProducerIdentity) (next : ℕ)
    → (advance_cursor c p next).next_sequence ≡ next
unfolding advance_cursor
advance_cursor-next none p next = refl
advance_cursor-next (some c) p next = ground arith

-- After an append has advanced its producer, the producer's next new append starts where it ended.
pub advance_producer-Expects :
    (s t : PartitionState) (p q : ProducerIdentity) (count : ℕ)
    → advance_producer s p count ≡ (ok tt, t)
    → q.producer_id ≡ p.producer_id
    → Expects t q (t.producers q.producer_id)
    → (q.first_sequence ≡ p.first_sequence + count) × (p.first_sequence + count < u64_mod)
advance_producer-Expects s t p q count h same e =
    let (fits, cursor, dedup) = advanced_cursor s t p count h in
    let e' = subst (Expects t q) (ap t.producers same ∙ cursor) e in
    (e'.1 ∙ advance_cursor-next (s.producers p.producer_id) p (p.first_sequence + count), fits)

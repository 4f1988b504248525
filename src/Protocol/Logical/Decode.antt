-- ===== src/Protocol/Logical/Decode.antt =====
-- The decoder of a cursor on any bytes, and what a valid cursor is
-- (crates/shard-stream-protocol/src/logical.rs).
use shard_stream.Prelude.{
  ℕ, zero, suc, ◌≤◌, ◌<◌, ◌≡◌, ◌⊎◌, ◌↔◌, inl, inr, refl, true, false, not, List, [], ◌∷◌, ltb, leb,
  ◌==◌, length, take, drop, checked_add, checked_sub, usize_mod, arith, ltb→le, le→ltb, leb→lt,
  lt→leb, not-true, gt→ne, Bool-cases,
}
use shard_stream.Prelude.Bytes.{Bytes, from_le, slice, bytes_eq}
use shard_stream.Prelude.Results.{
  ok, err, guard, Any, Ensures, holds, fails, Ensures-bind, Ensures-cases, ok_or-Ensures,
  guard-Ensures, if-Ensures, Ensures-weaken, Ensures-self, bind-ok, guard-eq-ok,
}
use shard_stream.Protocol.Logical.{
  ActiveActiveCursorPosition, LogicalCursorPosition, passive_position, active_position,
  LogicalTopicCursor, LogicalCursorError, Decoder, TopicHaMode, active_passive, active_active,
  validate, validate_position, unsorted, any_zero_epoch, invalid_generation,
  invalid_membership_epoch, empty_origins, too_many_origins, origins_not_canonical,
  invalid_writer_epoch, take_bytes, word, decode_mode, read_positions, read_position, decode_body,
  decode, truncated, length_overflow, invalid_magic, cursor_magic, unsupported_version,
  reserved_bits, trailing_bytes, checksum_mismatch, is_empty,
}

-- The identifiers of the origins grow.
abbrev Ascends : List ActiveActiveCursorPosition → Type 0
Ascends [] = Unit {0}
Ascends (p ∷ []) = Unit {0}
Ascends (p ∷ (q ∷ ps)) = (p.origin_id < q.origin_id) × Ascends (q ∷ ps)

abbrev AllEpochs : List ActiveActiveCursorPosition → Type 0
AllEpochs [] = Unit {0}
AllEpochs (p ∷ ps) = (0 < p.writer_epoch) × AllEpochs ps

abbrev IsPosition : LogicalCursorPosition → Type 0
IsPosition (passive_position n) = Unit {0}
IsPosition (active_position m ps) =
    (0 < m) × (0 < length ps) × (length ps ≤ 1024) × Ascends ps × AllEpochs ps

abbrev pub IsValid : LogicalTopicCursor → Type 0
IsValid c = (0 < c.data_generation) × IsPosition c.position

unsorted_iff : (ps : List ActiveActiveCursorPosition) → (unsorted ps ≡ false) ↔ Ascends ps
unfolding unsorted
unsorted_iff [] = ((λ h. tt), (λ h. refl))
unsorted_iff (p ∷ []) = ((λ h. tt), (λ h. refl))
unsorted_iff (p ∷ (q ∷ ps)) =
    let rest = unsorted_iff (q ∷ ps) in
    (
      (λ h. elim (Bool-cases (leb q.origin_id p.origin_id)) [
        | inl down ↦ absurd (ground (arith, h, down))
        | inr up ↦ (leb→lt _ _ up, rest.0 (rw up at h))
      ]),
      (λ h. rw (lt→leb q.origin_id p.origin_id h.0) (rest.1 h.1)),
    )

any_zero_epoch_iff :
    (ps : List ActiveActiveCursorPosition) → (any_zero_epoch ps ≡ false) ↔ AllEpochs ps
unfolding any_zero_epoch
any_zero_epoch_iff [] = ((λ h. tt), (λ h. refl))
any_zero_epoch_iff (p ∷ ps) =
    let rest = any_zero_epoch_iff ps in
    (
      (λ h. elim (Bool-cases (p.writer_epoch == 0)) [
        | inl zero_epoch ↦ absurd (ground (arith, h, zero_epoch))
        | inr fine ↦ (ground (arith, fine), rest.0 (rw fine at h))
      ]),
      (λ h. rw (gt→ne p.writer_epoch 0 h.0) (rest.1 h.1)),
    )

nonzero : (n : ℕ) → not (n == 0) ≡ true → 0 < n
nonzero n h = ground arith

validate_position_iff : (p : LogicalCursorPosition) → (validate_position p ≡ ok tt) ↔ IsPosition p
unfolding validate_position
validate_position_iff (passive_position n) = ((λ h. tt), (λ h. refl))
validate_position_iff (active_position m ps) = (
  (λ h.
      let (_, e1, h1) = bind-ok (guard (not (m == 0)) invalid_membership_epoch) _ h in
      let (_, e2, h2) = bind-ok (guard (not (length ps == 0)) empty_origins) _ h1 in
      let (_, e3, h3) = bind-ok (guard (not (ltb 1024 (length ps))) too_many_origins) _ h2 in
      let (_, e4, h4) = bind-ok (guard (not (unsorted ps)) origins_not_canonical) _ h3 in
      (
        nonzero m (guard-eq-ok _ invalid_membership_epoch e1),
        nonzero (length ps) (guard-eq-ok _ empty_origins e2),
        ltb→le 1024 (length ps) (not-true _ (guard-eq-ok _ too_many_origins e3)),
        (unsorted_iff ps).0 (not-true _ (guard-eq-ok _ origins_not_canonical e4)),
        (any_zero_epoch_iff ps).0 (not-true _ (guard-eq-ok _ invalid_writer_epoch h4)),
      )),
  (λ v.
      rw
        (
          gt→ne m 0 v.0,
          gt→ne (length ps) 0 v.1,
          le→ltb 1024 (length ps) v.2,
          (unsorted_iff ps).1 v.3,
          (any_zero_epoch_iff ps).1 v.4,
        )
        refl),
)

-- A cursor is valid exactly when its generation is not zero and, for several origins, the membership
-- epoch and every writer epoch are not zero, and there are 1 to 1024 origins, in growing order.
pub validate_cursor_iff : (c : LogicalTopicCursor) → (validate c ≡ ok tt) ↔ IsValid c
unfolding validate
validate_cursor_iff c =
    let place = validate_position_iff c.position in
    (
      (λ h.
          let (_, e, h1) = bind-ok (guard (not (c.data_generation == 0)) invalid_generation) _ h in
          (nonzero c.data_generation (guard-eq-ok _ invalid_generation e), place.0 h1)),
      (λ v. rw (gt→ne c.data_generation 0 v.0) (place.1 v.1)),
    )

take_bytes-Ensures : (n : ℕ) (d : Decoder) → Ensures Any (take_bytes n d)
unfolding take_bytes
take_bytes-Ensures n d =
    Ensures-bind (ok_or-Ensures (checked_add usize_mod d.cursor n) length_overflow)
      λ end _. Ensures-bind (ok_or-Ensures (slice d.bytes d.cursor end) truncated) λ x _. holds tt

word-Ensures : (n : ℕ) (d : Decoder) → Ensures Any (word n d)
unfolding word
word-Ensures n d = Ensures-bind (take_bytes-Ensures n d) λ r _. holds tt

decode_mode-Ensures : (v : ℕ) → Ensures Any (decode_mode v)
unfolding decode_mode
decode_mode-Ensures v =
    if-Ensures (v == 1) (λ _. holds tt) (λ _. if-Ensures (v == 2) (λ _. holds tt) (λ _. fails))

read_positions-Ensures : (count : ℕ) (d : Decoder) → Ensures Any (read_positions count d)
unfolding read_positions
read_positions-Ensures zero d = holds tt
read_positions-Ensures (suc count) d = Ensures-bind (word-Ensures 4 d) λ a _.
    Ensures-bind (word-Ensures 4 a.1) λ b _.
      Ensures-bind (word-Ensures 8 b.1)
        λ c _. Ensures-bind (read_positions-Ensures count c.1) λ r _. holds tt

read_position-Ensures : (mode : TopicHaMode) (d : Decoder) → Ensures Any (read_position mode d)
unfolding read_position
read_position-Ensures active_passive d = Ensures-bind (word-Ensures 8 d) λ r _. holds tt
read_position-Ensures active_active d = Ensures-bind (word-Ensures 8 d) λ a _.
    Ensures-bind (word-Ensures 4 a.1) λ b _.
      Ensures-bind (guard-Ensures (not (ltb 1024 b.0)) too_many_origins)
        λ _ _. Ensures-bind (read_positions-Ensures b.0 b.1) λ r _. holds tt

validate_position-Ensures : (p : LogicalCursorPosition) → Ensures Any (validate_position p)
unfolding validate_position
validate_position-Ensures (passive_position n) = holds tt
validate_position-Ensures (active_position m ps) =
    Ensures-bind (guard-Ensures (not (m == 0)) invalid_membership_epoch) λ _ _.
      Ensures-bind (guard-Ensures (not (length ps == 0)) empty_origins) λ _ _.
        Ensures-bind (guard-Ensures (not (ltb 1024 (length ps))) too_many_origins) λ _ _.
          Ensures-bind (guard-Ensures (not (unsorted ps)) origins_not_canonical)
            λ _ _. Ensures-weaken (guard-Ensures (not (any_zero_epoch ps)) invalid_writer_epoch)

validate-Ensures : (c : LogicalTopicCursor) → Ensures (λ _. validate c ≡ ok tt) (validate c)
validate-Ensures c = Ensures-self (validate c) (runs c)
  where
    runs : (d : LogicalTopicCursor) → Ensures Any (validate d)
    runs d =
        unfold validate in
        Ensures-bind (guard-Ensures (not (d.data_generation == 0)) invalid_generation)
          λ _ _. validate_position-Ensures d.position

decode_body-Ensures : (d : Decoder) → Ensures IsValid (decode_body d)
unfolding decode_body
decode_body-Ensures d = Ensures-bind (take_bytes-Ensures 8 d) λ r0 _.
    Ensures-bind (guard-Ensures (bytes_eq r0.0 cursor_magic) invalid_magic) λ _ _.
      Ensures-bind (word-Ensures 2 r0.1) λ r1 _.
        Ensures-bind (guard-Ensures (r1.0 == 1) (unsupported_version r1.0)) λ _ _.
          Ensures-bind (word-Ensures 1 r1.1) λ r2 _.
            Ensures-bind (decode_mode-Ensures r2.0) λ mode _.
              Ensures-bind (word-Ensures 1 r2.1) λ r3 _.
                Ensures-bind (guard-Ensures (r3.0 == 0) reserved_bits) λ _ _.
                  Ensures-bind (word-Ensures 16 r3.1) λ topic _.
                    Ensures-bind (word-Ensures 4 topic.1) λ partition _.
                      Ensures-bind (word-Ensures 8 partition.1) λ generation _.
                        Ensures-bind (read_position-Ensures mode generation.1) λ place _.
                          Ensures-bind (guard-Ensures (is_empty place.1) trailing_bytes) λ _ _.
                            let c : LogicalTopicCursor = record {
                              topic_partition = record {
                                topic_id = topic.0;
                                partition_id = partition.0;
                              };
                              data_generation = generation.0;
                              position = place.0;
                            } in
                            Ensures-bind (validate-Ensures c)
                              λ _ v. holds ((validate_cursor_iff c).0 v)

decode-Ensures : (crc : Bytes → ℕ) (bytes : Bytes) → Ensures IsValid (decode crc bytes)
unfolding decode
decode-Ensures crc bytes =
    Ensures-bind (guard-Ensures (not (ltb (length bytes) 52)) truncated) λ _ _.
      Ensures-bind (ok_or-Ensures (checked_sub (length bytes) 4) truncated) λ n _.
        Ensures-bind
          (guard-Ensures (crc (take n bytes) == from_le (drop n bytes)) checksum_mismatch)
          λ _ _. decode_body-Ensures _

-- On any bytes the decoder of a cursor returns an error or a valid cursor, and does not panic.
pub decode_total :
    (crc : Bytes → ℕ) (bytes : Bytes)
    → ((e : LogicalCursorError) × (decode crc bytes ≡ err e))
      ⊎ ((c : LogicalTopicCursor) × (decode crc bytes ≡ ok c) × IsValid c)
decode_total crc bytes = Ensures-cases (decode-Ensures crc bytes)

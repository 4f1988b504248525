-- ===== src/Protocol/Logical/RoundTrip.antt =====
-- A cursor is decoded to itself (crates/shard-stream-protocol/src/logical.rs).
use shard_stream.Prelude.{
  ℕ, ◌+◌, ◌-◌, ◌*◌, ◌^◌, ◌≤◌, ◌<◌, ◌≡◌, refl, ap, sym, ◌∙◌, subst, true, not, List, [], ◌∷◌, ◌++◌,
  ltb, ◌==◌, length, length-append, append_assoc, append-nil, u32_mod, u64_mod, u128_mod, usize_mod,
  arith, lt→ltb, ltb→le, le→ltb, le→leb, ==_refl, not-true, Bool-cases, inl, inr,
}
use shard_stream.Prelude.Bytes.{
  Bytes, le_bytes, from_le-le_bytes, length-le_bytes, slice_middle, take_left, drop_left,
}
use shard_stream.Prelude.Results.{Result, ok, guard, bind-ok, guard-eq-ok}
use shard_stream.Core.Model.{TopicPartition}
use shard_stream.Protocol.Logical.{
  ActiveActiveCursorPosition, LogicalCursorPosition, passive_position, active_position,
  LogicalTopicCursor, LogicalCursorError, Decoder, TopicHaMode, active_passive, active_active,
  take_bytes, word, is_empty, read_positions, read_position, decode_mode, decode_body, decode,
  encode, validate, validate_position, positions_bytes, position_bytes, head_bytes, origin_bytes,
  cursor_magic, too_many_origins, invalid_generation, invalid_membership_epoch, empty_origins,
}

-- The values fit the words of the source.
abbrev AllFit : List ActiveActiveCursorPosition → Type 0
AllFit [] = Unit {0}
AllFit (p ∷ ps) =
    ((p.origin_id < u32_mod) × (p.writer_epoch < u32_mod) × (p.next_sequence < u64_mod)) × AllFit ps

abbrev PositionFits : LogicalCursorPosition → Type 0
PositionFits (passive_position next_offset) = next_offset < u64_mod
PositionFits (active_position membership_epoch positions) =
    (membership_epoch < u64_mod) × AllFit positions

pub record IsCursor (c : LogicalTopicCursor) : Type 0 where
  pub topic : c.topic_partition.topic_id < u128_mod
  pub partition : c.topic_partition.partition_id < u32_mod
  pub generation : c.data_generation < u64_mod
  pub place : PositionFits c.position

-- A decoder that has read `before` and has `rest` in front of it.
abbrev at : Bytes → Bytes → Decoder
at before rest = record { bytes = before ++ rest; cursor = length before }

take_bytes-at :
    (before x rest : Bytes) (n : ℕ)
    → n ≡ length x
    → length before + n < usize_mod
    → take_bytes n (at before (x ++ rest)) ≡ ok (x, at (before ++ x) rest)
unfolding take_bytes
take_bytes-at before x rest n e room =
    rw
      (
        lt→ltb (length before + n) usize_mod room,
        slice_middle before x rest (length before) (length before + n) refl (omega arith),
      )
      (λ i. ok (x, record { bytes = joined i; cursor = cursors i }))
  where
    joined : before ++ (x ++ rest) ≡ (before ++ x) ++ rest
    joined = sym (append_assoc before x rest)

    cursors : length before + n ≡ length (before ++ x)
    cursors = omega (arith, length-append before x)

word-at :
    (before rest : Bytes) (n v : ℕ)
    → v < 256 ^ n
    → length before + n < usize_mod
    → word n (at before (le_bytes n v ++ rest)) ≡ ok (v, at (before ++ le_bytes n v) rest)
unfolding word
word-at before rest n v h room =
    rw
      (
        take_bytes-at before (le_bytes n v) rest n (sym (length-le_bytes n v)) room,
        from_le-le_bytes n v h,
      )
      refl

length-positions_bytes :
    (ps : List ActiveActiveCursorPosition) → length (positions_bytes ps) ≡ 16 * length ps
unfolding positions_bytes
length-positions_bytes [] = omega arith
length-positions_bytes (p ∷ ps) = omega (arith, length-positions_bytes ps)

read_positions-at :
    (ps : List ActiveActiveCursorPosition) (before rest : Bytes)
    → AllFit ps
    → length before + 16 * length ps < usize_mod
    → read_positions (length ps) (at before (positions_bytes ps ++ rest))
      ≡ ok (ps, at (before ++ positions_bytes ps) rest)
unfolding read_positions positions_bytes
read_positions-at [] before rest f room = ap (λ t. ok ([], at t rest)) (sym (append-nil before))
read_positions-at (p ∷ ps) before rest f room =
    let b1 = before ++ le_bytes 4 p.origin_id in
    let b2 = b1 ++ le_bytes 4 p.writer_epoch in
    let b3 = b2 ++ le_bytes 8 p.next_sequence in
    let tail = positions_bytes ps ++ rest in
    let n1 = length-append before (le_bytes 4 p.origin_id) in
    let n2 = length-append b1 (le_bytes 4 p.writer_epoch) in
    let n3 = length-append b2 (le_bytes 8 p.next_sequence) in
    rw
      (
        word-at before (le_bytes 4 p.writer_epoch ++ (le_bytes 8 p.next_sequence ++ tail)) 4
            p.origin_id f.0.0 (omega arith),
        word-at b1 (le_bytes 8 p.next_sequence ++ tail) 4 p.writer_epoch f.0.1 (omega arith),
        word-at b2 tail 8 p.next_sequence f.0.2 (omega arith),
        read_positions-at ps b3 rest f.1 (omega arith),
      )
      (ap (λ t. ok (p ∷ ps, at t rest))
        (append_assoc b2 (le_bytes 8 p.next_sequence) (positions_bytes ps)
          ∙ append_assoc b1 (le_bytes 4 p.writer_epoch) _
          ∙ append_assoc before (le_bytes 4 p.origin_id) _))

abbrev mode_of : LogicalCursorPosition → TopicHaMode
mode_of (passive_position next_offset) = active_passive
mode_of (active_position membership_epoch positions) = active_active

abbrev pub place_bytes : LogicalCursorPosition → Bytes
place_bytes (passive_position next_offset) = le_bytes 8 next_offset
place_bytes (active_position membership_epoch positions) =
    le_bytes 8 membership_epoch ++ (le_bytes 4 (length positions) ++ positions_bytes positions)

few_origins :
    (m : ℕ) (ps : List ActiveActiveCursorPosition)
    → validate_position (active_position m ps) ≡ ok tt
    → length ps ≤ 1024
unfolding validate_position
few_origins m ps h =
    let (_, _, h1) = bind-ok (guard (not (m == 0)) invalid_membership_epoch) _ h in
    let (_, _, h2) = bind-ok (guard (not (length ps == 0)) empty_origins) _ h1 in
    let (_, few, _) = bind-ok (guard (not (ltb 1024 (length ps))) too_many_origins) _ h2 in
    ltb→le 1024 (length ps)
      (not-true _ (guard-eq-ok (not (ltb 1024 (length ps))) too_many_origins few))

read_position-at :
    (p : LogicalCursorPosition) (before rest : Bytes)
    → PositionFits p
    → validate_position p ≡ ok tt
    → length before < u32_mod
    → read_position (mode_of p) (at before (place_bytes p ++ rest))
      ≡ ok (p, at (before ++ place_bytes p) rest)
unfolding read_position
read_position-at (passive_position n) before rest f v room =
    rw (word-at before rest 8 n f (omega arith)) refl
read_position-at (active_position m ps) before rest f v room =
    let few = few_origins m ps v in
    let b1 = before ++ le_bytes 8 m in
    let b2 = b1 ++ le_bytes 4 (length ps) in
    let n1 = length-append before (le_bytes 8 m) in
    let n2 = length-append b1 (le_bytes 4 (length ps)) in
    rw
      (
        word-at before (le_bytes 4 (length ps) ++ (positions_bytes ps ++ rest)) 8 m f.0
            (omega arith),
        word-at b1 (positions_bytes ps ++ rest) 4 (length ps) (omega arith) (omega arith),
        le→ltb 1024 (length ps) few,
        read_positions-at ps b2 rest f.1 (omega arith),
      )
      (ap (λ t. ok (active_position m ps, at t rest))
        (append_assoc b1 (le_bytes 4 (length ps)) (positions_bytes ps)
          ∙ append_assoc before (le_bytes 8 m) _))

is_empty-at : (bytes : Bytes) → is_empty (at bytes []) ≡ true
unfolding is_empty
is_empty-at bytes = ap (λ t. length bytes == length t) (append-nil bytes) ∙ ==_refl (length bytes)

position_ok : (c : LogicalTopicCursor) → validate c ≡ ok tt → validate_position c.position ≡ ok tt
unfolding validate
position_ok c v =
    let (_, _, h) = bind-ok (guard (not (c.data_generation == 0)) invalid_generation) _ v in h

module _ (tp : TopicPartition) (generation : ℕ) (p : LogicalCursorPosition) where
  abbrev built : LogicalTopicCursor
  built = record { topic_partition = tp; data_generation = generation; position = p }

  abbrev fields : Bytes
  fields =
      le_bytes 16 tp.topic_id
      ++ (le_bytes 4 tp.partition_id ++ (le_bytes 8 generation ++ (place_bytes p ++ [])))

  -- What was read before the position.
  abbrev front : ℕ → Bytes
  front m =
      cursor_magic
      ++ (le_bytes 2 1
          ++ (le_bytes 1 m
              ++ (le_bytes 1 0
                  ++ (le_bytes 16 tp.topic_id
                      ++ (le_bytes 4 tp.partition_id ++ le_bytes 8 generation)))))

  decode_body_mode :
      (m : ℕ) (t : TopicHaMode)
      → m < 256
      → decode_mode m ≡ ok t
      → IsCursor built
      → validate built ≡ ok tt
      → read_position t (at (front m) (place_bytes p ++ []))
        ≡ ok (p, at (front m ++ place_bytes p) [])
      → decode_body
          (at [] (cursor_magic ++ (le_bytes 2 1 ++ (le_bytes 1 m ++ (le_bytes 1 0 ++ fields)))))
        ≡ ok built
  unfolding decode_body
  decode_body_mode m t small mode f v place =
      let b1 = cursor_magic in
      let b2 = b1 ++ le_bytes 2 1 in
      let b3 = b2 ++ le_bytes 1 m in
      let b4 = b3 ++ le_bytes 1 0 in
      let b5 = b4 ++ le_bytes 16 tp.topic_id in
      let b6 = b5 ++ le_bytes 4 tp.partition_id in
      let t6 = le_bytes 8 generation ++ (place_bytes p ++ []) in
      let t5 = le_bytes 4 tp.partition_id ++ t6 in
      let end = is_empty-at (front m ++ place_bytes p) in
      rw
        (
          take_bytes-at [] cursor_magic (le_bytes 2 1 ++ (le_bytes 1 m ++ (le_bytes 1 0 ++ fields)))
              8 refl (omega arith),
          word-at b1 (le_bytes 1 m ++ (le_bytes 1 0 ++ fields)) 2 1 (omega arith) (omega arith),
          word-at b2 (le_bytes 1 0 ++ fields) 1 m small (omega arith),
          mode,
          word-at b3 fields 1 0 (omega arith) (omega arith),
          word-at b4 t5 16 tp.topic_id f.topic (omega arith),
          word-at b5 t6 4 tp.partition_id f.partition (omega arith),
          word-at b6 (place_bytes p ++ []) 8 generation f.generation (omega arith),
          place,
          end,
          v,
        )
        refl

decode_body-head_bytes :
    (tp : TopicPartition) (generation : ℕ) (p : LogicalCursorPosition)
    → IsCursor (built tp generation p)
    → validate (built tp generation p) ≡ ok tt
    → decode_body (at [] (head_bytes (built tp generation p) (place_bytes p ++ [])))
      ≡ ok (built tp generation p)
unfolding head_bytes decode_mode
decode_body-head_bytes tp generation (passive_position n) f v =
    decode_body_mode tp generation (passive_position n) 1 active_passive (omega arith) refl f v (
      read_position-at (passive_position n) (front tp generation (passive_position n) 1) [] f.place
        (position_ok _ v) (omega arith))
decode_body-head_bytes tp generation (active_position m ps) f v =
    decode_body_mode tp generation (active_position m ps) 2 active_active (omega arith) refl f v (
      read_position-at (active_position m ps) (front tp generation (active_position m ps) 2) []
        f.place (position_ok _ v) (omega arith))

pub position_bytes-place_bytes :
    (p : LogicalCursorPosition) (bytes : Bytes)
    → position_bytes p ≡ ok bytes
    → bytes ≡ place_bytes p
unfolding position_bytes
position_bytes-place_bytes (passive_position n) bytes h = cc
position_bytes-place_bytes (active_position m ps) bytes h =
    elim (Bool-cases (ltb (length ps) u32_mod)) [
      | inl fits ↦ sym (ok_injective (rw fits at h))
      | inr large ↦ absurd (ground (arith, rw large at h))
    ]
  where
    ok_injective : {a b : Bytes} → Path (Result LogicalCursorError Bytes) (ok a) (ok b) → a ≡ b
    ok_injective e = cc

length-place_bytes : (p : LogicalCursorPosition) → 8 ≤ length (place_bytes p)
length-place_bytes (passive_position n) = omega arith
length-place_bytes (active_position m ps) = omega arith

module _ (crc : Bytes → ℕ) (crc_word : (bytes : Bytes) → crc bytes < u32_mod) where
  decode_checked :
      (body : Bytes) (c : LogicalTopicCursor)
      → 48 ≤ length body
      → decode_body (at [] body) ≡ ok c
      → decode crc (body ++ le_bytes 4 (crc body)) ≡ ok c
  unfolding decode
  decode_checked body c n h =
      let check = le_bytes 4 (crc body) in
      let total = length-append body check in
      let end : length (body ++ check) - 4 ≡ length body = omega arith in
      rw
        (
          le→ltb (length (body ++ check)) 52 (omega arith),
          le→leb 4 (length (body ++ check)) (omega arith),
          end,
          take_left body check (length body) refl,
          drop_left body check (length body) refl,
          from_le-le_bytes 4 (crc body) (crc_word body),
          ==_refl (crc body),
        )
        h

  -- A cursor whose values fit the words of the source, and that is encoded, is decoded to itself.
  pub decode-encode :
      (c : LogicalTopicCursor) (bytes : Bytes)
      → IsCursor c
      → encode crc c ≡ ok bytes
      → decode crc bytes ≡ ok c
  unfolding encode
  decode-encode c bytes f h =
      let (_, v, h1) = bind-ok (validate c) _ h in
      let (_, _, h2) = bind-ok (origin_bytes c.position) _ h1 in
      let (pos, e, h3) = bind-ok (position_bytes c.position) _ h2 in
      let same = position_bytes-place_bytes c.position pos e in
      let body = head_bytes c (place_bytes c.position ++ []) in
      let whole : body ≡ head_bytes c pos =
        ap (head_bytes c) (append-nil (place_bytes c.position) ∙ sym same) in
      let out : body ++ le_bytes 4 (crc body) ≡ bytes =
        ap (λ t. t ++ le_bytes 4 (crc t)) whole ∙ ok_bytes h3 in
      subst (λ t. decode crc t ≡ ok c) out
        (decode_checked body c (long c)
          (decode_body-head_bytes c.topic_partition c.data_generation c.position f v))
    where
      ok_bytes : {a b : Bytes} → Path (Result LogicalCursorError Bytes) (ok a) (ok b) → a ≡ b
      ok_bytes e = cc

      long : (d : LogicalTopicCursor) → 48 ≤ length (head_bytes d (place_bytes d.position ++ []))
      long d =
          unfold head_bytes in
          omega (arith, length-place_bytes d.position, length-append (place_bytes d.position) [])

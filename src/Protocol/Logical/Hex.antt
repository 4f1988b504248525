-- ===== src/Protocol/Logical/Hex.antt =====
-- The hexadecimal form of a cursor (crates/shard-stream-protocol/src/logical.rs).
use Prim.Native.Nat.{bit_or}
use shard_stream.Prelude.{
  false, if◌then◌else◌, ℕ, zero, suc, ◌*◌, ◌/◌, ◌%◌, ◌<◌, ◌≡◌, refl, sym, subst, Bool, true, some,
  List, [], ◌∷◌, ◌++◌, ◌==◌, length, u32_mod, arith, ==_iff,
}
use shard_stream.Prelude.Bytes.{Bytes, le_bytes}
use shard_stream.Prelude.Results.{Result, ok, bind-ok}
use shard_stream.Protocol.Logical.{
  ActiveActiveCursorPosition, LogicalCursorPosition, passive_position, active_position,
  LogicalTopicCursor, LogicalCursorError, encode, encode_hex, decode_hex, hex, hex_digit, unhex,
  decode_hex_nibble, head_bytes, positions_bytes, position_bytes, origin_bytes, validate, mode_byte,
  cursor_magic,
}
use shard_stream.Protocol.Logical.RoundTrip.{
  IsCursor, place_bytes, position_bytes-place_bytes, decode-encode,
}

abbrev AllByte : Bytes → Type 0
AllByte [] = Unit {0}
AllByte (b ∷ bs) = (b < 256) × AllByte bs

AllByte-append : (xs ys : Bytes) → AllByte xs → AllByte ys → AllByte (xs ++ ys)
AllByte-append [] ys h k = k
AllByte-append (x ∷ xs) ys h k = (h.0, AllByte-append xs ys h.1 k)

le_bytes-AllByte : (width v : ℕ) → AllByte (le_bytes width v)
le_bytes-AllByte zero v = tt
le_bytes-AllByte (suc width) v = (omega arith, le_bytes-AllByte width (v / 256))

word_before : (width v : ℕ) (rest : Bytes) → AllByte rest → AllByte (le_bytes width v ++ rest)
word_before width v rest h = AllByte-append (le_bytes width v) rest (le_bytes-AllByte width v) h

nibble : (n : ℕ) → n < 16 → decode_hex_nibble (hex_digit n) ≡ some n
unfolding decode_hex_nibble hex_digit
nibble n h = ground arith

-- Whether the two halves of every byte under `limit` make up the byte again.
halves_join : (limit : ℕ) → Bool
halves_join zero = true
halves_join (suc byte) =
    let rest = halves_join byte in
    if bit_or (byte / 16 * 16) (byte % 16) == byte then rest else false

joined_under :
    (limit byte : ℕ)
    → byte < limit
    → halves_join limit ≡ true
    → bit_or (byte / 16 * 16) (byte % 16) ≡ byte
unfolding halves_join
joined_under zero byte under checked = absurd (omega arith)
joined_under (suc last) byte under checked = ground (arith, joined_under last byte)

joined : (byte : ℕ) → byte < 256 → bit_or (byte / 16 * 16) (byte % 16) ≡ byte
joined byte under = joined_under 256 byte under (unfold halves_join in refl)

unhex-hex : (bytes : Bytes) → AllByte bytes → unhex (hex bytes) ≡ ok bytes
unfolding unhex hex
unhex-hex [] h = refl
unhex-hex (b ∷ bs) h =
    rw
      (
        nibble (b / 16) (omega (arith, h.0)),
        nibble (b % 16) (omega arith),
        unhex-hex bs h.1,
        joined b h.0,
      )
      refl

length-hex : (bytes : Bytes) → length (hex bytes) ≡ 2 * length bytes
unfolding hex
length-hex [] = omega arith
length-hex (b ∷ bs) = omega (arith, length-hex bs)

hex_even : (bytes : Bytes) → (length (hex bytes) % 2 == 0) ≡ true
hex_even bytes = (==_iff _ 0).1 (omega (arith, length-hex bytes))

positions_bytes-AllByte : (ps : List ActiveActiveCursorPosition) → AllByte (positions_bytes ps)
unfolding positions_bytes
positions_bytes-AllByte [] = tt
positions_bytes-AllByte (p ∷ ps) =
    let t2 = le_bytes 8 p.next_sequence ++ positions_bytes ps in
    let t1 = le_bytes 4 p.writer_epoch ++ t2 in
    word_before 4 p.origin_id t1 (
      word_before 4 p.writer_epoch t2
        (word_before 8 p.next_sequence (positions_bytes ps) (positions_bytes-AllByte ps)))

place_bytes-AllByte : (p : LogicalCursorPosition) → AllByte (place_bytes p)
place_bytes-AllByte (passive_position n) = le_bytes-AllByte 8 n
place_bytes-AllByte (active_position m ps) =
    word_before 8 m (le_bytes 4 (length ps) ++ positions_bytes ps)
      (word_before 4 (length ps) (positions_bytes ps) (positions_bytes-AllByte ps))

mode_byte-lt : (p : LogicalCursorPosition) → mode_byte p < 256
mode_byte-lt (passive_position n) = omega arith
mode_byte-lt (active_position m ps) = omega arith

encode-AllByte :
    (crc : Bytes → ℕ) (c : LogicalTopicCursor) (bytes : Bytes)
    → encode crc c ≡ ok bytes
    → AllByte bytes
unfolding encode head_bytes
encode-AllByte crc c bytes h =
    let (_, _, h1) = bind-ok (validate c) _ h in
    let (_, _, h2) = bind-ok (origin_bytes c.position) _ h1 in
    let (pos, e, h3) = bind-ok (position_bytes c.position) _ h2 in
    let same = position_bytes-place_bytes c.position pos e in
    let pos_bytes : AllByte pos = subst AllByte (sym same) (place_bytes-AllByte c.position) in
    let t3 = le_bytes 8 c.data_generation ++ pos in
    let t2 = le_bytes 4 c.topic_partition.partition_id ++ t3 in
    let t1 = le_bytes 16 c.topic_partition.topic_id ++ t2 in
    let head : AllByte (head_bytes c pos) =
      AllByte-append cursor_magic (le_bytes 2 1 ++ (mode_byte c.position ∷ 0 ∷ t1)) (omega arith) (
        word_before 2 1 (mode_byte c.position ∷ 0 ∷ t1) (
          mode_byte-lt c.position,
          (
            omega arith,
            word_before 16 c.topic_partition.topic_id t2 (
                word_before 4 c.topic_partition.partition_id t3
                  (word_before 8 c.data_generation pos pos_bytes)),
          ),
        )) in
    subst AllByte (ok_bytes h3) (
      AllByte-append (head_bytes c pos) (le_bytes 4 (crc (head_bytes c pos))) head
        (le_bytes-AllByte 4 (crc (head_bytes c pos))))
  where
    ok_bytes : {a b : Bytes} → Path (Result LogicalCursorError Bytes) (ok a) (ok b) → a ≡ b
    ok_bytes e = cc

module _ (crc : Bytes → ℕ) (crc_word : (bytes : Bytes) → crc bytes < u32_mod) where
  -- The hexadecimal form of a cursor whose values fit the words of the source is decoded to the
  -- cursor.
  pub decode_hex-encode_hex :
      (c : LogicalTopicCursor) (encoded : Bytes)
      → IsCursor c
      → encode_hex crc c ≡ ok encoded
      → decode_hex crc encoded ≡ ok c
  unfolding encode_hex decode_hex
  decode_hex-encode_hex c encoded f h =
      let (bytes, e, out) = bind-ok (encode crc c) _ h in
      let back = decode-encode crc crc_word c bytes f e in
      let small = encode-AllByte crc c bytes e in
      subst (λ t. decode_hex crc t ≡ ok c) (ok_bytes out)
        (rw (hex_even bytes, unhex-hex bytes small) back)
    where
      ok_bytes : {a b : Bytes} → Path (Result LogicalCursorError Bytes) (ok a) (ok b) → a ≡ b
      ok_bytes x = cc

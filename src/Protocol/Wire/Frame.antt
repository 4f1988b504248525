-- ===== src/Protocol/Wire/Frame.antt =====
-- One frame is read back as its batch (crates/shard-stream-protocol/src/wire.rs).
use shard_stream.Prelude.{
  ℕ, ◌+◌, ◌-◌, ◌≤◌, ◌<◌, ◌≡◌, refl, ap, sym, ◌∙◌, true, some, ◌++◌, ltb, leb, length, length-append,
  append_assoc, u32_mod, u64_mod, usize_mod, arith, lt→ltb, ==_refl, le→ltb, le→leb,
}
use shard_stream.Prelude.Bytes.{
  Bytes, le_bytes, from_le, slice, from_le-le_bytes, length-le_bytes, slice_middle, take_left,
  drop_left,
}
use shard_stream.Prelude.Results.{ok}
use shard_stream.Protocol.Wire.{
  NativeFetchBatch, read_prefix, read_length, check_crc, read_frame, prefix_bytes, fixed_bytes,
  header_bytes,
}
use shard_stream.Protocol.Wire.Body.{IsBatch, read_body-fixed_bytes, length-fixed_bytes}

-- A frame between other bytes: prefix, fixed part, payload and checksum.
module _ (before p x y c after : Bytes) (k : ℕ) (start : k ≡ length before) where
  abbrev whole : Bytes
  whole = before ++ (p ++ (x ++ (y ++ (c ++ after))))

  pub slice_prefix : slice whole k (k + length p) ≡ some p
  slice_prefix = slice_middle before p _ k _ start refl

  pub slice_frame :
      (end : ℕ)
      → end ≡ k + (length p + (length x + (length y + length c)))
      → slice whole k end ≡ some (p ++ (x ++ (y ++ c)))
  slice_frame end e =
      ap (λ t. slice (before ++ t) k end)
        (ap (λ t. p ++ (x ++ t)) (sym (append_assoc y c after))
          ∙ ap (λ t. p ++ t) (sym (append_assoc x (y ++ c) after))
          ∙ sym (append_assoc p (x ++ (y ++ c)) after))
      ∙ slice_middle before (p ++ (x ++ (y ++ c))) after k end start (
          omega (
            arith,
            e,
            length-append p (x ++ (y ++ c)),
            length-append x (y ++ c),
            length-append y c,
          ))

  pub slice_body :
      (from end : ℕ)
      → from ≡ k + length p
      → end ≡ from + (length x + length y)
      → slice whole from end ≡ some (x ++ y)
  slice_body from end f e =
      ap (λ t. slice t from end)
        (ap (λ t. before ++ (p ++ t)) (sym (append_assoc x y (c ++ after)))
          ∙ sym (append_assoc before p ((x ++ y) ++ (c ++ after))))
      ∙ slice_middle (before ++ p) (x ++ y) (c ++ after) from end
          (omega (arith, f, start, length-append before p)) (omega (arith, e, length-append x y))

  pub slice_payload :
      (from end : ℕ)
      → from ≡ k + (length p + length x)
      → end ≡ from + length y
      → slice whole from end ≡ some y
  slice_payload from end f e =
      ap (λ t. slice t from end)
        (ap (λ t. before ++ t) (sym (append_assoc p x (y ++ (c ++ after))))
          ∙ sym (append_assoc before (p ++ x) (y ++ (c ++ after))))
      ∙ slice_middle (before ++ (p ++ x)) y (c ++ after) from end
          (omega (arith, f, start, length-append before (p ++ x), length-append p x)) e

check_crc_lem :
    (crc : Bytes → ℕ) (covered check : Bytes)
    → length check ≡ 4
    → from_le check ≡ crc covered
    → check_crc crc (covered ++ check) ≡ ok tt
unfolding check_crc
check_crc_lem crc covered check n e =
    let total = length-append covered check in
    let long : leb 4 (length (covered ++ check)) ≡ true = le→leb _ _ (omega arith) in
    let end : length (covered ++ check) - 4 ≡ length covered = omega arith in
    rw
      (
        long,
        end,
        take_left covered check _ refl,
        drop_left covered check _ refl,
        e,
        ==_refl (crc covered),
      )
      refl

read_prefix-prefix_bytes :
    (n max_frame_bytes : ℕ)
    → 156 ≤ n
    → n ≤ max_frame_bytes
    → n < u64_mod
    → read_prefix (prefix_bytes n) max_frame_bytes ≡ ok n
read_prefix-prefix_bytes n max_frame_bytes lo hi h =
    reads ∙ ap (read_length max_frame_bytes) (from_le-le_bytes 8 n h) ∙ checks
  where
    reads :
        read_prefix (prefix_bytes n) max_frame_bytes
        ≡ read_length max_frame_bytes (from_le (le_bytes 8 n))
    reads = unfold read_prefix prefix_bytes from_le in refl

    checks : read_length max_frame_bytes n ≡ ok n
    checks =
        unfold read_length in
        rw (lt→ltb n usize_mod h, le→ltb n 156 lo, le→ltb max_frame_bytes n hi) refl

module _ (crc : Bytes → ℕ) (crc_word : (bytes : Bytes) → crc bytes < u32_mod) where
  abbrev pub frame_len : NativeFetchBatch → ℕ
  frame_len b = 152 + length b.payload + 4

  abbrev pub check_bytes : NativeFetchBatch → Bytes
  check_bytes b = le_bytes 4 (crc (header_bytes b (frame_len b) ++ b.payload))

  -- The bytes of one frame in front of others.
  abbrev pub frame_bytes : NativeFetchBatch → Bytes → Bytes
  frame_bytes b after =
      prefix_bytes (frame_len b) ++ (fixed_bytes b ++ (b.payload ++ (check_bytes b ++ after)))

  length-prefix_bytes : (n : ℕ) → length (prefix_bytes n) ≡ 16
  unfolding prefix_bytes
  length-prefix_bytes n = refl

  pub length-frame_bytes :
      (b : NativeFetchBatch) (after : Bytes)
      → IsBatch b
      → length (frame_bytes b after) ≡ frame_len b + length after
  length-frame_bytes b after h =
      let n = frame_len b in
      let c = check_bytes b in
      omega (
        arith,
        length-append (prefix_bytes n) (fixed_bytes b ++ (b.payload ++ (c ++ after))),
        length-append (fixed_bytes b) (b.payload ++ (c ++ after)),
        length-append b.payload (c ++ after),
        length-append c after,
        length-prefix_bytes n,
        length-fixed_bytes b h,
        length-le_bytes 4 (crc (header_bytes b n ++ b.payload)),
      )

  frame_checks :
      (b : NativeFetchBatch)
      → check_crc crc
          (prefix_bytes (frame_len b) ++ (fixed_bytes b ++ (b.payload ++ check_bytes b)))
        ≡ ok tt
  frame_checks b =
      let p = prefix_bytes (frame_len b) in
      let covered = (p ++ fixed_bytes b) ++ b.payload in
      let sum = crc (header_bytes b (frame_len b) ++ b.payload) in
      ap (check_crc crc) (
        sym (append_assoc p (fixed_bytes b) (b.payload ++ check_bytes b))
        ∙ sym (append_assoc (p ++ fixed_bytes b) b.payload (check_bytes b)))
      ∙ check_crc_lem crc covered (check_bytes b) (length-le_bytes 4 sum)
          (from_le-le_bytes 4 sum (crc_word _) ∙ ap (λ t. crc (t ++ b.payload)) header)
    where
      header : header_bytes b (frame_len b) ≡ prefix_bytes (frame_len b) ++ fixed_bytes b
      header = unfold header_bytes in refl

  -- A frame is read at its cursor, whatever stands before and behind it.
  pub read_frame-frame_bytes :
      (before after : Bytes) (b : NativeFetchBatch) (max_frame_bytes k : ℕ)
      → k ≡ length before
      → IsBatch b
      → frame_len b ≤ max_frame_bytes
      → k + frame_len b < usize_mod
      → read_frame crc (before ++ frame_bytes b after) max_frame_bytes k ≡ ok (b, k + frame_len b)
  unfolding read_frame
  read_frame-frame_bytes before after b max_frame_bytes k start h hi room =
      let n = frame_len b in
      let p = prefix_bytes n in
      let x = fixed_bytes b in
      let c = check_bytes b in
      let np = length-prefix_bytes n in
      let nx = length-fixed_bytes b h in
      let nc = length-le_bytes 4 (crc (header_bytes b n ++ b.payload)) in
      let room_prefix : ltb (k + 16) usize_mod ≡ true = lt→ltb _ _ (omega arith) in
      let room_frame : ltb (k + n) usize_mod ≡ true = lt→ltb _ _ room in
      let room_fixed : ltb (k + 16 + 136) usize_mod ≡ true = lt→ltb _ _ (omega arith) in
      let tail : leb 4 (k + n) ≡ true = le→leb _ _ (omega arith) in
      let s1 : slice (before ++ frame_bytes b after) k (k + 16) ≡ some p =
        ap (λ e. slice (before ++ frame_bytes b after) k e) (omega (arith, np))
        ∙ slice_prefix before p x b.payload c after k start in
      let s2 =
        slice_frame before p x b.payload c after k start (k + n) (omega (arith, np, nx, nc)) in
      let s3 =
        slice_body before p x b.payload c after k start (k + 16) (k + n - 4) (omega (arith, np))
          (omega (arith, nx)) in
      let s4 =
        slice_payload before p x b.payload c after k start (k + 16 + 136) (k + n - 4)
          (omega (arith, np, nx)) (omega arith) in
      let first = read_prefix-prefix_bytes n max_frame_bytes (omega arith) hi (omega arith) in
      let fields = read_body-fixed_bytes b b.payload h in
      rw
        (
          room_prefix,
          s1,
          first,
          room_frame,
          s2,
          frame_checks b,
          tail,
          s3,
          fields,
          room_fixed,
          s4,
          ==_refl (length b.payload),
        )
        refl

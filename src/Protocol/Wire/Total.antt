-- ===== src/Protocol/Wire/Total.antt =====
-- The decoder of a fetch on any bytes (crates/shard-stream-protocol/src/wire.rs).
use shard_stream.Prelude.{
  ℕ, zero, suc, ◌+◌, ◌-◌, ◌≤◌, ◌<◌, ◌≡◌, ◌⊎◌, true, not, ◌&&◌, ◌||◌, some, List, [], ◌∷◌, ◌++◌, ltb,
  ◌==◌, length, take, get_elem?_total, checked_add, checked_sub, try_from, u64_mod, usize_mod,
  arith, ltb→le, ltb→lt, not-true, le→leb,
}
use shard_stream.Prelude.Bytes.{Bytes, from_le, bytes_eq, slice, slice-Sliced, slice_total}
use shard_stream.Prelude.Maps.{option_eq}
use shard_stream.Prelude.Results.{
  ok, err, expect, Any, Ensures, holds, fails, Ensures-bind, ok_or-Ensures, guard-Ensures,
  if-Ensures, Ensures-weaken, Ensures-cases,
}
use shard_stream.Protocol.Wire.{
  NativeFetchBatch, WireError, truncated, invalid_frame_length, trailing_bytes, invalid_magic,
  unsupported_version, unsupported_flags, invalid_header_length, magic, read, index, padding,
  read_event, read_group, read_placement, read_body, read_length, read_prefix, check_crc,
  read_frame, read_frames, decode_fetch_batches,
}

-- The offsets of a batch span its records.
pub record IsSpan (b : NativeFetchBatch) : Type 0 where
  pub some_records : 0 < b.record_count
  pub span : b.first_offset + (b.record_count - 1) ≡ b.last_offset
  pub last : b.last_offset < u64_mod

abbrev pub AllSpan : List NativeFetchBatch → Type 0
AllSpan [] = Unit {0}
AllSpan (b ∷ bs) = IsSpan b × AllSpan bs

index-Ensures : (bytes : Bytes) (i : ℕ) → i < length bytes → Ensures Any (index bytes i)
index-Ensures bytes i h = let (b, e) = get_elem?_total bytes i h in rw e (holds tt)

slice-Ensures :
    (bytes : Bytes) (from to : ℕ)
    → from ≤ to
    → to ≤ length bytes
    → Ensures {E = WireError} Any (expect (slice bytes from to))
slice-Ensures bytes from to up inside =
    let (x, e) = slice_total bytes from to up inside in rw e (holds tt)

padding-Ensures :
    (body : Bytes) (from to : ℕ) → from ≤ to → to ≤ length body → Ensures Any (padding body from to)
padding-Ensures body from to up inside =
    Ensures-bind (slice-Ensures body from to up inside)
      (λ pad _. Ensures-weaken (guard-Ensures _ _))

read-Ensures : (width : ℕ) (bytes : Bytes) (offset : ℕ) → Ensures Any (read width bytes offset)
unfolding read
read-Ensures width bytes offset =
    Ensures-bind (ok_or-Ensures (checked_add usize_mod offset width) truncated) (λ end _.
      Ensures-bind (ok_or-Ensures (slice bytes offset end) truncated) (λ field _. holds tt))

read_placement-Ensures : (bytes : Bytes) (a b c d : ℕ) → Ensures Any (read_placement bytes a b c d)
unfolding read_placement
read_placement-Ensures bytes a b c d = Ensures-bind (read-Ensures 4 bytes a) λ _ _.
    Ensures-bind (read-Ensures 8 bytes b) λ _ _.
      Ensures-bind (read-Ensures 8 bytes c)
        λ _ _. Ensures-bind (read-Ensures 8 bytes d) λ _ _. holds tt

read_event-Ensures : (present e : ℕ) → Ensures Any (read_event present e)
unfolding read_event
read_event-Ensures present e =
    if-Ensures (present == 0 && e == 0) (λ _. holds tt)
      (λ _. if-Ensures (present == 1) (λ _. holds tt) (λ _. fails))

read_group-Ensures : (present t c : ℕ) → Ensures Any (read_group present t c)
unfolding read_group
read_group-Ensures present t c =
    if-Ensures (present == 0 && t == 0 && c == 0) (λ _. holds tt)
      (λ _. if-Ensures (present == 1) (λ _. holds tt) (λ _. fails))

spans :
    (first count last : ℕ)
    → not (count == 0) ≡ true
    → option_eq ◌==◌ (checked_add u64_mod first (count - 1)) (some last) ≡ true
    → (0 < count) × (first + (count - 1) ≡ last) × (last < u64_mod)
spans first count last h k = ground arith

-- A body that is read has a batch whose offsets span its records, and nothing makes it panic.
read_body-Ensures : (body : Bytes) → Ensures (λ r. IsSpan r.0) (read_body body)
unfolding read_body
read_body-Ensures body = Ensures-bind (guard-Ensures _ _) λ _ long.
    let n = ltb→le (length body) 136 (not-true _ long) in
    Ensures-bind (read-Ensures 16 body 0) λ _ _. Ensures-bind (read-Ensures 16 body 16) λ _ _.
      Ensures-bind (read-Ensures 8 body 32) λ first _.
        Ensures-bind (read-Ensures 8 body 40) λ last _.
          Ensures-bind (read-Ensures 4 body 48) λ count _.
            Ensures-bind (guard-Ensures _ _) λ _ nonzero.
              Ensures-bind (read_placement-Ensures body 52 56 64 72) λ _ _.
                Ensures-bind (index-Ensures body 80 (omega arith)) λ there _.
                  Ensures-bind (padding-Ensures body 81 84 (omega arith) (omega arith)) λ _ _.
                    Ensures-bind (read-Ensures 16 body 84) λ e _.
                      Ensures-bind (read_event-Ensures there e) λ _ _.
                        Ensures-bind (index-Ensures body 100 (omega arith)) λ grouped _.
                          Ensures-bind (padding-Ensures body 101 104 (omega arith) (omega arith))
                            λ _ _. Ensures-bind (read-Ensures 16 body 104) λ t _.
                              Ensures-bind (read-Ensures 8 body 120) λ c _.
                                Ensures-bind (read_group-Ensures grouped t c) λ _ _.
                                  Ensures-bind (read-Ensures 8 body 128) λ width _.
                                    Ensures-bind (ok_or-Ensures (try_from usize_mod width) _) λ _ _.
                                      Ensures-bind (guard-Ensures _ _) λ _ span.
                                        let s = spans first count last nonzero span in
                                        holds
                                          (record { some_records = s.0; span = s.1; last = s.2 })

lengths : (n m : ℕ) → not (ltb n 156 || ltb m n) ≡ true → 156 ≤ n
lengths n m h = ground arith

read_length-Ensures : (m v : ℕ) → Ensures (λ n. 156 ≤ n) (read_length m v)
unfolding read_length
read_length-Ensures m v =
    Ensures-bind (ok_or-Ensures (try_from usize_mod v) _)
      λ n _. Ensures-bind (guard-Ensures _ _) λ _ h. holds (lengths n m h)

read_prefix-Ensures :
    (prefix : Bytes) (m : ℕ) → length prefix ≡ 16 → Ensures (λ n. 156 ≤ n) (read_prefix prefix m)
unfolding read_prefix
read_prefix-Ensures prefix m n =
    Ensures-bind (guard-Ensures (bytes_eq (take 4 prefix) magic) invalid_magic) λ _ _.
      Ensures-bind (index-Ensures prefix 4 (omega arith)) λ got _.
        Ensures-bind (guard-Ensures (got == 5) (unsupported_version got)) λ _ _.
          Ensures-bind (index-Ensures prefix 5 (omega arith)) λ flags _.
            Ensures-bind (guard-Ensures (flags == 0) (unsupported_flags flags)) λ _ _.
              Ensures-bind (slice-Ensures prefix 6 8 (omega arith) (omega arith)) λ size _.
                Ensures-bind (guard-Ensures (from_le size == 152) invalid_header_length) λ _ _.
                  Ensures-bind (slice-Ensures prefix 8 16 (omega arith) (omega arith))
                    λ width _. read_length-Ensures m (from_le width)

check_crc-Ensures :
    (crc : Bytes → ℕ) (frame : Bytes) → 4 ≤ length frame → Ensures Any (check_crc crc frame)
unfolding check_crc
check_crc-Ensures crc frame h = rw (le→leb 4 (length frame) h) (Ensures-weaken (guard-Ensures _ _))

sum_of : (size a b : ℕ) {c : ℕ} → checked_add size a b ≡ some c → c ≡ a + b
sum_of size a b h = ground arith

-- A round of the loop reads a batch whose offsets span its records, and goes on behind the cursor.
read_frame-Ensures :
    (crc : Bytes → ℕ) (bytes : Bytes) (m cursor : ℕ)
    → Ensures
        (λ r. IsSpan r.0 × (cursor < r.1) × (r.1 ≤ length bytes))
        (read_frame crc bytes m cursor)
unfolding read_frame
read_frame-Ensures crc bytes m cursor =
    Ensures-bind (ok_or-Ensures (checked_add usize_mod cursor 16) _) λ prefix_end e1.
      Ensures-bind (ok_or-Ensures (slice bytes cursor prefix_end) _) λ prefix s1.
        let p = slice-Sliced bytes cursor prefix_end prefix s1 in
        Ensures-bind (read_prefix-Ensures prefix m (omega (arith, p.size, sum_of _ _ _ e1))) λ n lo.
          Ensures-bind (ok_or-Ensures (checked_add usize_mod cursor n) _) λ end e2.
            Ensures-bind (ok_or-Ensures (slice bytes cursor end) _) λ frame s2.
              let f = slice-Sliced bytes cursor end frame s2 in
              let more : end ≡ cursor + n = sum_of _ _ _ e2 in
              Ensures-bind (check_crc-Ensures crc frame (omega (arith, f.size))) λ _ _.
                Ensures-bind (ok_or-Ensures (checked_add usize_mod cursor 16) _) λ body_start _.
                  Ensures-bind (ok_or-Ensures (checked_sub end 4) _) λ body_end _.
                    Ensures-bind (ok_or-Ensures (slice bytes body_start body_end) _) λ body _.
                      Ensures-bind (read_body-Ensures body) λ r span.
                        Ensures-bind (ok_or-Ensures (checked_add usize_mod body_start 136) _)
                          λ payload_start _.
                            Ensures-bind (ok_or-Ensures (slice bytes payload_start body_end) _)
                              λ payload _.
                                Ensures-bind
                                  (guard-Ensures (length payload == r.1) invalid_frame_length)
                                  λ _ _. holds (
                                    record {
                                      some_records = span.some_records;
                                      span = span.span;
                                      last = span.last;
                                    },
                                    omega arith,
                                    f.inside,
                                  )

AllSpan-append :
    (bs : List NativeFetchBatch) (b : NativeFetchBatch)
    → AllSpan bs
    → IsSpan b
    → AllSpan (bs ++ (b ∷ []))
AllSpan-append [] b h s = (s, tt)
AllSpan-append (c ∷ bs) b h s = (h.0, AllSpan-append bs b h.1 s)

read_frames-Ensures :
    (crc : Bytes → ℕ) (bytes : Bytes) (m fuel cursor : ℕ) (done : List NativeFetchBatch)
    → cursor ≤ length bytes
    → length bytes - cursor < fuel
    → AllSpan done
    → Ensures AllSpan (read_frames crc bytes m fuel cursor done)
unfolding read_frames
read_frames-Ensures crc bytes m zero cursor done h fuel spans = absurd (omega arith)
read_frames-Ensures crc bytes m (suc fuel) cursor done h enough spans =
    if-Ensures (ltb cursor (length bytes))
      (λ inside. Ensures-bind (read_frame-Ensures crc bytes m cursor) λ r good.
        read_frames-Ensures crc bytes m fuel r.1 (done ++ (r.0 ∷ [])) good.2
          (omega (arith, good.1, enough, ltb→lt _ _ inside)) (AllSpan-append done r.0 spans good.0))
      (λ _. Ensures-bind (guard-Ensures (cursor == length bytes) trailing_bytes) λ _ _. holds spans)

decode-Ensures :
    (crc : Bytes → ℕ) (bytes : Bytes) (m : ℕ) → Ensures AllSpan (decode_fetch_batches crc bytes m)
unfolding decode_fetch_batches
decode-Ensures crc bytes m =
    read_frames-Ensures crc bytes m (suc (length bytes)) 0 [] (omega arith) (omega arith) tt

-- On any bytes the decoder returns an error, or batches whose offsets span their records: it does not
-- panic, and its loop ends.
pub decode_fetch_batches_total :
    (crc : Bytes → ℕ) (bytes : Bytes) (max_frame_bytes : ℕ)
    → ((e : WireError) × (decode_fetch_batches crc bytes max_frame_bytes ≡ err e))
      ⊎ ((batches : List NativeFetchBatch) × (decode_fetch_batches crc bytes max_frame_bytes
            ≡ ok batches)
          × AllSpan batches)
decode_fetch_batches_total crc bytes m = Ensures-cases (decode-Ensures crc bytes m)

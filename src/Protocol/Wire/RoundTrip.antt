-- ===== src/Protocol/Wire/RoundTrip.antt =====
-- Encoded batches are decoded to themselves (crates/shard-stream-protocol/src/wire.rs).
use shard_stream.Prelude.{
  ℕ, zero, suc, ◌+◌, ◌≤◌, ◌<◌, ◌≡◌, refl, ap, sym, ◌∙◌, subst, List, [], ◌∷◌, ◌++◌, ltb, length,
  length-append, append_assoc, append-nil, u32_mod, usize_mod, arith, lt→ltb, ltb→lt, ltb→le,
  le→ltb, ==_refl, Bool-cases, true, inl, inr,
}
use shard_stream.Prelude.Bytes.{Bytes}
use shard_stream.Prelude.Results.{Result, ok, err, panic, bind-ok}
use shard_stream.Protocol.Wire.{
  WireError, NativeFetchBatch, EncodedFetchResponse, encode_segments, encode_fetch_batches, concat,
  read_frames, decode_fetch_batches, header_bytes, prefix_bytes, fixed_bytes,
}
use shard_stream.Protocol.Wire.Body.{IsBatch}
use shard_stream.Protocol.Wire.Frame.{
  frame_len, check_bytes, frame_bytes, length-frame_bytes, read_frame-frame_bytes,
}

abbrev pub All : (NativeFetchBatch → Type 0) → List NativeFetchBatch → Type 0
All P [] = Unit {0}
All P (b ∷ bs) = P b × All P bs

concat-append : (xs ys : List Bytes) → concat (xs ++ ys) ≡ concat xs ++ concat ys
unfolding concat
concat-append [] ys = refl
concat-append (x ∷ xs) ys =
    ap (λ t. x ++ t) (concat-append xs ys) ∙ sym (append_assoc x (concat xs) (concat ys))

module _ (crc : Bytes → ℕ) (crc_word : (bytes : Bytes) → crc bytes < u32_mod) where
  abbrev size : NativeFetchBatch → ℕ
  size = frame_len crc crc_word

  abbrev frames : List NativeFetchBatch → Bytes
  frames [] = []
  frames (b ∷ bs) = frame_bytes crc crc_word b (frames bs)

  abbrev header : NativeFetchBatch → Bytes
  header b = header_bytes b (size b)

  -- The response after one more batch.
  abbrev after_batch : EncodedFetchResponse → NativeFetchBatch → EncodedFetchResponse
  after_batch out b = record {
    encoded_len = out.encoded_len + size b;
    segments = out.segments ++ (header b ∷ b.payload ∷ check_bytes crc crc_word b ∷ []);
  }

  -- A batch is encoded only if it fits, and then the others are encoded behind it.
  record Encoded (max_output_bytes : ℕ) (out r : EncodedFetchResponse) (b : NativeFetchBatch)
      (bs : List NativeFetchBatch) : Type 0 where
    fits : out.encoded_len + size b < usize_mod
    within : out.encoded_len + size b ≤ max_output_bytes
    rest : encode_segments crc max_output_bytes (after_batch out b) bs ≡ ok r

  encode_segments-Encoded :
      (max_output_bytes : ℕ) (out r : EncodedFetchResponse) (b : NativeFetchBatch)
      (bs : List NativeFetchBatch)
      → encode_segments crc max_output_bytes out (b ∷ bs) ≡ ok r
      → Encoded max_output_bytes out r b bs
  unfolding encode_segments
  encode_segments-Encoded max_output_bytes out r b bs h =
      elim (Bool-cases (ltb (out.encoded_len + size b) usize_mod)) [
        | inl fit ↦
            let room = ltb→lt (out.encoded_len + size b) usize_mod fit in
            let t1 : ltb (152 + length b.payload) usize_mod ≡ true = lt→ltb _ _ (omega arith) in
            let t2 : ltb (size b) usize_mod ≡ true = lt→ltb _ _ (omega arith) in
            let t3 : ltb (length b.payload) usize_mod ≡ true = lt→ltb _ _ (omega arith) in
            elim (Bool-cases (ltb max_output_bytes (out.encoded_len + size b))) [
              | inl over ↦ absurd (ground (arith, rw (t1, t2, fit, over) at h))
              | inr within ↦ record {
                fits = room;
                within = ltb→le max_output_bytes (out.encoded_len + size b) within;
                rest = rw (t1, t2, fit, within, t2, t3) at h;
              }
            ]
        | inr large ↦ elim (Bool-cases (ltb (152 + length b.payload) usize_mod)) [
          | inl t1 ↦ elim (Bool-cases (ltb (size b) usize_mod)) [
            | inl t2 ↦ absurd (ground (arith, rw (t1, t2, large) at h))
            | inr t2 ↦ absurd (ground (arith, rw (t1, t2) at h))
          ]
          | inr t1 ↦ absurd (ground (arith, rw t1 at h))
        ]
      ]

  -- Encoding appends the frames, each within the limit.
  record Frames (max_output_bytes : ℕ) (out r : EncodedFetchResponse) (bs : List NativeFetchBatch)
      : Type 0 where
    whole : concat r.segments ≡ concat out.segments ++ frames bs
    small : All (λ b. size b ≤ max_output_bytes) bs
    grown : r.encoded_len ≡ out.encoded_len + length (frames bs)
    bounded : r.encoded_len < usize_mod

  one_frame :
      (b : NativeFetchBatch) (after : Bytes)
      → concat (header b ∷ b.payload ∷ check_bytes crc crc_word b ∷ []) ++ after
        ≡ frame_bytes crc crc_word b after
  unfolding concat header_bytes
  one_frame b after =
      let p = prefix_bytes (size b) in
      let x = fixed_bytes b in
      let c = check_bytes crc crc_word b in
      ap (λ t. ((p ++ x) ++ (b.payload ++ t)) ++ after) (append-nil c)
      ∙ append_assoc (p ++ x) (b.payload ++ c) after
      ∙ append_assoc p x ((b.payload ++ c) ++ after)
      ∙ ap (λ t. p ++ (x ++ t)) (append_assoc b.payload c after)

  encode_segments_end :
      (max_output_bytes : ℕ) (out r : EncodedFetchResponse)
      → encode_segments crc max_output_bytes out [] ≡ ok r
      → out ≡ r
  unfolding encode_segments
  encode_segments_end max_output_bytes out r h = cc

  encode_segments-Frames :
      (max_output_bytes : ℕ) (out r : EncodedFetchResponse) (bs : List NativeFetchBatch)
      → All IsBatch bs
      → out.encoded_len < usize_mod
      → encode_segments crc max_output_bytes out bs ≡ ok r
      → Frames max_output_bytes out r bs
  encode_segments-Frames max_output_bytes out r [] v room h =
      let same : out ≡ r = encode_segments_end max_output_bytes out r h in
      record {
        whole = ap (λ o. concat o.segments) (sym same) ∙ sym (append-nil (concat out.segments));
        small = tt;
        grown = ap (λ o. o.encoded_len) (sym same) ∙ omega arith;
        bounded = subst (λ o. o.encoded_len < usize_mod) same room;
      }
  encode_segments-Frames max_output_bytes out r (b ∷ bs) v room h =
      let e = encode_segments-Encoded max_output_bytes out r b bs h in
      let f = encode_segments-Frames max_output_bytes (after_batch out b) r bs v.1 e.fits e.rest in
      record {
        whole =
            f.whole
            ∙ ap (λ t. t ++ frames bs) (concat-append out.segments _)
            ∙ append_assoc (concat out.segments) _ (frames bs)
            ∙ ap (λ t. concat out.segments ++ t) (one_frame b (frames bs));
        small = (omega (arith, e.within), f.small);
        grown = omega (arith, f.grown, length-frame_bytes crc crc_word b (frames bs) v.0);
        bounded = f.bounded;
      }

  read_frames_end :
      (max_frame_bytes fuel k : ℕ) (bytes : Bytes) (done : List NativeFetchBatch)
      → k ≡ length bytes
      → read_frames crc bytes max_frame_bytes (suc fuel) k done ≡ ok done
  unfolding read_frames
  read_frames_end max_frame_bytes fuel k bytes done end =
      rw (le→ltb k (length bytes) (omega arith), end, ==_refl (length bytes)) refl

  All-mono :
      (batches : List NativeFetchBatch) {m n : ℕ}
      → m ≤ n
      → All (λ b. size b ≤ m) batches
      → All (λ b. size b ≤ n) batches
  All-mono [] le h = tt
  All-mono (b ∷ bs) le h = (omega (arith, h.0), All-mono bs le h.1)

  read_frames-frames :
      (max_frame_bytes fuel k : ℕ) (before : Bytes) (done bs : List NativeFetchBatch)
      → All IsBatch bs
      → All (λ b. size b ≤ max_frame_bytes) bs
      → k ≡ length before
      → k + length (frames bs) < usize_mod
      → length (frames bs) < fuel
      → read_frames crc (before ++ frames bs) max_frame_bytes fuel k done ≡ ok (done ++ bs)
  unfolding read_frames
  read_frames-frames max_frame_bytes zero k before done bs v small start room more =
      absurd (omega arith)
  read_frames-frames max_frame_bytes (suc fuel) k before done [] v small start room more =
      let end : k ≡ length (before ++ []) = omega (arith, length-append before []) in
      read_frames_end max_frame_bytes fuel k (before ++ []) done end ∙ ap ok (sym (append-nil done))
  read_frames-frames max_frame_bytes (suc fuel) k before done (b ∷ bs) v small start room more =
      let total = length-frame_bytes crc crc_word b (frames bs) v.0 in
      let inside : ltb k (length (before ++ frames (b ∷ bs))) ≡ true =
        lt→ltb _ _ (omega (arith, length-append before (frames (b ∷ bs)))) in
      let one =
        read_frame-frame_bytes crc crc_word before (frames bs) b max_frame_bytes k start v.0 small.0
          (omega arith) in
      let rest =
        read_frames-frames max_frame_bytes fuel (k + size b)
          (before ++ frame_bytes crc crc_word b []) (done ++ (b ∷ [])) bs v.1 small.1
          (omega (
            arith,
            length-append before (frame_bytes crc crc_word b []),
            length-frame_bytes crc crc_word b [] v.0,
          ))
          (omega arith) (omega arith) in
      rw (inside, one)
        (ap (λ t. read_frames crc t max_frame_bytes fuel (k + size b) (done ++ (b ∷ [])))
            (ap (λ t. before ++ t) (frame_front b (frames bs))
              ∙ sym (append_assoc before (frame_bytes crc crc_word b []) (frames bs)))
          ∙ rest
          ∙ ap ok (append_assoc done (b ∷ []) bs))
    where
      frame_front :
          (c : NativeFetchBatch) (after : Bytes)
          → frame_bytes crc crc_word c after ≡ frame_bytes crc crc_word c [] ++ after
      frame_front c after = sym (
          append_assoc (prefix_bytes (size c))
            (fixed_bytes c ++ (c.payload ++ (check_bytes crc crc_word c ++ []))) after
          ∙ ap (λ t. prefix_bytes (size c) ++ t)
              (append_assoc (fixed_bytes c) (c.payload ++ (check_bytes crc crc_word c ++ [])) after
                ∙ ap (λ t. fixed_bytes c ++ t)
                    (append_assoc c.payload (check_bytes crc crc_word c ++ []) after
                      ∙ ap (λ t. c.payload ++ t)
                          (append_assoc (check_bytes crc crc_word c) [] after))))

  -- What was encoded within a limit is decoded to the same batches by a reader with that limit or
  -- a larger one.
  pub decode-encode_fetch_batches :
      (batches : List NativeFetchBatch) (max_output_bytes max_frame_bytes : ℕ) (bytes : Bytes)
      → All IsBatch batches
      → max_output_bytes ≤ max_frame_bytes
      → encode_fetch_batches crc batches max_output_bytes ≡ ok bytes
      → decode_fetch_batches crc bytes max_frame_bytes ≡ ok batches
  unfolding decode_fetch_batches encode_fetch_batches
  decode-encode_fetch_batches batches max_output_bytes max_frame_bytes bytes v le h =
      let nothing : EncodedFetchResponse = record { encoded_len = 0; segments = [] } in
      let (r, e, out) = bind-ok (encode_segments crc max_output_bytes nothing batches) _ h in
      let f = encode_segments-Frames max_output_bytes nothing r batches v (omega arith) e in
      subst (λ t. read_frames crc t max_frame_bytes (suc (length t)) 0 [] ≡ ok batches)
        (sym f.whole ∙ ap (λ (a : Result WireError Bytes). or_empty a) out)
        (read_frames-frames max_frame_bytes (suc (length (frames batches))) 0 [] [] batches v
          (All-mono batches le f.small) refl (omega (arith, f.grown, f.bounded)) (omega arith))
    where
      or_empty : Result WireError Bytes → Bytes
      or_empty (ok a) = a
      or_empty (err e) = []
      or_empty panic = []

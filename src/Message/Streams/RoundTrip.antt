-- ===== src/Message/Streams/RoundTrip.antt =====
-- mem.go: `Decode` of what `Encode` wrote.
use go_capnproto.Prelude.{
  refl, sym, zero, suc, arith, take, u32, ◌-◌, ◌==◌, ℕ, ◌^◌, ◌<◌, ◌≡◌, ap, ◌∙◌, List, ◌++◌, length,
  drop, drop-append, map, none, false, ok,
}
use go_capnproto.Message.Framing.{stream_header_size, unmarshal, unmarshal_stream_header}
use go_capnproto.Message.Streams.Encode.{encode_lem, length-header_buf}
use go_capnproto.Message.Marshal.{segment_sizes, append_segments}
use go_capnproto.Packed.Reader.{Source}
use go_capnproto.Packed.Reader.Remaining.{Reliable}
use go_capnproto.Message.{Message, multi_segment, num_segments}
use go_capnproto.Message.Valid.{IsValid}
use go_capnproto.Message.Marshal.Concat.{exact, concat, sum_sizes-concat}
use go_capnproto.Message.Marshal.RoundTrip.{
  all_bytes, views, Streamed, header-Streamed, loops_lem, suc-not_zero,
}
use go_capnproto.Message.Streams.{decode}
use go_capnproto.Message.Streams.Decode.{decode-unmarshal}
use go_capnproto.Message.Streams.Encoder.{Writer, Encoder, header_buf, encode}

module _ {W S : Type 0} (out : Writer W) (content : W → List ℕ)
    (appends : (w : W) (b : List ℕ)
      → (w' : W) × (out.write w b ≡ (none, w')) × (content w' ≡ content w ++ b))
    (io : Source S) (left : S → List ℕ) (reliable : Reliable left io) (open_on : List ℕ → S)
    (opens : (b : List ℕ) → left (open_on b) ≡ b) where
  -- The bytes that `Marshal` would give, but for the padding of the header.
  decode-Streamed :
      (stream more : List ℕ) (bs : List (List ℕ))
      → Streamed stream bs more
      → (s : S) × (decode io (open_on (stream ++ more)) ≡ ok (multi_segment (map exact bs), s))
        × (left s ≡ more)
  decode-Streamed stream more bs r =
      let all : left (open_on (stream ++ more)) ≡ stream ++ more = opens (stream ++ more) in
      let (s, decoded, rest) =
        decode-unmarshal left io reliable (open_on (stream ++ more)) (map length bs)
          (concat bs ++ more) (multi_segment (map exact bs))
          (ap unmarshal_stream_header all ∙ r.header) (ap unmarshal all ∙ r.arena) in
      (
        s,
        decoded,
        rest
            ∙ ap (λ k. drop k (concat bs ++ more)) (sum_sizes-concat bs)
            ∙ drop-append (concat bs) more,
      )

  -- With a writer below that takes all that it is given, and a reader below that gives what is
  -- left in order: `Encode` of a valid message with at least one segment, and fewer than 2 ^ 32, by
  -- an encoder that does not pack, in whatever state earlier messages left it, returns, and the
  -- encoder still does not pack. `Decode` of what it wrote, with more bytes behind, gives an arena
  -- whose segments have the bytes of the message's, in order, with no capacity to spare, and leaves
  -- just the bytes behind.
  pub decode-encode :
      (e : Encoder W) (m : Message) (more : List ℕ)
      → e.packed ≡ false
      → IsValid 0 m
      → 0 < num_segments m.arena
      → num_segments m.arena < 2 ^ 32
      → (stream : List ℕ) × (e' : Encoder W) × (m' : Message) × (s : S) × (encode out e m
          ≡ ok (e', m'))
        × (e'.packed ≡ false)
        × (content e'.w ≡ content e.w ++ stream)
        × (decode io (open_on (stream ++ more)) ≡ ok (multi_segment (map exact (all_bytes m)), s))
        × (left s ≡ more)
  decode-encode e m more plain v some_segment few = by_count (num_segments m.arena) refl
    where
      by_count :
          (k : ℕ)
          → num_segments m.arena ≡ k
          → (stream : List ℕ) × (e' : Encoder W) × (m' : Message) × (s : S) × (encode out e m
              ≡ ok (e', m'))
            × (e'.packed ≡ false)
            × (content e'.w ≡ content e.w ++ stream)
            × (decode io (open_on (stream ++ more))
                ≡ ok (multi_segment (map exact (all_bytes m)), s))
            × (left s ≡ more)
      by_count zero h = absurd (omega arith)
      by_count (suc n) h =
          let bs : List (List ℕ) = views m (suc n) 0 in
          let same : views m (num_segments m.arena) 0 ≡ bs = ap (λ k. views m k 0) h in
          let last : u32 (num_segments m.arena - 1) ≡ n = omega (arith, few, h) in
          let b : List ℕ =
            take (stream_header_size (u32 (num_segments m.arena - 1)))
              (header_buf e.hdrbuf (stream_header_size (u32 (num_segments m.arena - 1)))) in
          let (m₁, sized, append) = loops_lem n m v h (omega (arith, few, h)) in
          let (header, headed, streamed) = header-Streamed n m b more v h (omega (arith, few, h)) (
            length-header_buf e.hdrbuf (stream_header_size (u32 (num_segments m.arena - 1)))
            ∙ ap stream_header_size last) in
          let (m₂, appended) = append header in
          let (e', encoded, done) =
            encode_lem out content appends e (map length bs) header (header ++ concat bs) m m₁ m₂
              plain (ap (λ k. k == 0) h ∙ suc-not_zero n) (ap (λ k. segment_sizes k 0 m) h ∙ sized)
              headed (ap (λ k. append_segments k 0 header m₁) h ∙ appended) in
          let (s, decoded, rest) = decode-Streamed (header ++ concat bs) more bs streamed in
          (
            header ++ concat bs,
            e',
            m₂,
            s,
            encoded,
            done.plain,
            done.total,
            decoded ∙ ap (λ (t : List (List ℕ)). ok (multi_segment (map exact t), s)) (sym same),
            rest,
          )

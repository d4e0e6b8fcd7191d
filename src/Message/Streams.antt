-- ===== src/Message/Streams.antt =====
-- mem.go: `Decode`, which reads a message from a byte stream.
pub mod Decode
pub mod Encode
pub mod Encoder
pub mod RoundTrip
mod Tests
use go_capnproto.Prelude.{
  ℕ, ◌-◌, List, replicate, copy, copy_at, Option, none, some, Result, ok, err, ◌>>=◌,
}
use go_capnproto.Packed.Reader.{Source, Got}
use go_capnproto.Message.{Arena, multi_segment}
use go_capnproto.Message.Framing.{
  msg_header_size, stream_header_size, unmarshal_stream_header, uint32_at, sum_sizes, demux,
}

-- `io.ReadFull`: its bytes with the reader behind them, or its error.
unfoldable pub read_all : {S : Type 0} → Source S → S → ℕ → Result (List ℕ × S)
read_all io s n =
    let got = io.read_full s n in
    elim got.error [ none ↦ ok (got.bytes, got.after) | some e ↦ err e ]

-- The part that follows the first number: the rest of the header, and the segments.
unfoldable pub decode_segments : {S : Type 0} → Source S → List ℕ → S → ℕ → Result (Arena × S)
decode_segments io first s max_seg = do
  let hdr_size = stream_header_size max_seg
  (more, s₁) ← read_all io s (hdr_size - msg_header_size)
  (sizes, tail) ←
      unmarshal_stream_header (copy_at (copy (replicate hdr_size 0) first) msg_header_size more)
  (buf, s₂) ← read_all io s₁ (sum_sizes sizes)
  buffers ← demux sizes buf
  ok (multi_segment buffers, s₂)

-- `Decode`, up to the message that it puts around the arena, with the reader behind it.
unfoldable pub decode : {S : Type 0} → Source S → S → Result (Arena × S)
unfolding decode_segments
decode io s = do
  (first, s₁) ← read_all io s msg_header_size
  max_seg ← uint32_at first 0
  decode_segments io first s₁ max_seg

-- ===== src/Message/Streams/Encoder.antt =====
-- mem.go: `Encode`, which writes a message to a byte stream.
use go_capnproto.Prelude.{
  ℕ, zero, suc, ◌+◌, ◌-◌, List, [], ◌++◌, length, take, drop, replicate, ltb, Bool, Option, none,
  some, Error, if◌then◌else◌, u32, ◌==◌, Result, ok, err, panic, message_empty,
}
use go_capnproto.Packed.{pack}
use go_capnproto.Message.{M, ◌>>=◌, return, lift, segment, num_segments}
use go_capnproto.Message.Framing.{stream_header_size, marshal_stream_header}
use go_capnproto.Message.Marshal.{segment_sizes}

-- The io.Writer below; it is not part of the package.
pub record Writer (W : Type 0) : Type 0 where
  pub write : W → List ℕ → Option Error × W

-- `hdrbuf` has the bytes of the buffer up to its capacity.
pub record Encoder (W : Type 0) : Type 0 where
  pub w : W
  pub hdrbuf : List ℕ
  pub packed : Bool

unfoldable pub new_encoder : {W : Type 0} → Bool → W → Encoder W
new_encoder packed w = record { w = w; hdrbuf = []; packed = packed }

-- The buffer that is kept, where it has the capacity, or a new one.
abbrev pub header_buf : List ℕ → ℕ → List ℕ
header_buf hdrbuf hdr_size = if ltb (length hdrbuf) hdr_size then replicate hdr_size 0 else hdrbuf

module _ {W : Type 0} (io : Writer W) where
  abbrev pub write_result : Option Error × W → Result W
  write_result (none, w) = ok w
  write_result (some e, w) = err e

  abbrev pub to_writer : W → Result (List ℕ) → Result W
  to_writer w (ok b) = write_result (io.write w b)
  to_writer w (err e) = err e
  to_writer w (panic e) = panic e

  -- `write`
  unfoldable pub write : Encoder W → List ℕ → Result W
  write e b = to_writer e.w (if e.packed then pack [] b else ok b)

  -- The loop of `Encode`, from segment `i` on.
  unfoldable pub encode_segments : ℕ → ℕ → Encoder W → M (Encoder W)
  unfolding write
  encode_segments zero i e = return e
  encode_segments (suc n) i e = do
    s ← segment (u32 i)
    w ← lift (write e s.bytes)
    encode_segments n (i + 1) (record e { w = w })

  -- The part that follows the sizes: the header goes into a new buffer, or into the one that is kept.
  unfoldable pub encode_parts : ℕ → Encoder W → List ℕ → M (Encoder W)
  unfolding encode_segments write
  encode_parts nsegs e sizes = do
    let hdr_size = stream_header_size (u32 (nsegs - 1))
    let buf = header_buf e.hdrbuf hdr_size
    header ← lift (marshal_stream_header (take hdr_size buf) sizes)
    let e' = record e { hdrbuf = header ++ drop hdr_size buf }
    w ← lift (write e' header)
    encode_segments nsegs 0 (record e' { w = w })

  -- `Encode`: an error, of a segment or of the writer, ends it.
  unfoldable pub encode : Encoder W → M (Encoder W)
  unfolding encode_parts
  encode e m =
      if num_segments m.arena == 0
      then err message_empty
      else (segment_sizes (num_segments m.arena) 0 >>= encode_parts (num_segments m.arena) e) m

-- ===== src/Message/Marshal.antt =====
-- mem.go: a message as one byte slice.
pub mod View
pub mod Concat
pub mod RoundTrip
use go_capnproto.Prelude.{
  ℕ, zero, suc, ◌+◌, ◌-◌, List, [], ◌∷◌, ◌++◌, length, replicate, u32, sub32, leb, ◌==◌,
}
use go_capnproto.Prelude.{if◌then◌else◌, err, check, overlarge, message_empty}
use go_capnproto.Address.{max_size}
use go_capnproto.Message.{M, ◌>>=◌, return, lift, segment, num_segments}
use go_capnproto.Message.Framing.{stream_header_size, marshal_stream_header}

-- `segmentSizes`, from segment `i` on, for `n` more of them.
unfoldable pub segment_sizes : ℕ → ℕ → M (List ℕ)
segment_sizes zero i = return []
segment_sizes (suc n) i = do
  s ← segment (u32 i)
  _ ← lift (check (leb (length s.bytes) max_size) overlarge)
  sizes ← segment_sizes n (i + 1)
  return (length s.bytes ∷ sizes)

-- The loop of `Marshal` that appends the segments to the buffer.
unfoldable pub append_segments : ℕ → ℕ → List ℕ → M (List ℕ)
append_segments zero i buf = return buf
append_segments (suc n) i buf = do s ← segment (u32 i); append_segments n (i + 1) (buf ++ s.bytes)

unfoldable pub marshal_segments : ℕ → M (List ℕ)
marshal_segments nsegs = do
  let max_seg = u32 (nsegs - 1)
  sizes ← segment_sizes nsegs 0
  header ← lift (marshal_stream_header (replicate (stream_header_size max_seg) 0) sizes)
  append_segments nsegs 0 header

-- `Marshal`
unfoldable pub marshal : M (List ℕ)
marshal m =
    if num_segments m.arena == 0
    then err message_empty
    else marshal_segments (num_segments m.arena) m

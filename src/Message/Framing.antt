-- ===== src/Message/Framing.antt =====
-- mem.go: the header of the stream framing format, and the cutting of a stream into segments.
pub mod Header
use go_capnproto.Prelude.{ℕ, zero, suc, ◌+◌, ◌*◌, ◌/◌, List, [], ◌∷◌, length, drop, take}
use go_capnproto.Prelude.{copy_at, little_endian, put_little_endian, u32, sub32, int32, ltb, leb}
use go_capnproto.Prelude.{Result, ok, must, check, ◌>>=◌, ◌>>◌, slice_bounds}
use go_capnproto.Prelude.{unexpected_eof, eof}
use go_capnproto.Prelude.Bits.{and_not}
use go_capnproto.Address.{word_size, times}
use go_capnproto.Message.{Buffer, Arena, multi_segment}

abbrev pub msg_header_size : ℕ
msg_header_size = 4

abbrev pub seg_header_size : ℕ
seg_header_size = 4

unfoldable pub stream_header_size : ℕ → ℕ
stream_header_size n = and_not (msg_header_size + seg_header_size * (n + 1) + 7) 7

-- `binary.LittleEndian.Uint32(b[loc:])` and `PutUint32(b[loc:], v)`
unfoldable pub uint32_at : List ℕ → ℕ → Result ℕ
uint32_at b loc = do
  must (leb (loc + 4) (length b)) slice_bounds
  ok (little_endian (take 4 (drop loc b)))

unfoldable pub put_uint32_at : List ℕ → ℕ → ℕ → Result (List ℕ)
put_uint32_at b loc v = do
  must (leb (loc + 4) (length b)) slice_bounds
  ok (copy_at b loc (put_little_endian 4 v))

-- The loop of `marshalStreamHeader`, from segment `i` on.
unfoldable pub put_sizes : List ℕ → ℕ → List ℕ → Result (List ℕ)
put_sizes b i [] = ok b
put_sizes b i (sz ∷ sizes) = do
  b' ← put_uint32_at b (msg_header_size + i * seg_header_size) (u32 (sz / word_size))
  put_sizes b' (i + 1) sizes

-- The buffer is passed in, and returned as it is left.
unfoldable pub marshal_stream_header : List ℕ → List ℕ → Result (List ℕ)
marshal_stream_header b sizes = do
  b' ← put_uint32_at b 0 (sub32 (u32 (length sizes)) 1)
  put_sizes b' 0 sizes

-- The loop of `unmarshalStreamHeader`: `n` sizes, from segment `i` on.
unfoldable pub read_sizes : List ℕ → ℕ → ℕ → Result (List ℕ)
read_sizes b zero i = ok []
read_sizes b (suc n) i = do
  s ← uint32_at b (msg_header_size + i * seg_header_size)
  sz ← times word_size (int32 s)
  sizes ← read_sizes b n (i + 1)
  ok (sz ∷ sizes)

-- `int(maxSeg + 1)` is a uint32 sum.
unfoldable pub unmarshal_stream_header : List ℕ → Result (List ℕ × List ℕ)
unmarshal_stream_header b = do
  check (leb (stream_header_size 0) (length b)) unexpected_eof
  max_seg ← uint32_at b 0
  check (leb (stream_header_size max_seg) (length b)) unexpected_eof
  sizes ← read_sizes b (u32 (max_seg + 1)) 0
  ok (sizes, drop (stream_header_size max_seg) b)

-- `totalSize`; a uint64 sum of fewer than 2 ^ 32 sizes does not wrap.
unfoldable pub sum_sizes : List ℕ → ℕ
sum_sizes [] = 0
sum_sizes (sz ∷ sizes) = sz + sum_sizes sizes

-- `demuxArena`: `data[:sz:sz]` and `data[sz:]` for each size.
unfoldable pub demux : List ℕ → List ℕ → Result (List Buffer)
demux [] b = ok []
demux (sz ∷ sizes) b = do
  must (leb sz (length b)) slice_bounds
  rest ← demux sizes (drop sz b)
  ok (record { bytes = take sz b; capacity = sz } ∷ rest)

-- `Unmarshal`, up to the message that it puts around the arena.
unfoldable pub unmarshal : List ℕ → Result Arena
unmarshal b = do
  check (ltb 0 (length b)) eof
  (sizes, rest) ← unmarshal_stream_header b
  check (leb (sum_sizes sizes) (length rest)) unexpected_eof
  buffers ← demux sizes rest
  ok (multi_segment buffers)

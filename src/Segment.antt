-- ===== src/Segment.antt =====
-- capn.go: a segment, its bounds, and the reads and writes of whole integers.
pub mod Laws
pub mod Bounds
mod Tests
use go_capnproto.Prelude.{
  ℕ, ◌+◌, ◌%◌, ◌^◌, Bool, List, length, go_slice, copy_at, little_endian, put_little_endian,
}
use go_capnproto.Prelude.{u32, ltb, leb, Result, ok, out_of_bounds, ◌>>=◌, ◌>>◌, must}
use go_capnproto.Address.{add_size}

-- `data` is a slice: its bytes, and the capacity that `alloc` grows into. The message that a
-- segment belongs to is the one whose table holds it.
pub record Segment : Type 0 where
  pub id : ℕ
  pub bytes : List ℕ
  pub capacity : ℕ

-- `Address(len(s.data))`
abbrev pub end_address : Segment → ℕ
end_address s = u32 (length s.bytes)

unfoldable pub in_bounds : Segment → ℕ → Bool
in_bounds s addr = ltb addr (end_address s)

unfoldable pub region_in_bounds : Segment → ℕ → ℕ → Result Bool
region_in_bounds s base sz = do end ← add_size base sz; ok (leb end (end_address s))

unfoldable pub slice : Segment → ℕ → ℕ → Result (List ℕ)
slice s base sz = do
  inside ← region_in_bounds s base sz
  must inside out_of_bounds
  end ← add_size base sz
  go_slice s.bytes base end

-- `readUint8`, `readUint16`, `readUint32` and `readUint64`, by their number of bytes.
unfoldable pub read_uint : ℕ → Segment → ℕ → Result ℕ
read_uint size s addr = do b ← slice s addr size; ok (little_endian b)

unfoldable pub read_uint8 : Segment → ℕ → Result ℕ
read_uint8 s addr = read_uint 1 s addr

unfoldable pub read_uint16 : Segment → ℕ → Result ℕ
read_uint16 s addr = read_uint 2 s addr

unfoldable pub read_uint32 : Segment → ℕ → Result ℕ
read_uint32 s addr = read_uint 4 s addr

unfoldable pub read_uint64 : Segment → ℕ → Result ℕ
read_uint64 s addr = read_uint 8 s addr

unfoldable pub read_raw_pointer : Segment → ℕ → Result ℕ
read_raw_pointer s addr = read_uint64 s addr

-- A write goes through a slice of the segment's bytes.
unfoldable pub write_uint : ℕ → Segment → ℕ → ℕ → Result Segment
write_uint size s addr val = do
  _ ← slice s addr size
  ok (record s { bytes = copy_at s.bytes addr (put_little_endian size val) })

unfoldable pub write_uint8 : Segment → ℕ → ℕ → Result Segment
write_uint8 s addr val = write_uint 1 s addr val

unfoldable pub write_uint16 : Segment → ℕ → ℕ → Result Segment
write_uint16 s addr val = write_uint 2 s addr val

unfoldable pub write_uint32 : Segment → ℕ → ℕ → Result Segment
write_uint32 s addr val = write_uint 4 s addr val

unfoldable pub write_uint64 : Segment → ℕ → ℕ → Result Segment
write_uint64 s addr val = write_uint 8 s addr val

unfoldable pub write_raw_pointer : Segment → ℕ → ℕ → Result Segment
write_raw_pointer s addr val = write_uint64 s addr val

-- ===== src/Structs.antt =====
-- struct.go: structs in a message, their allocation, and the reads and writes of their fields.
-- A DataOffset and a BitOffset are uint32s.
mod Tests
pub mod Fields
pub mod Bits
use go_capnproto.Prelude.{
  ℕ, ◌+◌, ◌*◌, ◌^◌, ◌%◌, Bool, true, false, not, ◌&&◌, ◌||◌, Option, none, some, bit_and, bit_or,
}
use go_capnproto.Prelude.{
  pos, add32, u32, ltb, leb, ◌==◌, if◌then◌else◌, Result, ok, err, panic, out_of_bounds,
  nil_pointer, check, must, object_size,
}
use go_capnproto.Prelude.Bits.{and_not}
use go_capnproto.Address.{
  ObjectSize, is_valid, pad_to_word, total_size, add_size, add_offset, element, word_size,
  bit_byte_offset, bit_mask,
}
use go_capnproto.Segment.{Segment, read_uint, write_uint}
use go_capnproto.Message.{M, ◌>>=◌, return, lift, deref, alloc, update}
use go_capnproto.Pointer.{Struct, Pointer, null, is_some}
use go_capnproto.Prelude
use go_capnproto.Pointer.Read
use go_capnproto.Pointer.Read.{Reader, call, pure, read_ptr}

-- `NewStruct`; the segment is given by its id.
unfoldable pub new_struct : ℕ → ObjectSize → M Struct
new_struct id sz = do
  _ ← lift (check (is_valid sz) object_size)
  let padded = record sz { data_size = pad_to_word sz.data_size }
  total ← lift (total_size padded)
  at ← alloc id total
  let (seg, addr) = at
  return (record { seg = some seg; off = addr; size = padded; is_list_member = false })

-- The segment of a pointer that is known to have one; nil is dereferenced else.
unfoldable pub segment_of_pointer : Option ℕ → M Segment
segment_of_pointer none m = panic nil_pointer
segment_of_pointer (some id) m = deref id m

-- `Struct.pointerAddress`
unfoldable pub pointer_address : Struct → ℕ → Result ℕ
pointer_address p i =
    Prelude.◌>>=◌ (add_size p.off p.size.data_size) λ start. element start (pos i) word_size

-- `Struct.Pointer`
unfoldable pub pointer : Struct → ℕ → Reader Pointer
pointer p i m =
    if not (is_some p.seg) || leb p.size.pointer_count i then (ok null, m) else pointer_at p i m
  where
    pointer_at : Struct → ℕ → Reader Pointer
    pointer_at p i =
        Read.◌>>=◌ (call (segment_of_pointer p.seg))
          λ s. Read.◌>>=◌ (pure (pointer_address p i)) λ addr. read_ptr s addr

-- `BitOffset(p.size.DataSize*8)` is a product of uint32s.
unfoldable pub bit_in_data : Struct → ℕ → Bool
bit_in_data p bit = is_some p.seg && ltb bit (u32 (p.size.data_size * 8))

unfoldable pub data_address : Struct → ℕ → ℕ → Option ℕ
data_address p off sz =
    if not (is_some p.seg) || ltb p.size.data_size (add32 off sz)
    then none
    else some (add_offset p.off off)

-- A read of `size` bytes at an address of the pointer's segment, and a write there.
unfoldable pub read_at : ℕ → Option ℕ → ℕ → M ℕ
read_at size seg addr = do s ← segment_of_pointer seg; lift (read_uint size s addr)

unfoldable pub store : Segment → M (Unit {0})
store s m = ok (tt, record m { segs = update m.segs s.id s })

unfoldable pub write_at : ℕ → Option ℕ → ℕ → ℕ → M (Unit {0})
write_at size seg addr v = do
  s ← segment_of_pointer seg
  s' ← lift (write_uint size s addr v)
  store s'

unfoldable pub read_or_zero : ℕ → Option ℕ → Option ℕ → M ℕ
read_or_zero size seg none = return 0
read_or_zero size seg (some addr) = read_at size seg addr

unfoldable pub write_or_panic : ℕ → Option ℕ → Option ℕ → ℕ → M (Unit {0})
write_or_panic size seg none v = lift (panic out_of_bounds)
write_or_panic size seg (some addr) v = write_at size seg addr v

-- `Uint8`, `Uint16`, `Uint32` and `Uint64`, and their setters, by their number of bytes.
unfoldable pub uint : ℕ → Struct → ℕ → M ℕ
uint size p off = read_or_zero size p.seg (data_address p off size)

unfoldable pub set_uint : ℕ → Struct → ℕ → ℕ → M (Unit {0})
set_uint size p off v = write_or_panic size p.seg (data_address p off size) v

abbrev pub uint8 : Struct → ℕ → M ℕ
uint8 = uint 1

abbrev pub uint16 : Struct → ℕ → M ℕ
uint16 = uint 2

abbrev pub uint32 : Struct → ℕ → M ℕ
uint32 = uint 4

abbrev pub uint64 : Struct → ℕ → M ℕ
uint64 = uint 8

abbrev pub set_uint8 : Struct → ℕ → ℕ → M (Unit {0})
set_uint8 = set_uint 1

abbrev pub set_uint16 : Struct → ℕ → ℕ → M (Unit {0})
set_uint16 = set_uint 2

abbrev pub set_uint32 : Struct → ℕ → ℕ → M (Unit {0})
set_uint32 = set_uint 4

abbrev pub set_uint64 : Struct → ℕ → ℕ → M (Unit {0})
set_uint64 = set_uint 8

abbrev pub bit_address : Struct → ℕ → ℕ
bit_address p n = add_offset p.off (bit_byte_offset n)

-- `Bit` and `SetBit`
unfoldable pub bit : Struct → ℕ → M Bool
bit p n =
    if bit_in_data p n
    then (do b ← read_at 1 p.seg (bit_address p n); return (not (bit_and b (bit_mask n) == 0)))
    else return false

abbrev pub with_bit : ℕ → ℕ → Bool → ℕ
with_bit b mask true = bit_or b mask
with_bit b mask false = and_not b mask

unfoldable pub set_bit : Struct → ℕ → Bool → M (Unit {0})
set_bit p n v =
    if bit_in_data p n
    then (do
      b ← read_at 1 p.seg (bit_address p n)
      write_at 1 p.seg (bit_address p n) (with_bit b (bit_mask n) v))
    else lift (panic out_of_bounds)

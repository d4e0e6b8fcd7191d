-- ===== src/Lists.antt =====
-- list.go: lists in a message, their allocation, and the reads and writes of their elements.
-- An index is a Go int. Floats are their bits, as math.Float32bits and its like give them.
mod Tests
pub mod Text
pub mod Root
pub mod Elements
pub mod Integers
use go_capnproto.Prelude.{ℕ, Bool, true, false, not, ◌||◌, List, [], ◌∷◌, some, bit_and, copy_at}
use go_capnproto.Prelude.{
  ℤ, pos, negsuc, to_u32, int32, add32, ltb_ℤ, ◌==◌, if◌then◌else◌, Result, ok, panic,
  out_of_bounds, slice_bounds, object_size, check, ◌>>=◌,
}
use go_capnproto.Prelude.Bits.{and_not}
use go_capnproto.Address.{
  ObjectSize, is_valid, pad_to_word, total_size, times, add_size, add_offset, element, word_size,
  bit_byte_offset, bit_mask,
}
use go_capnproto.Segment.{Segment, read_uint, write_uint, write_raw_pointer}
use go_capnproto.Segment
use go_capnproto.RawPointer.{raw_struct_pointer}
use go_capnproto.Message.{Message, M, return, lift, deref, alloc}
use go_capnproto.Message
use go_capnproto.Pointer.{ObjectList, Struct, Pointer, is_some, nil_struct}
use go_capnproto.Pointer.Read.{Reader, call, pure, read_ptr}
use go_capnproto.Pointer.Read
use go_capnproto.Structs.{segment_of_pointer, read_at, write_at, store, with_bit}

abbrev bytes_size : ℕ → ℕ → ObjectSize
bytes_size bytes pointers = record { data_size = bytes; pointer_count = pointers }

abbrev pub list_at : ℕ → ℕ → ℤ → ObjectSize → ObjectList
list_at seg addr n sz = record {
  seg = some seg;
  off = addr;
  count = n;
  size = sz;
  is_composite_list = false;
  is_bit_list = false;
}

-- `sz.times(n)` bytes, of the segment `id` or of another one.
unfoldable pub alloc_times : ℕ → ℕ → ℤ → M (ℕ × ℕ)
alloc_times id sz n = Message.◌>>=◌ (lift (times sz n)) λ total. alloc id total

unfoldable pub new_primitive_list : ℕ → ℕ → ℤ → M ObjectList
new_primitive_list id sz n =
    Message.◌>>=◌ (alloc_times id sz n) λ at. return (list_at at.0 at.1 n (bytes_size sz 0))

-- The constructors of the integer lists; `NewFloat32List` asks for eight bytes an element.
abbrev pub new_uint8_list : ℕ → ℤ → M ObjectList
new_uint8_list id n = new_primitive_list id 1 n

abbrev pub new_uint16_list : ℕ → ℤ → M ObjectList
new_uint16_list id n = new_primitive_list id 2 n

abbrev pub new_uint32_list : ℕ → ℤ → M ObjectList
new_uint32_list id n = new_primitive_list id 4 n

abbrev pub new_uint64_list : ℕ → ℤ → M ObjectList
new_uint64_list id n = new_primitive_list id 8 n

abbrev pub new_float32_list : ℕ → ℤ → M ObjectList
new_float32_list id n = new_primitive_list id 8 n

unfoldable pub new_pointer_list : ℕ → ℤ → M ObjectList
new_pointer_list id n =
    Message.◌>>=◌ (alloc_times id word_size n) λ at. return (list_at at.0 at.1 n (bytes_size 0 1))

-- `(n+7)&^7` of an int32, and as many bytes.
abbrev pub round_up8 : ℤ → ℤ
round_up8 n = int32 (and_not (add32 (to_u32 n) 7) 7)

unfoldable pub new_bit_list : ℕ → ℤ → M ObjectList
new_bit_list id n =
    Message.◌>>=◌ (alloc_times id 1 (round_up8 n))
      λ at. return (record (list_at at.0 at.1 n (bytes_size 0 0)) { is_bit_list = true })

abbrev pub new_void_list : ℕ → ℤ → ObjectList
new_void_list id n = list_at id 0 n (bytes_size 0 0)

-- The size of a composite list: the tag word and the elements, as a sum of uint32s.
unfoldable pub composite_size : ObjectSize → ℤ → Result ℕ
composite_size sz n = do each ← total_size sz; total ← times each n; ok (add32 word_size total)

unfoldable pub write_tag : ℕ → ℕ → ℕ → M (Unit {0})
write_tag seg addr tag =
    Message.◌>>=◌ (deref seg) λ s. Message.◌>>=◌ (lift (write_raw_pointer s addr tag)) store

unfoldable pub new_composite_list : ℕ → ObjectSize → ℤ → M ObjectList
new_composite_list id sz n =
    let padded = record sz { data_size = pad_to_word sz.data_size } in
    Message.◌>>=◌ (lift (check (is_valid sz) object_size)) λ valid.
      Message.◌>>=◌ (lift (composite_size padded n)) λ total. Message.◌>>=◌ (alloc id total) λ at.
        Message.◌>>=◌ (lift (raw_struct_pointer n padded)) λ tag.
          Message.◌>>=◌ (write_tag at.0 at.1 tag) λ done.
            Message.◌>>=◌ (lift (add_size at.1 word_size))
              λ first. return (record (list_at at.0 first n padded) { is_composite_list = true })

-- `Len`
unfoldable pub list_len : ObjectList → ℤ
list_len p = if is_some p.seg then p.count else pos 0

-- The address and the size of an element that is in the list.
unfoldable pub elem_in : ObjectList → ℕ → Result (ℕ × ℕ)
elem_in p i =
    if p.is_bit_list
    then ok (add_offset p.off (bit_byte_offset i), 1)
    else (do sz ← total_size p.size; addr ← element p.off (pos i) sz; ok (addr, sz))

unfoldable pub list_elem : ObjectList → ℤ → Result (ℕ × ℕ)
list_elem p (negsuc i) = panic out_of_bounds
list_elem p (pos i) =
    if not (is_some p.seg) || not (ltb_ℤ (pos i) p.count) then panic out_of_bounds else elem_in p i

-- `List.slice`
unfoldable pub elem_slice : ObjectList → ℤ → M (List ℕ)
elem_slice p i =
    Message.◌>>=◌ (lift (list_elem p i))
      λ at. Message.◌>>=◌ (segment_of_pointer p.seg) λ s. lift (Segment.slice s at.0 at.1)

-- `List.Struct`
unfoldable pub struct_elem : ObjectList → ℤ → Result Struct
struct_elem p i = if p.is_bit_list then ok nil_struct else (do
  at ← list_elem p i
  ok (record { seg = p.seg; off = at.0; size = p.size; is_list_member = true }))

-- `b[0]`, and a write to it
unfoldable pub first_byte : List ℕ → Result ℕ
first_byte [] = panic slice_bounds
first_byte (b ∷ bs) = ok b

unfoldable pub byte_elem : ObjectList → ℤ → M ℕ
byte_elem p i = Message.◌>>=◌ (elem_slice p i) λ b. lift (first_byte b)

unfoldable pub set_byte_elem : ObjectList → ℤ → ℕ → M (Unit {0})
set_byte_elem p i v = Message.◌>>=◌ (byte_elem p i) λ old.
    Message.◌>>=◌ (lift (list_elem p i)) λ at.
      Message.◌>>=◌ (segment_of_pointer p.seg)
        λ s. store (record s { bytes = copy_at s.bytes at.0 (v ∷ []) })

-- `At` and `Set` of BitList
abbrev pub low32 : ℤ → ℕ
low32 i = to_u32 i

unfoldable pub bit_elem : ObjectList → ℤ → M Bool
bit_elem p i = Message.◌>>=◌ (byte_elem p i) λ b. return (not (bit_and b (bit_mask (low32 i)) == 0))

unfoldable pub set_bit_elem : ObjectList → ℤ → Bool → M (Unit {0})
set_bit_elem p i v =
    Message.◌>>=◌ (byte_elem p i) λ b. set_byte_elem p i (with_bit b (bit_mask (low32 i)) v)

-- `At` and `Set` of the lists of 16, 32 and 64 bits, by their number of bytes. They read that many
-- bytes from the element's address, whatever the list's element size is.
unfoldable pub uint_elem : ℕ → ObjectList → ℤ → M ℕ
uint_elem size p i = Message.◌>>=◌ (lift (list_elem p i)) λ at. read_at size p.seg at.0

unfoldable pub set_uint_elem : ℕ → ObjectList → ℤ → ℕ → M (Unit {0})
set_uint_elem size p i v = Message.◌>>=◌ (lift (list_elem p i)) λ at. write_at size p.seg at.0 v

-- `PointerList.At`
unfoldable pub pointer_elem : ObjectList → ℤ → Reader Pointer
pointer_elem p i =
    Read.◌>>=◌ (pure (list_elem p i))
      λ at. Read.◌>>=◌ (call (segment_of_pointer p.seg)) λ s. read_ptr s at.0

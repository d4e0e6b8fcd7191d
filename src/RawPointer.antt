-- ===== src/RawPointer.antt =====
-- rawpointer.go: the 64-bit words that encode pointers. A `rawPointer` is a number below 2 ^ 64,
-- and a `pointerOffset` an int32.
pub mod Fields
pub mod RoundTrip
pub mod Resolve
pub mod Lists
mod Tests
use go_capnproto.Prelude.{
  ℕ, ◌+◌, ◌-◌, ◌*◌, ◌/◌, ◌%◌, ◌^◌, Bool, ◌&&◌, bit_and, bit_or, Option, none, some,
}
use go_capnproto.Prelude.{
  ℤ, pos, neg, is_negative, to_u32, to_u64, shr_ℤ, shl64, int32, u16, u32, add32,
}
use go_capnproto.Prelude.{sub32, ltb, ◌==◌, if◌then◌else◌, Result, ok, panic, element_size, ◌>>=◌}
use go_capnproto.Prelude.Bits.{and_not}
use go_capnproto.Address.{ObjectSize, word_size, times, element, total_size, data_word_count}

-- `Address(off*8)` keeps the low 32 bits of the product, whatever its sign.
unfoldable pub resolve : ℤ → ℕ → Option ℕ
resolve off paddr =
    if is_negative off && ltb paddr (to_u32 (neg off))
    then none
    else some (add32 (add32 paddr (u32 (to_u32 off * 8))) 8)

unfoldable pub make_pointer_offset : ℕ → ℕ → ℤ
make_pointer_offset paddr addr = int32 (sub32 (sub32 (addr / word_size) (paddr / word_size)) 1)

abbrev pub struct_pointer : ℕ
struct_pointer = 0

abbrev pub list_pointer : ℕ
list_pointer = 1

abbrev pub far_pointer : ℕ
far_pointer = 2

abbrev pub double_far_pointer : ℕ
double_far_pointer = 6

abbrev pub other_pointer : ℕ
other_pointer = 3

abbrev pub void_list : ℕ
void_list = 0

abbrev pub bit1_list : ℕ
bit1_list = 1

abbrev pub byte1_list : ℕ
byte1_list = 2

abbrev pub byte2_list : ℕ
byte2_list = 3

abbrev pub byte4_list : ℕ
byte4_list = 4

abbrev pub byte8_list : ℕ
byte8_list = 5

abbrev pub pointer_list : ℕ
pointer_list = 6

abbrev pub composite_list : ℕ
composite_list = 7

abbrev pub zero_hi32 : ℕ
zero_hi32 = 2 ^ 32 - 1

-- `signedOff << 2` is an int32, and its conversion to uint64 extends the sign.
unfoldable pub orable_offset : ℤ → ℕ
orable_offset off = let d32 = int32 (u32 (to_u32 off * 4)) in bit_and (to_u64 d32) zero_hi32

unfoldable pub raw_struct_pointer : ℤ → ObjectSize → Result ℕ
raw_struct_pointer off sz = do
  words ← data_word_count sz
  ok (
      bit_or (bit_or (bit_or struct_pointer (orable_offset off)) (shl64 (to_u64 words) 32))
        (shl64 sz.pointer_count 48))

unfoldable pub raw_list_pointer : ℤ → ℕ → ℤ → ℕ
raw_list_pointer off list_type length =
    bit_or (bit_or (bit_or list_pointer (orable_offset off)) (shl64 list_type 32))
      (shl64 (to_u64 length) 35)

unfoldable pub raw_interface_pointer : ℕ → ℕ
raw_interface_pointer capability = bit_or other_pointer (shl64 capability 32)

unfoldable pub raw_far_pointer : ℕ → ℕ → ℕ
raw_far_pointer seg_id off = bit_or (bit_or far_pointer (and_not off 7)) (shl64 seg_id 32)

unfoldable pub raw_double_far_pointer : ℕ → ℕ → ℕ
raw_double_far_pointer seg_id off =
    bit_or (bit_or double_far_pointer (and_not off 7)) (shl64 seg_id 32)

unfoldable pub pointer_type : ℕ → ℕ
pointer_type p = let t = bit_and p 3 in if t == far_pointer then bit_and p 7 else t

unfoldable pub struct_size : ℕ → Result ObjectSize
struct_size p = do
  data_size ← times word_size (pos (u16 (p / 2 ^ 32)))
  ok (record { data_size = data_size; pointer_count = u16 (p / 2 ^ 48) })

unfoldable pub list_type : ℕ → ℕ
list_type p = bit_and (p / 2 ^ 32) 7

-- A 64-bit word shifted by 35 lies below 2 ^ 29, so the int32 is the number itself.
unfoldable pub num_list_elements : ℕ → ℕ
num_list_elements p = p / 2 ^ 35

abbrev pub object_size : ℕ → ℕ → ObjectSize
object_size bytes pointers = record { data_size = bytes; pointer_count = pointers }

-- `elementSize`; the size of an element is ignored on bit lists.
unfoldable pub list_element_size : ℕ → Result ObjectSize
list_element_size p =
    let t = list_type p in
    if t == void_list
    then ok (object_size 0 0)
    else if t == bit1_list
    then ok (object_size 0 0)
    else if t == byte1_list
    then ok (object_size 1 0)
    else if t == byte2_list
    then ok (object_size 2 0)
    else if t == byte4_list
    then ok (object_size 4 0)
    else if t == byte8_list
    then ok (object_size 8 0)
    else if t == pointer_list
    then ok (object_size 0 1)
    else panic element_size

-- The elements of a list that is neither void nor composite nor of bits.
unfoldable pub total_elements_size : ℕ → Result ℕ
total_elements_size p = do
  sz ← list_element_size p
  each ← total_size sz
  times each (pos (num_list_elements p))

-- For a composite list the elements are words, and the tag word is not among them.
unfoldable pub total_list_size : ℕ → Result ℕ
total_list_size p =
    let n = num_list_elements p in
    if list_type p == void_list
    then ok 0
    else if list_type p == bit1_list
    then ok ((n + 7) / 8)
    else if list_type p == composite_list
    then times word_size (pos (n + 1))
    else total_elements_size p

-- `int32(u32) >> 2`
unfoldable pub offset : ℕ → ℤ
offset p = shr_ℤ (int32 (bit_and p zero_hi32)) 2

unfoldable pub other_pointer_type : ℕ → ℕ
other_pointer_type p = u32 (bit_and p zero_hi32 / 4)

unfoldable pub far_address : ℕ → Result ℕ
far_address p = element 0 (pos (bit_and p zero_hi32 / 2 ^ 3)) word_size

unfoldable pub far_segment : ℕ → ℕ
far_segment p = u32 (p / 2 ^ 32)

unfoldable pub capability_index : ℕ → ℕ
capability_index p = u32 (p / 2 ^ 32)

unfoldable pub landing_pad_near_pointer : ℕ → ℕ → Result ℕ
landing_pad_near_pointer far tag = do
  addr ← far_address far
  ok (bit_or tag (shl64 (sub32 addr word_size) 2))

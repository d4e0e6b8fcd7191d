-- ===== src/Pointer.antt =====
-- pointer.go, with the types of struct.go, list.go and capability.go that implement a Pointer.
-- A *Segment is the id of a segment of the message, or none for nil.
mod Tests
pub mod Near
pub mod Read
use go_capnproto.Prelude.{
  ℕ, ◌+◌, ◌-◌, ◌*◌, ◌^◌, ◌%◌, Bool, true, false, not, ◌&&◌, Option, none, some,
}
use go_capnproto.Prelude.{ℤ, pos, negsuc, int32, to_u32, sub32, u32, get_elem?, leb, ltb, ◌==◌}
use go_capnproto.Prelude.{if◌then◌else◌, Result, ok, err, panic, list_size, object_type, ◌>>=◌}
use go_capnproto.Address.{ObjectSize, is_zero, total_size, times, word_size, total_word_count}
use go_capnproto.RawPointer.{
  make_pointer_offset, raw_struct_pointer, raw_list_pointer, raw_interface_pointer,
}
use go_capnproto.RawPointer.{
  void_list, bit1_list, byte1_list, byte2_list, byte4_list, byte8_list, pointer_list,
  composite_list,
}
use go_capnproto.Message.{Message}

pub record Struct : Type 0 where
  pub seg : Option ℕ
  pub off : ℕ
  pub size : ObjectSize
  pub is_list_member : Bool

-- The type `List`; `length` is an int32, and the two flags are the bits of `listFlags`.
pub record ObjectList : Type 0 where
  pub seg : Option ℕ
  pub off : ℕ
  pub count : ℤ
  pub size : ObjectSize
  pub is_composite_list : Bool
  pub is_bit_list : Bool

pub record Interface : Type 0 where
  pub seg : Option ℕ
  pub capability : ℕ

-- `null` is the nil interface value.
pub data Pointer : Type 0 where
  null : Pointer
  to_struct : Struct → Pointer
  to_list : ObjectList → Pointer
  to_interface : Interface → Pointer

abbrev pub is_some : {A : Type 0} → Option A → Bool
is_some none = false
is_some (some a) = true

-- `p.Segment()`
unfoldable pub pointer_segment : Pointer → Option ℕ
pointer_segment null = none
pointer_segment (to_struct p) = p.seg
pointer_segment (to_list p) = p.seg
pointer_segment (to_interface p) = p.seg

-- `IsValid`
unfoldable pub is_valid_pointer : Pointer → Bool
is_valid_pointer p = is_some (pointer_segment p)

-- `List.HasData`
unfoldable pub list_has_data : ObjectList → Result Bool
list_has_data p = do each ← total_size p.size; total ← times each p.count; ok (ltb 0 total)

-- The method of each type, and the function `HasData`.
unfoldable pub has_data_of : Pointer → Result Bool
has_data_of null = ok false
has_data_of (to_struct p) = ok (not (is_zero p.size))
has_data_of (to_list p) = list_has_data p
has_data_of (to_interface p) = ok true

unfoldable pub pointer_has_data : Pointer → Result Bool
pointer_has_data p = if is_valid_pointer p then has_data_of p else ok false

abbrev pub nil_struct : Struct
nil_struct = record {
  seg = none;
  off = 0;
  size = record { data_size = 0; pointer_count = 0 };
  is_list_member = false;
}

abbrev pub nil_list : ObjectList
nil_list = record {
  seg = none;
  off = 0;
  count = pos 0;
  size = record { data_size = 0; pointer_count = 0 };
  is_composite_list = false;
  is_bit_list = false;
}

-- `ToStruct` and `ToList`. One without a segment gives an invalid one.
unfoldable pub as_struct : Pointer → Struct
as_struct null = nil_struct
as_struct (to_struct p) = if is_some p.seg then p else nil_struct
as_struct (to_list p) = nil_struct
as_struct (to_interface p) = nil_struct

unfoldable pub as_list : Pointer → ObjectList
as_list null = nil_list
as_list (to_struct p) = nil_list
as_list (to_list p) = if is_some p.seg then p else nil_list
as_list (to_interface p) = nil_list

-- `pointerAddress`: other pointers have no method `Address`.
unfoldable pub pointer_address_of : Pointer → Result ℕ
pointer_address_of null = panic object_type
pointer_address_of (to_struct p) = ok p.off
pointer_address_of (to_list p) = ok p.off
pointer_address_of (to_interface p) = panic object_type

unfoldable pub struct_value : Struct → ℕ → Result ℕ
struct_value p paddr = raw_struct_pointer (make_pointer_offset paddr p.off) p.size

-- `off-1` of an int32
abbrev pub pred32 : ℤ → ℤ
pred32 z = int32 (sub32 (to_u32 z) 1)

-- The int32 product of the length and the words of an element.
unfoldable pub composite_words : ObjectList → Result ℤ
composite_words p = do each ← total_word_count p.size; ok (int32 (to_u32 p.count * to_u32 each))

-- The cases of `List.value` by the size of an element's data.
unfoldable pub data_list_value : ObjectList → ℤ → Result ℕ
data_list_value p off =
    let n = p.size.data_size in
    if n == 0
    then ok (raw_list_pointer off void_list p.count)
    else if n == 1
    then ok (raw_list_pointer off byte1_list p.count)
    else if n == 2
    then ok (raw_list_pointer off byte2_list p.count)
    else if n == 4
    then ok (raw_list_pointer off byte4_list p.count)
    else if n == 8
    then ok (raw_list_pointer off byte8_list p.count)
    else panic list_size

-- `List.value` of a list with a segment
unfoldable pub list_value_in : ObjectList → ℤ → Result ℕ
list_value_in p off =
    if p.is_composite_list
    then (do words ← composite_words p; ok (raw_list_pointer (pred32 off) composite_list words))
    else if p.is_bit_list
    then ok (raw_list_pointer off bit1_list p.count)
    else if p.size.pointer_count == 1 && p.size.data_size == 0
    then ok (raw_list_pointer off pointer_list p.count)
    else if not (p.size.pointer_count == 0)
    then panic list_size
    else data_list_value p off

unfoldable pub list_value : ObjectList → ℕ → Result ℕ
list_value p paddr =
    if is_some p.seg then list_value_in p (make_pointer_offset paddr p.off) else ok 0

unfoldable pub interface_value : Interface → ℕ → ℕ
interface_value p paddr = if is_some p.seg then raw_interface_pointer p.capability else 0

-- `Interface.Client`: none is the nil client.
unfoldable pub client : Interface → Message → Option ℕ
client p m = if is_some p.seg then get_elem? m.cap_table p.capability else none

-- ===== src/Pointer/Near.antt =====
-- capn.go: the cases of `readPtr` by the kind of the pointer word, far pointers resolved.
pub mod Inside
use go_capnproto.Prelude.{ℕ, Bool, true, false, Option, none, some}
use go_capnproto.Prelude.{pos, ◌==◌, if◌then◌else◌, Result, ok, err}
use go_capnproto.Prelude.{check, pointer_address, bad_tag, bad_landing_pad, other_pointer}
use go_capnproto.Prelude.{◌>>=◌, ◌>>◌}
use go_capnproto.Address.{ObjectSize, word_size, times, add_size, total_size}
use go_capnproto.Segment.{Segment, region_in_bounds, read_raw_pointer}
use go_capnproto.RawPointer.{pointer_type, struct_pointer, list_pointer}
use go_capnproto.RawPointer.{offset, resolve, struct_size, list_type, total_list_size, object_size}
use go_capnproto.RawPointer.{
  num_list_elements, list_element_size, other_pointer_type, capability_index, composite_list,
}
use go_capnproto.RawPointer.{bit1_list}
use go_capnproto.Pointer.{Pointer, null, to_struct, to_list}
use go_capnproto.Pointer.{to_interface}

-- `if !s.regionInBounds(addr, sz) { return nil, errPointerAddress }`
unfoldable pub check_region : Segment → ℕ → ℕ → Result (Unit {0})
check_region s addr sz = do inside ← region_in_bounds s addr sz; check inside pointer_address

unfoldable pub resolved : Option ℕ → Result ℕ
resolved none = err pointer_address
resolved (some addr) = ok addr

unfoldable pub near_struct : Segment → ℕ → ℕ → Result Pointer
near_struct s off val = do
  addr ← resolved (resolve (offset val) off)
  sz ← struct_size val
  total ← total_size sz
  check_region s addr total
  ok (to_struct (record { seg = some s.id; off = addr; size = sz; is_list_member = false }))

-- A composite list, whose tag word is at `tag_address`.
unfoldable pub near_composite : Segment → ℕ → Result Pointer
near_composite s tag_address = do
  hdr ← read_raw_pointer s tag_address
  addr ← add_size tag_address word_size
  check (pointer_type hdr == struct_pointer) bad_tag
  sz ← struct_size hdr
  let n = offset hdr
  each ← total_size sz
  total ← times each n
  check_region s addr total
  ok (
      to_list (record {
        seg = some s.id;
        off = addr;
        count = n;
        size = sz;
        is_composite_list = true;
        is_bit_list = false;
      }))

unfoldable pub plain_list : Segment → ℕ → ℕ → ObjectSize → Bool → Pointer
plain_list s addr n sz bits = to_list (record {
  seg = some s.id;
  off = addr;
  count = pos n;
  size = sz;
  is_composite_list = false;
  is_bit_list = bits;
})

unfoldable pub near_list_at : Segment → ℕ → ℕ → Result Pointer
near_list_at s addr val =
    let n = num_list_elements val in
    if list_type val == composite_list
    then near_composite s addr
    else if list_type val == bit1_list
    then ok (plain_list s addr n (object_size 0 0) true)
    else (do sz ← list_element_size val; ok (plain_list s addr n sz false))

unfoldable pub near_list : Segment → ℕ → ℕ → Result Pointer
near_list s off val = do
  addr ← resolved (resolve (offset val) off)
  lsize ← total_list_size val
  check_region s addr lsize
  near_list_at s addr val

unfoldable pub near_other : Segment → ℕ → Result Pointer
near_other s val = do
  check (other_pointer_type val == 0) other_pointer
  ok (to_interface (record { seg = some s.id; capability = capability_index val }))

unfoldable pub near_pointer : Segment → ℕ → ℕ → Result Pointer
near_pointer s off val =
    if val == 0
    then ok null
    else if pointer_type val == struct_pointer
    then near_struct s off val
    else if pointer_type val == list_pointer
    then near_list s off val
    else if pointer_type val == 3
    then near_other s val
    else err bad_landing_pad

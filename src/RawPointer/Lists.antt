-- ===== src/RawPointer/Lists.antt =====
-- rawpointer.go: `totalListSize` against the element widths of the encoding.
use go_capnproto.Prelude.{ℕ, ◌+◌, ◌-◌, ◌*◌, ◌/◌, ◌^◌, ◌≤◌, ◌<◌, ◌≡◌, ◌≢◌, arith}
use go_capnproto.Prelude.{true, IsU64, ok, panic, overlarge, if◌then◌else◌, ◌==◌}
use go_capnproto.Address.{is_valid}
use go_capnproto.Address.Laws.{times_fits, times_overlarge, total_size_lem}
use go_capnproto.RawPointer.{list_type, num_list_elements, list_element_size, total_elements_size}
use go_capnproto.RawPointer.{total_list_size, object_size, composite_list}
use go_capnproto.RawPointer.Fields.{list_type_lem}

-- The bits of an element of each list type; a composite list counts words.
abbrev pub element_bits : ℕ → ℕ
element_bits t =
    if t == 0
    then 0
    else if t == 1
    then 1
    else if t == 2
    then 8
    else if t == 3
    then 16
    else if t == 4
    then 32
    else 64

pub list_type-lt : (p : ℕ) → list_type p < 8
list_type-lt p = omega (arith, list_type_lem p)

num_list_elements-lt : (p : ℕ) → IsU64 p → num_list_elements p < 2 ^ 29
unfolding num_list_elements
num_list_elements-lt p h = omega arith

pub valid_small : (bytes pointers : ℕ) → bytes ≤ 8 → is_valid (object_size bytes pointers) ≡ true
unfolding is_valid
valid_small bytes pointers h = ground arith

total_elements_size_lem :
    (p bytes pointers : ℕ)
    → list_element_size p ≡ ok (object_size bytes pointers)
    → bytes + 8 * pointers ≤ 8
    → IsU64 p
    → total_elements_size p ≡ ok ((bytes + 8 * pointers) * num_list_elements p)
unfolding total_elements_size
total_elements_size_lem p bytes pointers e h w =
    rw
      (
        e,
        total_size_lem (object_size bytes pointers) (omega arith)
            (valid_small bytes pointers (omega arith)),
      )
      (times_fits (bytes + 8 * pointers) (num_list_elements p)
        (grind (arith, num_list_elements-lt p w)))

-- The size of a list that is not composite is its elements' bits, rounded up to bytes.
pub total_list_size_lem :
    (p : ℕ)
    → IsU64 p
    → list_type p ≢ composite_list
    → total_list_size p ≡ ok ((num_list_elements p * element_bits (list_type p) + 7) / 8)
unfolding total_list_size list_element_size
total_list_size_lem p h ne = ground (
  arith,
  list_type-lt p,
  total_elements_size_lem p 1 0,
  total_elements_size_lem p 2 0,
  total_elements_size_lem p 4 0,
  total_elements_size_lem p 8 0,
  total_elements_size_lem p 0 1,
)

-- A composite list takes its words and the tag word; the largest count overflows, and panics.
pub total_list_size_composite :
    (p : ℕ)
    → IsU64 p
    → list_type p ≡ composite_list
    → total_list_size p ≡ (
        if num_list_elements p == 2 ^ 29 - 1
        then panic overlarge
        else ok (8 * num_list_elements p + 8))
unfolding total_list_size
total_list_size_composite p h e = ground (
  arith,
  num_list_elements-lt p h,
  times_fits 8 (num_list_elements p + 1),
  times_overlarge 8 (num_list_elements p + 1),
)

-- ===== src/RawPointer/RoundTrip.antt =====
-- rawpointer.go: what the readers find in the words that the constructors build, and back.
use go_capnproto.Prelude.{ℕ, ◌+◌, ◌*◌, ◌/◌, ◌%◌, ◌^◌, ◌<◌, ◌≡◌, arith, ap, ap₂, ◌∙◌}
use go_capnproto.Prelude.{ℤ, pos, FitsSigned, IsU16, IsU32, IsU64, ok}
use go_capnproto.Prelude.Bits.{bit_and_mask}
use go_capnproto.Address.{ObjectSize}
use go_capnproto.RawPointer.{raw_struct_pointer, raw_list_pointer, raw_far_pointer, struct_pointer}
use go_capnproto.RawPointer.{
  raw_double_far_pointer, raw_interface_pointer, object_size, list_pointer,
}
use go_capnproto.RawPointer.{pointer_type, struct_size, list_type, offset, far_address, far_segment}
use go_capnproto.RawPointer.{num_list_elements, capability_index, other_pointer_type, far_pointer}
use go_capnproto.RawPointer.{double_far_pointer, other_pointer}
use go_capnproto.RawPointer.Fields.{low30, raw_struct_pointer_lem, raw_list_pointer_lem}
use go_capnproto.RawPointer.Fields.{raw_far_pointer_lem, raw_double_far_pointer_lem, shr_ℤ-int32}
use go_capnproto.RawPointer.Fields.{raw_interface_pointer_lem, pointer_type_lem, list_type_lem}
use go_capnproto.RawPointer.Fields.{struct_size_lem, offset_lem, far_address_lem}

-- The offset that a word with a two-bit tag and nothing between it and the offset holds.
offset_of_fields :
    (p : ℕ) (off : ℤ) → FitsSigned 30 off → p % 2 ^ 32 / 4 ≡ low30 off → offset p ≡ off
offset_of_fields p off h e = offset_lem p ∙ shr_ℤ-int32 p off h e

-- The word that `rawStructPointer` builds, with an offset of 30 bits and sections of at most
-- 65535 words, is read back as a struct pointer with that offset and those sections.
pub raw_struct_pointer_roundtrip :
    (off : ℤ) (words pointers : ℕ)
    → FitsSigned 30 off
    → IsU16 words
    → IsU16 pointers
    → (p : ℕ) × (raw_struct_pointer off (object_size (8 * words) pointers) ≡ ok p)
      × (pointer_type p ≡ struct_pointer)
      × (offset p ≡ off)
      × (struct_size p ≡ ok (object_size (8 * words) pointers))
raw_struct_pointer_roundtrip off words pointers ho hw hp = (
  word,
  raw_struct_pointer_lem off words pointers hw hp,
  ground (arith, pointer_type_lem word),
  offset_of_fields word off ho (omega arith),
  struct_size_lem word ∙ ap₂ (λ w k. ok (object_size (8 * w) k)) (omega arith) (omega arith),
)
  where
    word : ℕ
    word = low30 off * 4 + words * 2 ^ 32 + pointers * 2 ^ 48

-- The word that `rawListPointer` builds is read back as a list pointer with the same offset,
-- element type and number of elements, for an offset of 30 bits and fewer than 2 ^ 29 elements.
pub raw_list_pointer_roundtrip :
    (off : ℤ) (type length : ℕ)
    → FitsSigned 30 off
    → type < 8
    → length < 2 ^ 29
    → let p = raw_list_pointer off type (pos length) in
      (pointer_type p ≡ list_pointer)
      × (offset p ≡ off)
      × (list_type p ≡ type)
      × (num_list_elements p ≡ length)
unfolding num_list_elements
raw_list_pointer_roundtrip off type length ho ht hl =
    rw (raw_list_pointer_lem off type length ht hl) (
      ground (arith, pointer_type_lem word),
      offset_of_fields word off ho (omega arith),
      list_type_lem word ∙ omega arith,
      omega arith,
    )
  where
    word : ℕ
    word = 1 + low30 off * 4 + type * 2 ^ 32 + length * 2 ^ 35

-- A far pointer, single or double, is read back with its kind, its segment and the address of its
-- landing pad, cut down to a word boundary.
pub raw_far_pointer_roundtrip :
    (seg off : ℕ)
    → IsU32 seg
    → IsU32 off
    → (pointer_type (raw_far_pointer seg off) ≡ far_pointer)
      × (far_segment (raw_far_pointer seg off) ≡ seg)
      × (far_address (raw_far_pointer seg off) ≡ ok (off / 8 * 8))
      × (pointer_type (raw_double_far_pointer seg off) ≡ double_far_pointer)
      × (far_segment (raw_double_far_pointer seg off) ≡ seg)
      × (far_address (raw_double_far_pointer seg off) ≡ ok (off / 8 * 8))
unfolding far_segment
raw_far_pointer_roundtrip seg off hs ho =
    rw (raw_far_pointer_lem seg off hs ho, raw_double_far_pointer_lem seg off hs ho)
      (
        ground (arith, pointer_type_lem (2 + off / 8 * 8 + seg * 2 ^ 32)),
        omega arith,
        far_address_lem _ ∙ ap ok (omega arith),
        ground (arith, pointer_type_lem (6 + off / 8 * 8 + seg * 2 ^ 32)),
        omega arith,
        far_address_lem _ ∙ ap ok (omega arith),
      )

-- An interface pointer is read back as a capability, with its index in the capability table.
pub raw_interface_pointer_roundtrip :
    (cap : ℕ)
    → IsU32 cap
    → let p = raw_interface_pointer cap in
      (pointer_type p ≡ other_pointer) × (other_pointer_type p ≡ 0) × (capability_index p ≡ cap)
unfolding other_pointer_type capability_index
raw_interface_pointer_roundtrip cap h = rw (raw_interface_pointer_lem cap h) (
  ground (arith, pointer_type_lem (3 + cap * 2 ^ 32)),
  omega (arith, bit_and_mask 32 (3 + cap * 2 ^ 32)),
  omega arith,
)

low30-offset : (p : ℕ) → low30 (offset p) ≡ p % 2 ^ 32 / 4
low30-offset p = ground (arith, offset_lem p)

-- Every 64-bit word with the tag of a struct pointer is rebuilt, bit by bit, from the offset and
-- the sizes that the readers find in it.
pub struct_word_roundtrip :
    (p : ℕ)
    → IsU64 p
    → pointer_type p ≡ struct_pointer
    → (sz : ObjectSize) × (struct_size p ≡ ok sz) × (raw_struct_pointer (offset p) sz ≡ ok p)
struct_word_roundtrip p h t = (
  object_size (8 * words) pointers,
  struct_size_lem p,
  raw_struct_pointer_lem (offset p) words pointers (omega arith) (omega arith)
      ∙ ap ok (omega (arith, low30-offset p, tag)),
)
  where
    words : ℕ
    words = p / 2 ^ 32 % 2 ^ 16

    pointers : ℕ
    pointers = p / 2 ^ 48 % 2 ^ 16

    tag : p % 4 ≡ 0
    tag = ground (arith, pointer_type_lem p)

-- The same for a list pointer.
pub list_word_roundtrip :
    (p : ℕ)
    → IsU64 p
    → pointer_type p ≡ list_pointer
    → raw_list_pointer (offset p) (list_type p) (pos (num_list_elements p)) ≡ p
unfolding num_list_elements
list_word_roundtrip p h t = rw (list_type_lem p) (
    raw_list_pointer_lem (offset p) (p / 2 ^ 32 % 8) (p / 2 ^ 35) (omega arith) (omega arith)
    ∙ omega (arith, low30-offset p, tag))
  where
    tag : p % 4 ≡ 1
    tag = ground (arith, pointer_type_lem p)

-- ===== src/RawPointer/Fields.antt =====
-- The encodings of rawpointer.go as sums of their bit fields, and the fields read back.
use go_capnproto.Prelude.{ℕ, ◌+◌, ◌*◌, ◌/◌, ◌%◌, ◌^◌, ◌<◌, ◌≡◌, refl, arith, ap, ap₂, ◌∙◌}
use go_capnproto.Prelude.{
  ℤ, pos, negsuc, FitsSigned, to_u32, to_u64, shl64, int32, IsU32, ok, bit_or,
}
use go_capnproto.Prelude.{shr_ℤ}
use go_capnproto.Prelude.{if◌then◌else◌, ◌==◌}
use native.Mathlib.Nat.{mod-eq_of_lt}
use go_capnproto.Prelude.Bits.{bit_and_mask, bit_or_low_high, and_not}
use go_capnproto.Address.Laws.{data_word_count_lem, element_fits, times_fits}
use go_capnproto.RawPointer.{orable_offset, raw_struct_pointer, raw_list_pointer, raw_far_pointer}
use go_capnproto.RawPointer.{raw_double_far_pointer, raw_interface_pointer, object_size}
use go_capnproto.RawPointer.{pointer_type, struct_size, list_type, offset, far_address}

-- The 30-bit two's complement of an offset.
abbrev pub low30 : ℤ → ℕ
low30 off = to_u32 off % 2 ^ 30

pub orable_offset_lem : (off : ℤ) → orable_offset off ≡ low30 off * 4
unfolding orable_offset
orable_offset_lem (pos n) =
    ground (arith, bit_and_mask 32 (to_u64 (int32 (to_u32 (pos n) * 4 % 2 ^ 32))))
orable_offset_lem (negsuc n) =
    ground (arith, bit_and_mask 32 (to_u64 (int32 (to_u32 (negsuc n) * 4 % 2 ^ 32))))

-- `|` of a tag in two bits, an offset in thirty, and two fields further up is their sum.
pub join_fields :
    (k tag low mid high : ℕ)
    → tag < 4
    → low < 2 ^ 30
    → mid * 2 ^ 32 < 2 ^ 64
    → tag + low * 4 + mid * 2 ^ 32 < 2 ^ k
    → high * 2 ^ k < 2 ^ 64
    → bit_or (bit_or (bit_or tag (low * 4)) (shl64 mid 32)) (shl64 high k)
      ≡ tag + low * 4 + mid * 2 ^ 32 + high * 2 ^ k
join_fields k tag low mid high ht hl hm hk hh =
    ap₂ bit_or
      (ap₂ bit_or (bit_or_low_high 2 tag low ht) (mod-eq_of_lt hm)
        ∙ bit_or_low_high 32 (tag + low * 4) mid (omega arith))
      (mod-eq_of_lt hh)
    ∙ bit_or_low_high k (tag + low * 4 + mid * 2 ^ 32) high hk

-- A struct pointer: offset, data words, pointers.
pub raw_struct_pointer_lem :
    (off : ℤ) (words pointers : ℕ)
    → words < 2 ^ 16
    → pointers < 2 ^ 16
    → raw_struct_pointer off (object_size (8 * words) pointers)
      ≡ ok (low30 off * 4 + words * 2 ^ 32 + pointers * 2 ^ 48)
unfolding raw_struct_pointer
raw_struct_pointer_lem off words pointers hw hp =
    rw (data_word_count_lem (object_size (8 * words) pointers) words refl (omega arith)) (
      ap ok (
        ap₂ (λ o w. bit_or (bit_or (bit_or 0 o) (shl64 w 32)) (shl64 pointers 48))
          (orable_offset_lem off) (mod-eq_of_lt {n = words} {m = 2 ^ 64} (omega arith))
        ∙ join_fields 48 0 (low30 off) words pointers (omega arith) (omega arith) (omega arith)
            (omega arith) (omega arith)
        ∙ omega arith))

-- A list pointer: offset, element type, length.
pub raw_list_pointer_lem :
    (off : ℤ) (type length : ℕ)
    → type < 8
    → length < 2 ^ 29
    → raw_list_pointer off type (pos length) ≡ 1 + low30 off * 4 + type * 2 ^ 32 + length * 2 ^ 35
unfolding raw_list_pointer
raw_list_pointer_lem off type length ht hl =
    ap₂ (λ o n. bit_or (bit_or (bit_or 1 o) (shl64 type 32)) (shl64 n 35)) (orable_offset_lem off)
      (mod-eq_of_lt {n = length} {m = 2 ^ 64} (omega arith))
    ∙ join_fields 35 1 (low30 off) type length (omega arith) (omega arith) (omega arith)
        (omega arith) (omega arith)

pub and_not_seven : (off : ℕ) → and_not off 7 ≡ off / 8 * 8
and_not_seven off = omega (arith, bit_and_mask 3 off)

far_fields :
    (tag seg off : ℕ)
    → tag < 8
    → IsU32 seg
    → IsU32 off
    → bit_or (bit_or tag (and_not off 7)) (shl64 seg 32) ≡ tag + off / 8 * 8 + seg * 2 ^ 32
far_fields tag seg off ht hs ho =
    ap₂ bit_or (ap (bit_or tag) (and_not_seven off) ∙ bit_or_low_high 3 tag (off / 8) ht)
      (mod-eq_of_lt {n = seg * 2 ^ 32} {m = 2 ^ 64} (omega arith))
    ∙ bit_or_low_high 32 (tag + off / 8 * 8) seg (omega arith)

pub raw_far_pointer_lem :
    (seg off : ℕ) → IsU32 seg → IsU32 off → raw_far_pointer seg off ≡ 2 + off / 8 * 8 + seg * 2 ^ 32
unfolding raw_far_pointer
raw_far_pointer_lem seg off hs ho = far_fields 2 seg off (omega arith) hs ho

pub raw_double_far_pointer_lem :
    (seg off : ℕ)
    → IsU32 seg
    → IsU32 off
    → raw_double_far_pointer seg off ≡ 6 + off / 8 * 8 + seg * 2 ^ 32
unfolding raw_double_far_pointer
raw_double_far_pointer_lem seg off hs ho = far_fields 6 seg off (omega arith) hs ho

pub raw_interface_pointer_lem : (cap : ℕ) → IsU32 cap → raw_interface_pointer cap ≡ 3 + cap * 2 ^ 32
unfolding raw_interface_pointer
raw_interface_pointer_lem cap h =
    ap (bit_or 3) (mod-eq_of_lt {n = cap * 2 ^ 32} {m = 2 ^ 64} (omega arith))
    ∙ bit_or_low_high 32 3 cap (omega arith)

-- The readers, without their masks.
pub pointer_type_lem : (p : ℕ) → pointer_type p ≡ (if p % 4 == 2 then p % 8 else p % 4)
unfolding pointer_type
pointer_type_lem p = ground (arith, bit_and_mask 2 p, bit_and_mask 3 p)

pub list_type_lem : (p : ℕ) → list_type p ≡ p / 2 ^ 32 % 8
unfolding list_type
list_type_lem p = bit_and_mask 3 (p / 2 ^ 32)

pub struct_size_lem :
    (p : ℕ) → struct_size p ≡ ok (object_size (8 * (p / 2 ^ 32 % 2 ^ 16)) (p / 2 ^ 48 % 2 ^ 16))
unfolding struct_size
struct_size_lem p = rw (times_fits 8 (p / 2 ^ 32 % 2 ^ 16) (omega arith))

pub offset_lem : (p : ℕ) → offset p ≡ shr_ℤ (int32 p) 2
unfolding offset
offset_lem p = rw (bit_and_mask 32 p) (ground arith)

-- Two's complement in 30 bits, shifted by the tag's two, reads back as the offset.
pub shr_ℤ-int32 :
    (p : ℕ) (off : ℤ) → FitsSigned 30 off → p % 2 ^ 32 / 4 ≡ low30 off → shr_ℤ (int32 p) 2 ≡ off
shr_ℤ-int32 p (pos n) h e = ground arith
shr_ℤ-int32 p (negsuc n) h e = ground arith

pub far_address_lem : (p : ℕ) → far_address p ≡ ok (8 * (p % 2 ^ 32 / 8))
unfolding far_address
far_address_lem p =
    rw (bit_and_mask 32 p) (element_fits 0 (p % 2 ^ 32 / 8) 8 (omega arith) ∙ ap ok (omega arith))

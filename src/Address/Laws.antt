-- ===== src/Address/Laws.antt =====
-- When the size arithmetic of address.go is exact, and when it panics.
use go_capnproto.Prelude.{ℕ, ◌+◌, ◌-◌, ◌*◌, ◌%◌, ◌^◌, ◌≤◌, ◌<◌, ◌≡◌, arith}
use go_capnproto.Prelude.{pos, add32, IsU32, IsU16, ok, panic, overlarge}
use go_capnproto.Prelude.{true}
use go_capnproto.Prelude.Bits.{bit_and_mask}
use go_capnproto.Address.{
  times, element, add_size, pad_to_word, ObjectSize, pointer_size, total_size,
}
use go_capnproto.Address.{is_valid, data_word_count}

-- A product that fits a uint32 is exact, and a larger one panics.
pub times_fits : (sz n : ℕ) → sz * n < 2 ^ 32 → times sz (pos n) ≡ ok (sz * n)
unfolding times
times_fits sz n h = ground arith

pub times_overlarge : (sz n : ℕ) → 2 ^ 32 ≤ sz * n → times sz (pos n) ≡ panic overlarge
unfolding times
times_overlarge sz n h = ground arith

pub element_fits : (a i sz : ℕ) → a + sz * i < 2 ^ 32 → element a (pos i) sz ≡ ok (a + sz * i)
unfolding element
element_fits a i sz h = ground (arith, times_fits sz i (omega arith))

-- `addSize` never panics; the sum wraps.
pub add_size_lem : (a sz : ℕ) → IsU32 sz → add_size a sz ≡ ok (add32 a sz)
unfolding add_size element
add_size_lem a sz h = ground (arith, times_fits sz 1 (omega arith))

-- Padding gives the least multiple of the word size that is not less, up to the last word.
pub pad_to_word_lem :
    (sz : ℕ)
    → sz ≤ 2 ^ 32 - 8
    → (pad_to_word sz % 8 ≡ 0) × (sz ≤ pad_to_word sz) × (pad_to_word sz < sz + 8)
unfolding pad_to_word
pad_to_word_lem sz h = omega (arith, bit_and_mask 3 (add32 sz 7))

-- In the last seven sizes the padding wraps to zero.
pub pad_to_word_wraps : (sz : ℕ) → 2 ^ 32 - 8 < sz → IsU32 sz → pad_to_word sz ≡ 0
unfolding pad_to_word
pad_to_word_wraps sz h k = omega (arith, bit_and_mask 3 (add32 sz 7))

-- A pointer section of a uint16 of words never panics, nor does the total size of a valid object.
pub pointer_size_lem :
    (sz : ObjectSize) → IsU16 sz.pointer_count → pointer_size sz ≡ ok (8 * sz.pointer_count)
unfolding pointer_size
pointer_size_lem sz h = times_fits 8 sz.pointer_count (omega arith)

pub total_size_lem :
    (sz : ObjectSize)
    → IsU16 sz.pointer_count
    → is_valid sz ≡ true
    → total_size sz ≡ ok (sz.data_size + 8 * sz.pointer_count)
unfolding total_size is_valid
total_size_lem sz hp hv = ground (arith, pointer_size_lem sz hp)

pub data_word_count_lem :
    (sz : ObjectSize) (w : ℕ)
    → sz.data_size ≡ 8 * w
    → IsU32 sz.data_size
    → data_word_count sz ≡ ok (pos w)
unfolding data_word_count
data_word_count_lem sz w e h = ground arith

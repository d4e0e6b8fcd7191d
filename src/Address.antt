-- ===== src/Address.antt =====
-- address.go: byte addresses and sizes in a segment, and the sizes of an object's two sections.
-- An `Address`, a `Size`, a `DataOffset` and a `BitOffset` are uint32s: numbers below 2 ^ 32.
pub mod Laws
use go_capnproto.Prelude.{ℕ, ◌+◌, ◌-◌, ◌*◌, ◌/◌, ◌%◌, ◌^◌, Bool, ◌&&◌, ℤ, pos, scale, ltb_ℤ, to_u32}
use go_capnproto.Prelude.{int32, u8, add32, u32, ltb, leb, ◌==◌, if◌then◌else◌}
use go_capnproto.Prelude.{Result, ok, panic, overlarge, data_not_aligned, ◌>>=◌, ◌>>◌, must}
use go_capnproto.Prelude.Bits.{and_not}

abbrev pub word_size : ℕ
word_size = 8

abbrev pub max_size : ℕ
max_size = 2 ^ 32 - 1

-- `n` is an int32, so the int64 product is exact. A negative product passes the test.
unfoldable pub times : ℕ → ℤ → Result ℕ
times sz n =
    let result = scale sz n in
    if ltb_ℤ (pos max_size) result then panic overlarge else ok (to_u32 result)

unfoldable pub element : ℕ → ℤ → ℕ → Result ℕ
element a i sz = do off ← times sz i; ok (add32 a off)

unfoldable pub add_size : ℕ → ℕ → Result ℕ
add_size a sz = element a (pos 1) sz

unfoldable pub add_offset : ℕ → ℕ → ℕ
add_offset a o = add32 a o

unfoldable pub pad_to_word : ℕ → ℕ
pad_to_word sz = and_not (add32 sz (word_size - 1)) (word_size - 1)

-- `PointerCount` is a uint16.
pub record ObjectSize : Type 0 where
  pub data_size : ℕ
  pub pointer_count : ℕ

unfoldable pub is_zero : ObjectSize → Bool
is_zero sz = sz.data_size == 0 && sz.pointer_count == 0

unfoldable pub is_one_byte : ObjectSize → Bool
is_one_byte sz = sz.data_size == 1 && sz.pointer_count == 0

unfoldable pub is_valid : ObjectSize → Bool
is_valid sz = leb sz.data_size (0xffff * word_size)

unfoldable pub pointer_size : ObjectSize → Result ℕ
pointer_size sz = times word_size (pos sz.pointer_count)

unfoldable pub total_size : ObjectSize → Result ℕ
total_size sz = do pointers ← pointer_size sz; ok (add32 sz.data_size pointers)

unfoldable pub data_word_count : ObjectSize → Result ℤ
data_word_count sz = do
  must (sz.data_size % word_size == 0) data_not_aligned
  ok (int32 (sz.data_size / word_size))

unfoldable pub total_word_count : ObjectSize → Result ℤ
total_word_count sz = do words ← data_word_count sz; ok (int32 (to_u32 words + sz.pointer_count))

-- `offset` and `mask` of a `BitOffset`
unfoldable pub bit_byte_offset : ℕ → ℕ
bit_byte_offset bit = bit / 8

unfoldable pub bit_mask : ℕ → ℕ
bit_mask bit = u8 (2 ^ (bit % 8))

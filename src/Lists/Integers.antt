-- ===== src/Lists/Integers.antt =====
-- list.go: the lists of each integer and float type. A signed element is stored by its
-- two's complement, and a float by its bits.
pub mod Signed
use go_capnproto.Prelude.{ℕ, ◌+◌, ◌-◌, ◌*◌, ◌^◌, ◌%◌, ℤ, pos, negsuc, ltb, if◌then◌else◌}
use go_capnproto.Message.{M, return, ◌>>=◌}
use go_capnproto.Pointer.{ObjectList}
use go_capnproto.Lists.{new_primitive_list, byte_elem, set_byte_elem, uint_elem, set_uint_elem}

-- `intN(u)` and `uintN(z)` at `w` bits
abbrev pub to_signed : ℕ → ℕ → ℤ
to_signed w u = if ltb u (2 ^ (w - 1)) then pos u else negsuc (2 ^ w - 1 - u)

abbrev pub to_unsigned : ℕ → ℤ → ℕ
to_unsigned w (pos n) = n % 2 ^ w
to_unsigned w (negsuc n) = 2 ^ w - 1 - n % 2 ^ w

unfoldable pub int_elem : ℕ → ObjectList → ℤ → M ℤ
int_elem size p i = do u ← uint_elem size p i; return (to_signed (8 * size) u)

unfoldable pub set_int_elem : ℕ → ObjectList → ℤ → ℤ → M (Unit {0})
set_int_elem size p i v = set_uint_elem size p i (to_unsigned (8 * size) v)

abbrev pub uint8_elem : ObjectList → ℤ → M ℕ
uint8_elem p i = byte_elem p i

abbrev pub set_uint8_elem : ObjectList → ℤ → ℕ → M (Unit {0})
set_uint8_elem p i v = set_byte_elem p i v

abbrev pub int8_elem : ObjectList → ℤ → M ℤ
int8_elem p i = do u ← byte_elem p i; return (to_signed 8 u)

abbrev pub set_int8_elem : ObjectList → ℤ → ℤ → M (Unit {0})
set_int8_elem p i v = set_byte_elem p i (to_unsigned 8 v)

abbrev pub new_int8_list : ℕ → ℤ → M ObjectList
new_int8_list id n = new_primitive_list id 1 n

abbrev pub new_int16_list : ℕ → ℤ → M ObjectList
new_int16_list id n = new_primitive_list id 2 n

abbrev pub uint16_elem : ObjectList → ℤ → M ℕ
uint16_elem p i = uint_elem 2 p i

abbrev pub set_uint16_elem : ObjectList → ℤ → ℕ → M (Unit {0})
set_uint16_elem p i v = set_uint_elem 2 p i v

abbrev pub int16_elem : ObjectList → ℤ → M ℤ
int16_elem p i = int_elem 2 p i

abbrev pub set_int16_elem : ObjectList → ℤ → ℤ → M (Unit {0})
set_int16_elem p i v = set_int_elem 2 p i v

abbrev pub new_int32_list : ℕ → ℤ → M ObjectList
new_int32_list id n = new_primitive_list id 4 n

abbrev pub uint32_elem : ObjectList → ℤ → M ℕ
uint32_elem p i = uint_elem 4 p i

abbrev pub set_uint32_elem : ObjectList → ℤ → ℕ → M (Unit {0})
set_uint32_elem p i v = set_uint_elem 4 p i v

abbrev pub int32_elem : ObjectList → ℤ → M ℤ
int32_elem p i = int_elem 4 p i

abbrev pub set_int32_elem : ObjectList → ℤ → ℤ → M (Unit {0})
set_int32_elem p i v = set_int_elem 4 p i v

abbrev pub new_int64_list : ℕ → ℤ → M ObjectList
new_int64_list id n = new_primitive_list id 8 n

abbrev pub uint64_elem : ObjectList → ℤ → M ℕ
uint64_elem p i = uint_elem 8 p i

abbrev pub set_uint64_elem : ObjectList → ℤ → ℕ → M (Unit {0})
set_uint64_elem p i v = set_uint_elem 8 p i v

abbrev pub int64_elem : ObjectList → ℤ → M ℤ
int64_elem p i = int_elem 8 p i

abbrev pub set_int64_elem : ObjectList → ℤ → ℤ → M (Unit {0})
set_int64_elem p i v = set_int_elem 8 p i v

abbrev pub float32_elem : ObjectList → ℤ → M ℕ
float32_elem p i = uint_elem 4 p i

abbrev pub set_float32_elem : ObjectList → ℤ → ℕ → M (Unit {0})
set_float32_elem p i v = set_uint_elem 4 p i v

abbrev pub float64_elem : ObjectList → ℤ → M ℕ
float64_elem p i = uint_elem 8 p i

abbrev pub set_float64_elem : ObjectList → ℤ → ℕ → M (Unit {0})
set_float64_elem p i v = set_uint_elem 8 p i v

abbrev pub new_float64_list : ℕ → ℤ → M ObjectList
new_float64_list id n = new_primitive_list id 8 n

-- ===== src/Structs/Tests.antt =====
-- struct.go: a struct of two data words in a loaded segment.
use go_capnproto.Prelude.{
  ℕ, List, [], ◌∷◌, ◌≡◌, refl, arith, inr, none, some, false, ok, ◌==◌, if◌then◌else◌,
}
use go_capnproto.Segment.{Segment}
use go_capnproto.Message.{Message, single_segment}
use go_capnproto.Pointer.{Struct}
use go_capnproto.Structs.{uint, set_uint, bit, set_bit}
use go_capnproto.Structs.Bits.{set_bit-bit}
use go_capnproto.Prelude.{Bool}
use go_capnproto.Structs.Fields.{Placed, set_uint-uint}

abbrev sixteen_bytes : List ℕ
sixteen_bytes = 1 ∷ 2 ∷ 3 ∷ 4 ∷ 5 ∷ 6 ∷ 7 ∷ 8 ∷ 9 ∷ 10 ∷ 11 ∷ 12 ∷ 13 ∷ 14 ∷ 15 ∷ 16 ∷ []

abbrev loaded : Segment
loaded = record { id = 0; bytes = sixteen_bytes; capacity = 16 }

abbrev message : Message
message = record {
  arena = single_segment (record { bytes = sixteen_bytes; capacity = 16 });
  cap_table = [];
  segs = λ id. if id == 0 then some loaded else none;
}

abbrev two_words : Struct
two_words = record {
  seg = some 0;
  off = 0;
  size = record { data_size = 16; pointer_count = 0 };
  is_list_member = false;
}

two_words-Placed : Placed message two_words loaded
two_words-Placed = record {
  in_segment = refl;
  held = refl;
  small = omega arith;
  inside = omega arith;
}

-- A uint16 at offset 2, next to a uint32 at offset 4.
set_uint-uint_example :
    (m' : Message) × (s' : Segment) × (old : ℕ) × (set_uint 2 two_words 2 500 message ≡ ok (tt, m'))
    × (uint 2 two_words 2 m' ≡ ok (500, m'))
    × (uint 4 two_words 4 message ≡ ok (old, message))
    × (uint 4 two_words 4 m' ≡ ok (old, m'))
    × Placed m' two_words s'
set_uint-uint_example =
    set_uint-uint message two_words loaded 2 2 500 4 4 two_words-Placed (omega arith) (omega arith)
      (omega arith) (inr (omega arith))

-- Two bits of one byte.
set_bit-bit_example :
    (m' : Message) × (old : Bool) × (set_bit two_words 9 false message ≡ ok (tt, m'))
    × (bit two_words 9 m' ≡ ok (false, m'))
    × (bit two_words 12 message ≡ ok (old, message))
    × (bit two_words 12 m' ≡ ok (old, m'))
set_bit-bit_example =
    set_bit-bit message two_words loaded 9 12 false two_words-Placed (omega arith) (omega arith)
      (omega arith) (λ e. omega (arith, e))

-- ===== src/Lists/Tests.antt =====
-- list.go: a list of four uint32s, and a text.
use go_capnproto.Prelude.{
  ℕ, zero, suc, List, [], ◌∷◌, ◌≡◌, refl, arith, none, some, false, ok, panic, out_of_bounds, ◌==◌,
  if◌then◌else◌, pos,
}
use go_capnproto.Address.{total_size, pointer_size, times, pad_to_word}
use go_capnproto.Segment.{Segment}
use go_capnproto.Message.{Message, single_segment, num_segments}
use go_capnproto.Message.Valid.{IsValid, TableOk, BufferOk}
use go_capnproto.Message.{data_of}
use mathlib.Core.Option.{some-injective}
use mathlib.Core.Path.{subst}
use go_capnproto.Pointer.{ObjectList, to_list}
use go_capnproto.Lists.{uint_elem, set_uint_elem}
use go_capnproto.Lists.Elements.{Listed, set_uint_elem-uint_elem}
use go_capnproto.Lists.Root.{root, root-short}
use go_capnproto.Lists.Text.{new_text, to_text}
use go_capnproto.Lists.Text.RoundTrip.{new_text-to_text}

abbrev sixteen_bytes : List ℕ
sixteen_bytes = 1 ∷ 2 ∷ 3 ∷ 4 ∷ 5 ∷ 6 ∷ 7 ∷ 8 ∷ 9 ∷ 10 ∷ 11 ∷ 12 ∷ 13 ∷ 14 ∷ 15 ∷ 16 ∷ []

abbrev loaded : Segment
loaded = record { id = 0; bytes = sixteen_bytes; capacity = 4096 }

abbrev message : Message
message = record {
  arena = single_segment (record { bytes = sixteen_bytes; capacity = 4096 });
  cap_table = [];
  segs = λ id. if id == 0 then some loaded else none;
}

abbrev four : ObjectList
four = record {
  seg = some 0;
  off = 0;
  count = pos 4;
  size = record { data_size = 4; pointer_count = 0 };
  is_composite_list = false;
  is_bit_list = false;
}

four-Listed : Listed message four loaded 4 4
unfolding total_size pointer_size times
four-Listed = record {
  in_segment = refl;
  held = refl;
  small = omega arith;
  not_bits = refl;
  counted = refl;
  sized = refl;
  inside = omega arith;
}

set_uint_elem-uint_elem_example :
    (m' : Message) × (old : ℕ) × (set_uint_elem 4 four (pos 1) 70000 message ≡ ok (tt, m'))
    × (uint_elem 4 four (pos 1) m' ≡ ok (70000, m'))
    × (uint_elem 4 four (pos 3) message ≡ ok (old, message))
    × (uint_elem 4 four (pos 3) m' ≡ ok (old, m'))
set_uint_elem-uint_elem_example =
    set_uint_elem-uint_elem message four loaded 4 4 1 3 70000 four-Listed (omega arith)
      (omega arith) (λ e. omega (arith, e)) (omega arith)

table-Ok : TableOk 8 message.segs
table-Ok zero s e =
    let same : loaded ≡ s = some-injective loaded s e in
    subst (λ (t : Segment). (t.id ≡ 0) × BufferOk 8 (data_of t)) same (omega arith, omega arith)
table-Ok (suc i) s e = absurd (ground arith)

message-IsValid : IsValid 8 message
unfolding num_segments
message-IsValid = record {
  arena_ok = omega arith;
  table_ok = table-Ok;
  unloaded = λ i h. ground arith;
}

-- A text with a null byte in it.
new_text-to_text_example :
    (l : ObjectList) × (m' : Message) × (new_text 0 (104 ∷ 0 ∷ 105 ∷ []) message ≡ ok (l, m'))
    × (to_text (to_list l) m' ≡ ok (104 ∷ 0 ∷ 105 ∷ [], m'))
unfolding num_segments pad_to_word
new_text-to_text_example =
    new_text-to_text 0 (104 ∷ 0 ∷ 105 ∷ []) message loaded message-IsValid (omega arith)
      (omega arith) refl

-- A message whose first segment has four bytes.
abbrev half_word : Segment
half_word = record { id = 0; bytes = 1 ∷ 2 ∷ 3 ∷ 4 ∷ []; capacity = 4 }

abbrev short_message : Message
short_message = record {
  arena = single_segment (record { bytes = 1 ∷ 2 ∷ 3 ∷ 4 ∷ []; capacity = 4 });
  cap_table = [];
  segs = λ id. if id == 0 then some half_word else none;
}

root-short_example : root short_message ≡ (panic out_of_bounds, short_message)
root-short_example = root-short short_message half_word refl (omega arith)

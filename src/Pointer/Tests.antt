-- ===== src/Pointer/Tests.antt =====
-- pointer.go and capn.go: a struct pointer that is read from a segment of two words.
use go_capnproto.Prelude.{ℕ, List, [], ◌∷◌, ◌≡◌, refl, none, some, false, ok}
use go_capnproto.Segment.{
  Segment, read_raw_pointer, read_uint64, read_uint, slice, region_in_bounds,
}
use go_capnproto.Address.{add_size, element, times, total_size, pointer_size}
use go_capnproto.RawPointer.{pointer_type, offset, resolve, struct_size}
use go_capnproto.Message.{Message, single_segment}
use go_capnproto.Pointer.{Pointer, to_struct}
use go_capnproto.Pointer.Near.{near_pointer, near_struct, resolved, check_region}
use go_capnproto.Pointer.Near.Inside.{ObjectInside}
use go_capnproto.Pointer.Read.{read_ptr, resolve_far_pointer}
use go_capnproto.Pointer.Read.Known.{Known, read_ptr-Inside}

-- The pointer to a struct of one data word, and the struct.
abbrev two_words : List ℕ
two_words = 0 ∷ 0 ∷ 0 ∷ 0 ∷ 1 ∷ 0 ∷ 0 ∷ 0 ∷ 1 ∷ 2 ∷ 3 ∷ 4 ∷ 5 ∷ 6 ∷ 7 ∷ 8 ∷ []

abbrev root_segment : Segment
root_segment = record { id = 0; bytes = two_words; capacity = 16 }

abbrev one_segment : Message
one_segment = record {
  arena = single_segment (record { bytes = two_words; capacity = 16 });
  cap_table = [];
  segs = λ id. none;
}

abbrev root_struct : Pointer
root_struct = to_struct (record {
  seg = some 0;
  off = 8;
  size = record { data_size = 8; pointer_count = 0 };
  is_list_member = false;
})

read_root : read_ptr root_segment 0 one_segment ≡ (ok root_struct, one_segment)
unfolding read_ptr resolve_far_pointer near_pointer near_struct resolved check_region
    read_raw_pointer read_uint64 read_uint slice region_in_bounds add_size element times total_size
    pointer_size pointer_type offset resolve struct_size
read_root = refl

read_ptr-Inside_example :
    (t : Segment) × (Known root_segment one_segment t × ObjectInside t root_struct)
read_ptr-Inside_example =
    read_ptr-Inside root_segment 0 one_segment one_segment root_struct read_root

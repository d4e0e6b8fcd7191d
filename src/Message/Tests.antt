-- ===== src/Message/Tests.antt =====
-- mem.go: messages of two segments.
use go_capnproto.Prelude.{ℕ, zero, suc, ◌≡◌, refl, arith, List, [], ◌∷◌}
use go_capnproto.Prelude.{none, some, map, ok, ◌==◌, if◌then◌else◌}
use go_capnproto.Address.{pad_to_word}
use go_capnproto.Segment.{Segment}
use go_capnproto.Message.{Buffer, multi_segment, Message, SegmentTable, num_segments}
use go_capnproto.Message.{alloc, data_of}
use go_capnproto.Message.Valid.{IsValid, TableOk, BufferOk}
use go_capnproto.Message.Alloc.{alloc_lem, Fresh, Kept}
use go_capnproto.Message.Framing.{unmarshal}
use go_capnproto.Message.Marshal.{marshal}
use go_capnproto.Message.Marshal.RoundTrip.{unmarshal-marshal}
use go_capnproto.Message.Marshal.Concat.{exact}
use mathlib.Core.Option.{some-injective}
use mathlib.Core.Path.{subst}

abbrev word : List ℕ
word = 1 ∷ 2 ∷ 3 ∷ 4 ∷ 5 ∷ 6 ∷ 7 ∷ 8 ∷ []

abbrev full : Buffer
full = record { bytes = word; capacity = 8 }

abbrev empty : Buffer
empty = record { bytes = []; capacity = 4096 }

-- No segment is loaded.
abbrev two_segments : Message
two_segments = record {
  arena = multi_segment (full ∷ empty ∷ []);
  cap_table = [];
  segs = λ id. none;
}

two_segments-IsValid : IsValid 0 two_segments
unfolding num_segments
two_segments-IsValid = record {
  arena_ok = omega arith;
  table_ok = λ i s e. cc;
  unloaded = λ i h. refl;
}

unmarshal-marshal_example :
    (stream : List ℕ) × (m : Message) × (marshal two_segments ≡ ok (stream, m))
    × (unmarshal stream ≡ ok (multi_segment (map exact (word ∷ [] ∷ []))))
unfolding num_segments
unmarshal-marshal_example =
    unmarshal-marshal two_segments two_segments-IsValid (omega arith) (omega arith)

abbrev loaded : Segment
loaded = record { id = 0; bytes = word; capacity = 8 }

abbrev loaded_table : SegmentTable
loaded_table j = if j == 0 then some loaded else none

-- The first segment is loaded, and has no room.
abbrev one_loaded : Message
one_loaded = record {
  arena = multi_segment (full ∷ empty ∷ []);
  cap_table = [];
  segs = loaded_table;
}

loaded_table-ok : TableOk 8 loaded_table
loaded_table-ok zero s e =
    let same : loaded ≡ s = some-injective loaded s e in
    subst (λ (t : Segment). (t.id ≡ 0) × BufferOk 8 (data_of t)) same (omega arith, omega arith)
loaded_table-ok (suc i) s e = absurd (ground arith)

one_loaded-IsValid : IsValid 8 one_loaded
unfolding num_segments
one_loaded-IsValid = record {
  arena_ok = omega arith;
  table_ok = loaded_table-ok;
  unloaded = λ i h. ground arith;
}

padded : pad_to_word 5 ≡ 8
unfolding pad_to_word
padded = refl

alloc_lem_example :
    (id : ℕ) × (addr : ℕ) × (m : Message) × (alloc 0 5 one_loaded ≡ ok ((id, addr), m))
    × Fresh 8 one_loaded 0 loaded id addr m
    × Kept one_loaded id m
unfolding num_segments pad_to_word
alloc_lem_example =
    alloc_lem 0 5 one_loaded loaded 0 loaded one_loaded-IsValid (omega arith) (omega arith) refl
      refl

-- ===== src/Segment/Tests.antt =====
-- capn.go: reads and writes of a segment of sixteen bytes.
use go_capnproto.Prelude.{◌≡◌, arith, [], ◌∷◌, length, inr, ok, panic, true}
use go_capnproto.Prelude.{slice_bounds}
use go_capnproto.Segment.{Segment, read_uint, write_uint, region_in_bounds, slice}
use go_capnproto.Segment.Laws.{write_uint_lem}
use go_capnproto.Segment.Bounds.{region_wraps}

abbrev two_words : Segment
two_words = record {
  id = 0;
  bytes = 1 ∷ 2 ∷ 3 ∷ 4 ∷ 5 ∷ 6 ∷ 7 ∷ 8 ∷ 9 ∷ 10 ∷ 11 ∷ 12 ∷ 13 ∷ 14 ∷ 15 ∷ 16 ∷ [];
  capacity = 16;
}

-- A uint16 written into the first word leaves the second as it was.
write_uint_lem_example :
    (s : Segment) × (write_uint 2 two_words 4 0xabcd ≡ ok s)
    × (read_uint 2 s 4 ≡ ok 0xabcd)
    × (read_uint 8 s 8 ≡ read_uint 8 two_words 8)
    × (length s.bytes ≡ 16)
    × (s.id ≡ 0)
    × (s.capacity ≡ 16)
write_uint_lem_example =
    write_uint_lem 2 two_words 4 0xabcd 8 8 (omega arith) (omega arith) (omega arith) (omega arith)
      (inr (omega arith))

region_wraps_example :
    (region_in_bounds two_words 0xffff_fff8 16 ≡ ok true)
    × (slice two_words 0xffff_fff8 16 ≡ panic slice_bounds)
region_wraps_example =
    region_wraps two_words 0xffff_fff8 16 (omega arith) (omega arith) (omega arith) (omega arith)
      (omega arith)

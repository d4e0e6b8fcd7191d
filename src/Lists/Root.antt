-- ===== src/Lists/Root.antt =====
-- capn.go and mem.go: the root pointer, the first word of a message.
use go_capnproto.Prelude.{
  ◌≤◌, ◌<◌, ◌≡◌, refl, arith, ap, ◌∙◌, pos, some, if◌then◌else◌, Result, ok, panic, out_of_bounds,
  ◌>>=◌, length, IsU32,
}
use go_capnproto.Address.{ObjectSize, total_size, pointer_size, times, element}
use go_capnproto.Segment.{Segment, region_in_bounds}
use go_capnproto.Segment.Bounds.{region_in_bounds_lem}
use go_capnproto.Message.{Message, segment}
use go_capnproto.Message.Load.{segment_loaded}
use go_capnproto.Pointer.{ObjectList, Pointer, nil_list}
use go_capnproto.Pointer.Read.{Reader, call, pure, read_ptr, go_on, outcome}
use go_capnproto.Pointer.Read
use go_capnproto.Structs.{segment_of_pointer}
use go_capnproto.Structs.Fields.{segment_found}
use go_capnproto.Lists.{list_at, pointer_elem, list_elem, elem_in}

abbrev pub one_pointer : ObjectSize
one_pointer = record { data_size = 0; pointer_count = 1 }

-- `Segment.root`: a list of one pointer, or none in a segment without a whole word.
unfoldable pub root_list : Segment → Result ObjectList
root_list s = do
  total ← total_size one_pointer
  inside ← region_in_bounds s 0 total
  ok (if inside then list_at s.id 0 (pos 1) one_pointer else nil_list)

-- `Message.Root`
unfoldable pub root : Reader Pointer
root =
    Read.◌>>=◌ (call (segment 0)) λ s. Read.◌>>=◌ (pure (root_list s)) λ l. pointer_elem l (pos 0)

first_elem : (s : Segment) → list_elem (list_at s.id 0 (pos 1) one_pointer) (pos 0) ≡ ok (0, 8)
unfolding list_elem elem_in total_size pointer_size times element
first_elem s = refl

root_list_whole :
    (s : Segment)
    → IsU32 (length s.bytes)
    → 8 ≤ length s.bytes
    → root_list s ≡ ok (list_at s.id 0 (pos 1) one_pointer)
unfolding root_list total_size pointer_size times
root_list_whole s small h = rw (region_in_bounds_lem s 0 8 (omega arith)) (ground arith)

root_list_short : (s : Segment) → length s.bytes < 8 → root_list s ≡ ok nil_list
unfolding root_list total_size pointer_size times
root_list_short s h = rw (region_in_bounds_lem s 0 8 (omega arith)) (ground arith)

-- The root of a message whose first segment is loaded and has a word is the pointer at the start
-- of that segment.
pub root-read_ptr :
    (m : Message) (s : Segment)
    → m.segs 0 ≡ some s
    → s.id ≡ 0
    → IsU32 (length s.bytes)
    → 8 ≤ length s.bytes
    → root m ≡ read_ptr s 0 m
unfolding root pointer_elem
root-read_ptr m s here own small h =
    ap (λ r. go_on (outcome r m) λ t. Read.◌>>=◌ (pure (root_list t)) λ l. pointer_elem l (pos 0))
      (segment_loaded 0 m s here)
    ∙ ap (λ r. go_on (r, m) λ l. pointer_elem l (pos 0)) (root_list_whole s small h)
    ∙ pointed
  where
    pointed : pointer_elem (list_at s.id 0 (pos 1) one_pointer) (pos 0) m ≡ read_ptr s 0 m
    pointed =
        ap
          (λ r.
            go_on (r, m)
              λ at. Read.◌>>=◌ (call (segment_of_pointer (some s.id))) λ u. read_ptr u at.0)
          (first_elem s)
        ∙ ap (λ r. go_on (outcome r m) λ u. read_ptr u 0)
            (segment_found m (some s.id) s refl (ap m.segs own ∙ here))

-- In a message whose first segment is loaded and has no whole word, Root panics.
pub root-short :
    (m : Message) (s : Segment)
    → m.segs 0 ≡ some s
    → length s.bytes < 8
    → root m ≡ (panic out_of_bounds, m)
unfolding root
root-short m s here h =
    ap (λ r. go_on (outcome r m) λ t. Read.◌>>=◌ (pure (root_list t)) λ l. pointer_elem l (pos 0))
      (segment_loaded 0 m s here)
    ∙ ap (λ r. go_on (r, m) λ l. pointer_elem l (pos 0)) (root_list_short s h)
    ∙ unfold pointer_elem in unfold list_elem in refl

-- ===== src/Lists/Text.antt =====
-- list.go: texts and data, lists of bytes that are copied from a Go string or slice.
pub mod RoundTrip
use go_capnproto.Prelude.{
  ℕ, ◌+◌, ◌-◌, not, ◌&&◌, ◌||◌, List, [], Option, none, some, length, take, copy_at, get_or,
}
use go_capnproto.Prelude.{int32, u32, ◌==◌, if◌then◌else◌, ◌>>=◌}
use go_capnproto.Address.{is_one_byte, total_size, times}
use go_capnproto.Segment.{Segment}
use go_capnproto.Segment
use go_capnproto.Message.{Message, M, return, lift, deref}
use go_capnproto.Message
use go_capnproto.Pointer.{ObjectList, Pointer, null, to_struct, to_list, to_interface, is_some}
use go_capnproto.Structs.{segment_of_pointer, store}
use go_capnproto.Lists.{new_uint8_list}

-- `copy(l.seg.slice(l.off, Size(len(v))), v)`
unfoldable pub copy_to : ObjectList → List ℕ → M ObjectList
copy_to l v = Message.◌>>=◌ (segment_of_pointer l.seg) λ s.
    Message.◌>>=◌ (lift (Segment.slice s l.off (u32 (length v)))) λ b.
      Message.◌>>=◌ (store (record s { bytes = copy_at s.bytes l.off (take (length b) v) }))
        λ done. return l

unfoldable pub new_text : ℕ → List ℕ → M ObjectList
new_text id v = Message.◌>>=◌ (new_uint8_list id (int32 (length v + 1))) λ l. copy_to l v

unfoldable pub new_data : ℕ → List ℕ → M ObjectList
new_data id v = Message.◌>>=◌ (new_uint8_list id (int32 (length v))) λ l. copy_to l v

one_byte : ObjectList → Option ObjectList
one_byte l = if is_some l.seg && is_one_byte l.size && not l.is_composite_list then some l else none

unfoldable pub to_one_byte_list : Pointer → Option ObjectList
unfolding one_byte
to_one_byte_list null = none
to_one_byte_list (to_struct p) = none
to_one_byte_list (to_list l) = one_byte l
to_one_byte_list (to_interface p) = none

-- `l.seg.slice(l.off, l.size.totalSize().times(l.length))`
unfoldable pub list_bytes : ObjectList → M (List ℕ)
list_bytes l =
    Message.◌>>=◌ (segment_of_pointer l.seg) λ s.
      lift (do each ← total_size l.size; total ← times each l.count; Segment.slice s l.off total)

-- The bytes up to the final null byte; without one there is no text.
unfoldable pub text_or : List ℕ → List ℕ → List ℕ
text_or def b =
    if length b == 0 || not (get_or b (length b - 1) 0 == 0) then def else take (length b - 1) b

text_of : List ℕ → Option ObjectList → M (List ℕ)
text_of def none = return def
text_of def (some l) = Message.◌>>=◌ (list_bytes l) λ b. return (text_or def b)

unfoldable pub to_text_default : Pointer → List ℕ → M (List ℕ)
unfolding text_of
to_text_default p def = text_of def (to_one_byte_list p)

unfoldable pub to_text : Pointer → M (List ℕ)
to_text p = to_text_default p []

-- `ToDataDefault`; the bytes of a segment are taken not to be a nil slice.
data_of_list : List ℕ → Option ObjectList → M (List ℕ)
data_of_list def none = return def
data_of_list def (some l) = list_bytes l

unfoldable pub to_data_default : Pointer → List ℕ → M (List ℕ)
unfolding data_of_list
to_data_default p def = data_of_list def (to_one_byte_list p)

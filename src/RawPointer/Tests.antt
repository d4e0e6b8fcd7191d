-- ===== src/RawPointer/Tests.antt =====
-- rawpointer.go: the theorems at concrete words, some of them from rawpointer_test.go.
use go_capnproto.Prelude.{
  ℕ, ◌+◌, ◌*◌, ◌^◌, ◌<◌, ◌≡◌, ◌≢◌, refl, arith, negsuc, ok, panic, some, overlarge,
}
use go_capnproto.RawPointer.{raw_struct_pointer, raw_far_pointer, object_size}
use go_capnproto.RawPointer.{pointer_type, struct_size}
use go_capnproto.RawPointer.{list_type, offset, num_list_elements, resolve}
use go_capnproto.RawPointer.{make_pointer_offset, total_list_size}
use go_capnproto.RawPointer.{landing_pad_near_pointer}
use go_capnproto.RawPointer.RoundTrip.{raw_struct_pointer_roundtrip}
use go_capnproto.RawPointer.Resolve.{struct_pointer_reaches, resolve_wraps, landing_pad_misses}
use go_capnproto.RawPointer.Lists.{total_list_size_composite}

-- An offset of -1, two data words and three pointers.
raw_struct_pointer_roundtrip_example :
    (p : ℕ) × (raw_struct_pointer (negsuc 0) (object_size 16 3) ≡ ok p)
    × (pointer_type p ≡ 0)
    × (offset p ≡ negsuc 0)
    × (struct_size p ≡ ok (object_size 16 3))
raw_struct_pointer_roundtrip_example =
    raw_struct_pointer_roundtrip (negsuc 0) 2 3 (omega arith) (omega arith) (omega arith)

struct_word : pointer_type 0x0003_0002_ffff_fffc ≡ 0
unfolding pointer_type
struct_word = refl

list_word : pointer_type 0x0000_0017_0000_0005 ≡ 1
unfolding pointer_type
list_word = refl

-- From the second word back to the first.
struct_pointer_reaches_example :
    (p : ℕ) × (raw_struct_pointer (make_pointer_offset 8 0) (object_size 8 0) ≡ ok p)
    × (resolve (offset p) 8 ≡ some 0)
struct_pointer_reaches_example =
    struct_pointer_reaches 1 0 1 0 (omega arith) (omega arith) (omega arith) (omega arith)
      (omega arith)

-- Three words back from address 8.
resolve_wraps_example :
    (addr : ℕ) × (resolve (negsuc 2) 8 ≡ some addr) × (addr + 24 ≡ 2 ^ 32 + 8 + 8) × (8 < addr)
resolve_wraps_example = resolve_wraps 8 2 (omega arith) (omega arith) (omega arith)

landing_pad_misses_example :
    (near : ℕ) × (landing_pad_near_pointer (raw_far_pointer 1 16) (0 + 2 * 2 ^ 32) ≡ ok near)
    × (resolve (offset near) 0 ≢ some 16)
landing_pad_misses_example =
    landing_pad_misses 1 2 0 2 (omega arith) (omega arith) (omega arith) (omega arith)

bit_list : list_type 0x0000_0051_0000_0001 ≡ 1
unfolding list_type
bit_list = refl

composite : list_type 0xffff_ffff_0000_0001 ≡ 7
unfolding list_type
composite = refl

total_list_size_composite_example : total_list_size 0xffff_ffff_0000_0001 ≡ panic overlarge
unfolding num_list_elements
total_list_size_composite_example =
    total_list_size_composite 0xffff_ffff_0000_0001 (omega arith) composite

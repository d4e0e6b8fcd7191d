-- ===== src/Segment/Bounds.antt =====
-- capn.go: what the bounds tests of a segment let through.
use go_capnproto.Prelude.{ℕ, ◌+◌, ◌-◌, ◌^◌, ◌≤◌, ◌<◌, ◌≡◌, arith}
use go_capnproto.Prelude.{length, take, drop, List, true, leb, add32, IsU32}
use go_capnproto.Prelude.{ok, panic, out_of_bounds, slice_bounds}
use go_capnproto.Address.Laws.{add_size_lem}
use go_capnproto.Segment.{Segment, end_address, region_in_bounds, slice}

-- The bytes from `base` to `base + sz`.
abbrev pub bytes_at : Segment → ℕ → ℕ → List ℕ
bytes_at s base sz = take sz (drop base s.bytes)

-- The test compares the wrapped end of the region with the segment's length.
pub region_in_bounds_lem :
    (s : Segment) (base sz : ℕ)
    → IsU32 sz
    → region_in_bounds s base sz ≡ ok (leb (add32 base sz) (end_address s))
unfolding region_in_bounds
region_in_bounds_lem s base sz h = rw (add_size_lem base sz h)

-- A region that lies in a segment below 4 GB is cut out exactly.
pub slice_inside :
    (s : Segment) (base sz : ℕ)
    → IsU32 (length s.bytes)
    → base + sz ≤ length s.bytes
    → slice s base sz ≡ ok (bytes_at s base sz)
unfolding slice
slice_inside s base sz hl h =
    rw (region_in_bounds_lem s base sz (omega arith), add_size_lem base sz (omega arith))
      (ground arith)

-- One whose end lies beyond the segment, but below 4 GB, panics.
pub slice_outside :
    (s : Segment) (base sz : ℕ)
    → IsU32 (base + sz)
    → IsU32 (length s.bytes)
    → length s.bytes < base + sz
    → slice s base sz ≡ panic out_of_bounds
unfolding slice
slice_outside s base sz hb hl h = rw (region_in_bounds_lem s base sz (omega arith)) (ground arith)

-- A region whose end wraps round 2 ^ 32 into the segment passes `regionInBounds`, though it is
-- not in the segment, and the slice expression behind the test panics.
pub region_wraps :
    (s : Segment) (base sz : ℕ)
    → IsU32 base
    → IsU32 sz
    → IsU32 (length s.bytes)
    → 2 ^ 32 ≤ base + sz
    → base + sz - 2 ^ 32 ≤ length s.bytes
    → (region_in_bounds s base sz ≡ ok true) × (slice s base sz ≡ panic slice_bounds)
unfolding slice
region_wraps s base sz hb hs hl hw h =
    rw (region_in_bounds_lem s base sz hs, add_size_lem base sz hs) (ground arith, ground arith)

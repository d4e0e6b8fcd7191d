-- ===== src/Pointer/Near/Inside.antt =====
-- capn.go: the objects that `readPtr` gives lie in their segment.
use go_capnproto.Prelude.{ℕ, ◌+◌, ◌*◌, ◌/◌, ◌%◌, ◌^◌, ◌≤◌, ◌≡◌, ◌⊎◌, refl, arith}
use go_capnproto.Prelude.{Bool, true, false, some, pos, negsuc, ℤ, IsU32, IsU16, length, ok}
use go_capnproto.Prelude.{check, Error, ◌==◌, if◌then◌else◌, leb, add32, pointer_address}
use go_capnproto.Address.{ObjectSize, times, total_size, is_valid}
use mathlib.Core.Path.{subst}
use go_capnproto.RawPointer.{bit1_list, composite_list}
use go_capnproto.Prelude.{other_pointer}
use native.Mathlib.Nat.{mul_comm}
use go_capnproto.Prelude.{branch, returned, ok-injective, sym, ap, ◌∙◌, bad_tag}
use go_capnproto.Address.{element, add_size, word_size}
use go_capnproto.Segment.{read_raw_pointer}
use go_capnproto.RawPointer.{
  total_elements_size, list_pointer, offset, resolve, pointer_type, struct_pointer,
  other_pointer_type,
}
use go_capnproto.Address.Laws.{total_size_lem, times_fits, times_overlarge}
use go_capnproto.Segment.{Segment, region_in_bounds, end_address}
use go_capnproto.Segment.Bounds.{region_in_bounds_lem}
use go_capnproto.RawPointer.{
  struct_size, list_type, num_list_elements, list_element_size, total_list_size, object_size,
}
use go_capnproto.RawPointer.Fields.{struct_size_lem}
use go_capnproto.RawPointer.Lists.{valid_small, element_bits, list_type-lt}
use go_capnproto.Pointer.{ObjectList, Pointer, null, to_struct, to_list, to_interface}
use go_capnproto.Pointer.Near.{
  check_region, near_struct, near_composite, near_list_at, near_list, near_other, near_pointer,
  resolved, plain_list,
}

-- The region is in the segment, or its end is beyond the 32-bit address space.
abbrev pub Inside : Segment → ℕ → ℕ → Type 0
Inside s addr sz = (addr + sz ≤ length s.bytes) ⊎ (2 ^ 32 ≤ addr + sz)

abbrev pub bytes_of : ObjectSize → ℕ
bytes_of sz = sz.data_size + 8 * sz.pointer_count

-- The bytes that the elements of a list take; the code lets a negative count through.
abbrev pub ElementsInside : Segment → ObjectList → ℤ → Type 0
ElementsInside s p (pos n) =
    Inside s p.off (if p.is_bit_list then (n + 7) / 8 else n * bytes_of p.size)
ElementsInside s p (negsuc n) = Unit {0}

abbrev pub ObjectInside : Segment → Pointer → Type 0
ObjectInside s null = Unit {0}
ObjectInside s (to_struct p) = (p.seg ≡ some s.id) × Inside s p.off (bytes_of p.size)
ObjectInside s (to_list p) = (p.seg ≡ some s.id) × ElementsInside s p p.count
ObjectInside s (to_interface p) = p.seg ≡ some s.id

checked : (b : Bool) (e : Error) (u : Unit {0}) → check b e ≡ ok u → b ≡ true
checked true e u h = refl
checked false e u h = cc

times-fits : (sz n total : ℕ) → times sz (pos n) ≡ ok total → (total ≡ sz * n) × IsU32 total
times-fits sz n total e = ground (arith, times_fits sz n, times_overlarge sz n)

-- The region's size is a uint32, since `addSize` returned.
region_small : (s : Segment) (addr sz : ℕ) (b : Bool) → region_in_bounds s addr sz ≡ ok b → IsU32 sz
unfolding region_in_bounds add_size element
region_small s addr sz b e =
    let (end, e₁, r₁) = returned (add_size addr sz) e in
    let (off, e₂, r₂) = returned (times sz (pos 1)) e₁ in ground (arith, times-fits sz 1 off e₂)

pub check_region-Inside :
    (s : Segment) (addr sz : ℕ) (u : Unit {0}) → check_region s addr sz ≡ ok u → Inside s addr sz
unfolding check_region
check_region-Inside s addr sz u e =
    let (inside, e₁, e₂) = returned (region_in_bounds s addr sz) e in
    let pass : leb (add32 addr sz) (end_address s) ≡ true = cc (
      region_in_bounds_lem s addr sz (region_small s addr sz inside e₁),
      e₁,
      checked inside pointer_address u e₂,
    ) in
    ground (arith, pass)

words-IsValid : (w p : ℕ) → IsU16 w → is_valid (object_size (8 * w) p) ≡ true
unfolding is_valid
words-IsValid w p h = ground arith

words_total :
    (w p : ℕ) (total : ℕ)
    → IsU16 w
    → IsU16 p
    → total_size (object_size (8 * w) p) ≡ ok total
    → (total ≡ 8 * w + 8 * p) × IsU32 total
words_total w p total hw hp h =
    let e : total ≡ 8 * w + 8 * p =
      cc (total_size_lem (object_size (8 * w) p) (omega arith) (words-IsValid w p hw), h) in
    (e, omega arith)

struct_bytes :
    (val : ℕ) (sz : ObjectSize) (total : ℕ)
    → struct_size val ≡ ok sz
    → total_size sz ≡ ok total
    → (total ≡ bytes_of sz) × IsU32 total
struct_bytes val sz total e h =
    let w = val / 2 ^ 32 % 2 ^ 16 in
    let p = val / 2 ^ 48 % 2 ^ 16 in
    let same : object_size (8 * w) p ≡ sz = cc (struct_size_lem val, e) in
    subst (λ o. (total ≡ bytes_of o) × IsU32 total) same
      (words_total w p total (omega arith) (omega arith)
        (subst (λ o. total_size o ≡ ok total) (sym same) h))

-- The pointer that is built is the one that is returned.
returns : (s : Segment) {q p : Pointer} → ok q ≡ ok p → ObjectInside s q → ObjectInside s p
returns s e h = subst (ObjectInside s) (ok-injective e) h

near_struct-Inside :
    (s : Segment) (off val : ℕ) {p : Pointer} → near_struct s off val ≡ ok p → ObjectInside s p
unfolding near_struct
near_struct-Inside s off val e =
    let (addr, e₁, r₁) = returned (resolved (resolve (offset val) off)) e in
    let (sz, e₂, r₂) = returned (struct_size val) r₁ in
    let (total, e₃, r₃) = returned (total_size sz) r₂ in
    let (u, e₄, r₄) = returned (check_region s addr total) r₃ in
    let (bytes, small) = struct_bytes val sz total e₂ e₃ in
    returns s r₄ (refl, subst (Inside s addr) bytes (check_region-Inside s addr total u e₄))

near_composite-Inside :
    (s : Segment) (tag : ℕ) {p : Pointer} → near_composite s tag ≡ ok p → ObjectInside s p
unfolding near_composite
near_composite-Inside s tag e =
    let (hdr, e₁, r₁) = returned (read_raw_pointer s tag) e in
    let (addr, e₂, r₂) = returned (add_size tag word_size) r₁ in
    let (u, e₃, r₃) = returned (check (pointer_type hdr == struct_pointer) bad_tag) r₂ in
    let (sz, e₄, r₄) = returned (struct_size hdr) r₃ in
    let (each, e₅, r₅) = returned (total_size sz) r₄ in
    let (total, e₆, r₆) = returned (times each (offset hdr)) r₅ in
    let (v, e₇, r₇) = returned (check_region s addr total) r₆ in
    let (bytes, small) = struct_bytes hdr sz each e₄ e₅ in
    returns s r₇ (refl, composite (offset hdr) addr sz each total v bytes e₆ e₇)
  where
    composite :
        (n : ℤ) (addr : ℕ) (sz : ObjectSize) (each total : ℕ) (v : Unit {0})
        → each ≡ bytes_of sz
        → times each n ≡ ok total
        → check_region s addr total ≡ ok v
        → ElementsInside s
            (record {
              seg = some s.id;
              off = addr;
              count = n;
              size = sz;
              is_composite_list = true;
              is_bit_list = false;
            })
            n
    composite (pos n) addr sz each total v b t c =
        let (product, small) = times-fits each n total t in
        subst (Inside s addr) (product ∙ (ap (λ k. k * n) b ∙ mul_comm (bytes_of sz) n))
          (check_region-Inside s addr total v c)
    composite (negsuc n) addr sz each total v b t c = tt

element_bytes :
    (val : ℕ) (sz : ObjectSize)
    → (list_type val == bit1_list) ≡ false
    → list_element_size val ≡ ok sz
    → bytes_of sz * 8 ≡ element_bits (list_type val)
unfolding list_element_size
element_bytes val sz ne e = ground (arith, list_type-lt val)

whole_bytes : (n b bits lsize : ℕ) → lsize ≡ (n * bits + 7) / 8 → b * 8 ≡ bits → lsize ≡ n * b
whole_bytes n b bits lsize h e = omega (arith, ap (λ (k : ℕ). n * k) e)

elements_total :
    (val bytes pointers lsize : ℕ)
    → list_element_size val ≡ ok (object_size bytes pointers)
    → bytes + 8 * pointers ≤ 8
    → total_elements_size val ≡ ok lsize
    → lsize ≡ (bytes + 8 * pointers) * num_list_elements val
unfolding total_elements_size
elements_total val bytes pointers lsize e small h =
    let (sz, e₁, r₁) = returned (list_element_size val) h in
    let (each, e₂, r₂) = returned (total_size sz) r₁ in
    let same : each ≡ bytes + 8 * pointers = cc (
      e,
      e₁,
      e₂,
      total_size_lem (object_size bytes pointers) (omega arith)
          (valid_small bytes pointers (omega arith)),
    ) in
    (times-fits each (num_list_elements val) lsize r₂).0 ∙ ap (λ k. k * num_list_elements val) same

plain_total :
    (val lsize : ℕ)
    → (list_type val == composite_list) ≡ false
    → total_list_size val ≡ ok lsize
    → lsize ≡ (num_list_elements val * element_bits (list_type val) + 7) / 8
unfolding total_list_size list_element_size
plain_total val lsize ne e = ground (
  arith,
  list_type-lt val,
  elements_total val 1 0 lsize,
  elements_total val 2 0 lsize,
  elements_total val 4 0 lsize,
  elements_total val 8 0 lsize,
  elements_total val 0 1 lsize,
)

near_list_at-Inside :
    (s : Segment) (addr val lsize : ℕ) (u : Unit {0}) {p : Pointer}
    → total_list_size val ≡ ok lsize
    → check_region s addr lsize ≡ ok u
    → near_list_at s addr val ≡ ok p
    → ObjectInside s p
unfolding near_list_at plain_list
near_list_at-Inside s addr val lsize u total c e =
    branch (list_type val == composite_list) e (λ yes r. near_composite-Inside s addr r)
      (λ plain r.
        let bytes = plain_total val lsize plain total in
        let region = check_region-Inside s addr lsize u c in
        branch (list_type val == bit1_list) r
          (λ bits r'. returns s r' (refl, subst (Inside s addr) (ground arith) region))
          (λ whole r'.
            let (sz, e', r'') = returned (list_element_size val) r' in
            returns s r'' (
              refl,
              subst (Inside s addr)
                  (whole_bytes (num_list_elements val) (bytes_of sz) (element_bits (list_type val))
                    lsize bytes (element_bytes val sz whole e'))
                  region,
            )))

near_list-Inside :
    (s : Segment) (off val : ℕ) {p : Pointer} → near_list s off val ≡ ok p → ObjectInside s p
unfolding near_list
near_list-Inside s off val e =
    let (addr, e₁, r₁) = returned (resolved (resolve (offset val) off)) e in
    let (lsize, e₂, r₂) = returned (total_list_size val) r₁ in
    let (u, e₃, r₃) = returned (check_region s addr lsize) r₂ in
    near_list_at-Inside s addr val lsize u e₂ e₃ r₃

near_other-Inside :
    (s : Segment) (val : ℕ) {p : Pointer} → near_other s val ≡ ok p → ObjectInside s p
unfolding near_other
near_other-Inside s val e =
    let (u, e₁, r₁) = returned (check (other_pointer_type val == 0) other_pointer) e in
    returns s r₁ refl

-- Whatever pointer word is read, an object that `readPtr` makes of it is in the segment: its
-- bytes end before the segment does, unless their end is beyond the 32-bit address space, where
-- `regionInBounds` wraps, or it is a composite list of a negative count.
pub near_pointer-Inside :
    (s : Segment) (off val : ℕ) {p : Pointer} → near_pointer s off val ≡ ok p → ObjectInside s p
unfolding near_pointer
near_pointer-Inside s off val e =
    branch (val == 0) e (λ zero r. subst (ObjectInside s) (ok-injective r) tt)
      (λ some r.
        branch (pointer_type val == struct_pointer) r (λ kind q. near_struct-Inside s off val q)
          (λ ns q.
            branch (pointer_type val == list_pointer) q (λ kind t. near_list-Inside s off val t)
              (λ nl t.
                branch (pointer_type val == 3) t (λ kind v. near_other-Inside s val v)
                  (λ no v. absurd (cc v)))))

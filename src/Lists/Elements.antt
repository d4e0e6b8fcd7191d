-- ===== src/Lists/Elements.antt =====
-- list.go: elements of integer lists written and read back.
use go_capnproto.Prelude.{
  ℕ, ◌+◌, ◌*◌, ◌^◌, ◌≤◌, ◌<◌, ◌≡◌, ◌≢◌, ◌⊎◌, inl, inr, refl, arith, ap, ◌∙◌, sym, some, IsU32,
  length, ok, panic, out_of_bounds, pos, negsuc, ℤ, false, true, zero, suc, ltb_ℤ, ltb, leb, ◌||◌,
  pos_part, Bool-cases, little_endian,
}
use go_capnproto.Address.{total_size}
use go_capnproto.Address.Laws.{element_fits}
use go_capnproto.Segment.{Segment, read_uint, write_uint}
use go_capnproto.Segment.Laws.{write_uint_lem, read_uint_inside}
use go_capnproto.Segment.Bounds.{bytes_at}
use go_capnproto.Message.{Message, >>=-ok, lift}
use go_capnproto.Message.Pick.{update_self}
use go_capnproto.Pointer.{ObjectList}
use go_capnproto.Structs.{read_at, write_at}
use go_capnproto.Structs.Fields.{read_at_held, write_at_held, storing}
use go_capnproto.Lists.{list_elem, elem_in, uint_elem, set_uint_elem}

-- The list of `count` elements of `width` bytes lies in a segment that the message holds.
pub record Listed (m : Message) (p : ObjectList) (s : Segment) (count width : ℕ) : Type 0 where
  pub in_segment : p.seg ≡ some s.id
  pub held : m.segs s.id ≡ some s
  pub small : IsU32 (length s.bytes)
  pub not_bits : p.is_bit_list ≡ false
  pub counted : p.count ≡ pos count
  pub sized : total_size p.size ≡ ok width
  pub inside : p.off + width * count ≤ length s.bytes

row : (w n i : ℕ) → i < n → w * i + w ≤ w * n
row w zero i h = absurd (omega arith)
row w (suc n) zero h = omega arith
row w (suc n) (suc i) h = omega (arith, row w n i (omega arith))

below_end :
    (off width count end i : ℕ)
    → off + width * count ≤ end
    → i < count
    → off + width * i + width ≤ end
below_end off width count end i h lt = omega (arith, row width count i lt)

pub list_elem_inside :
    (m : Message) (p : ObjectList) (s : Segment) (count width i : ℕ)
    → Listed m p s count width
    → i < count
    → list_elem p (pos i) ≡ ok (p.off + width * i, width)
unfolding list_elem elem_in
list_elem_inside m p s count width i h lt =
    rw (h.in_segment, h.counted, h.not_bits, h.sized)
      (ground (
        arith,
        element_fits p.off i width
            (omega (arith, below_end p.off width count (length s.bytes) i h.inside lt, h.small)),
      ))

elem_outside :
    (p : ObjectList) (count : ℕ) (i : ℤ)
    → p.count ≡ pos count
    → ltb_ℤ i (pos 0) || leb count (pos_part i) ≡ true
    → list_elem p i ≡ panic out_of_bounds
unfolding list_elem
elem_outside p count (negsuc i) c out = refl
elem_outside p count (pos i) c out = ground (arith, c, out)

uint_elem_held :
    (m : Message) (p : ObjectList) (s : Segment) (size addr width v : ℕ) (i : ℤ)
    → list_elem p i ≡ ok (addr, width)
    → p.seg ≡ some s.id
    → m.segs s.id ≡ some s
    → read_uint size s addr ≡ ok v
    → uint_elem size p i m ≡ ok (v, m)
unfolding uint_elem
uint_elem_held m p s size addr width v i at seg held r =
    >>=-ok (lift (list_elem p i)) (λ a. read_at size p.seg a.0) m m (addr, width)
      (ap (λ x. lift x m) at)
    ∙ read_at_held m p.seg s size addr v seg held r

set_uint_elem_held :
    (m : Message) (p : ObjectList) (s s' : Segment) (size addr width v : ℕ) (i : ℤ)
    → list_elem p i ≡ ok (addr, width)
    → p.seg ≡ some s.id
    → m.segs s.id ≡ some s
    → write_uint size s addr v ≡ ok s'
    → set_uint_elem size p i v m ≡ ok (tt, storing m s')
unfolding set_uint_elem
set_uint_elem_held m p s s' size addr width v i at seg held r =
    >>=-ok (lift (list_elem p i)) (λ a. write_at size p.seg a.0 v) m m (addr, width)
      (ap (λ x. lift x m) at)
    ∙ write_at_held m p.seg s s' size addr v seg held r

-- Different elements do not meet.
apart :
    (off width i j : ℕ)
    → i ≢ j
    → (off + width * j + width ≤ off + width * i) ⊎ (off + width * i + width ≤ off + width * j)
apart off width i j ne = elim (Bool-cases (ltb i j)) [
  | inl lt ↦ inr (omega (arith, row width j i (ground (arith, lt))))
  | inr ge ↦ inl (omega (arith, row width i j (ground (arith, ge, ne))))
]

-- On a list whose elements are as wide as the integers read from it, an element that is set to a
-- value of its width is read back with it, and every other element reads as before.
pub set_uint_elem-uint_elem :
    (m : Message) (p : ObjectList) (s : Segment) (count width i j v : ℕ)
    → Listed m p s count width
    → i < count
    → j < count
    → i ≢ j
    → v < 256 ^ width
    → (m' : Message) × (old : ℕ) × (set_uint_elem width p (pos i) v m ≡ ok (tt, m'))
      × (uint_elem width p (pos i) m' ≡ ok (v, m'))
      × (uint_elem width p (pos j) m ≡ ok (old, m))
      × (uint_elem width p (pos j) m' ≡ ok (old, m'))
set_uint_elem-uint_elem m p s count width i j v h li lj ne hv =
    let fit_i = below_end p.off width count (length s.bytes) i h.inside li in
    let fit_j = below_end p.off width count (length s.bytes) j h.inside lj in
    let (s', wrote, back, kept, len, same, cap) =
      write_uint_lem width s (p.off + width * i) v (p.off + width * j) width h.small fit_i hv fit_j
        (apart p.off width i j ne) in
    let at_i = list_elem_inside m p s count width i h li in
    let at_j = list_elem_inside m p s count width j h lj in
    let seg' = h.in_segment ∙ ap some (sym same) in
    let held' = update_self m.segs s'.id s' in
    let before = read_uint_inside width s (p.off + width * j) h.small fit_j in
    (
      storing m s',
      little_endian (bytes_at s (p.off + width * j) width),
      set_uint_elem_held m p s s' width (p.off + width * i) width v (pos i) at_i h.in_segment h.held
          wrote,
      uint_elem_held (storing m s') p s' width (p.off + width * i) width v (pos i) at_i seg' held'
          back,
      uint_elem_held m p s width (p.off + width * j) width _ (pos j) at_j h.in_segment h.held
          before,
      uint_elem_held (storing m s') p s' width (p.off + width * j) width _ (pos j) at_j seg' held'
          (kept ∙ before),
    )

-- Outside the list, before its start too, an element is neither read nor set.
pub uint_elem_outside :
    (m : Message) (p : ObjectList) (s : Segment) (count width size v : ℕ) (i : ℤ)
    → Listed m p s count width
    → ltb_ℤ i (pos 0) || leb count (pos_part i) ≡ true
    → (uint_elem size p i m ≡ panic out_of_bounds)
      × (set_uint_elem size p i v m ≡ panic out_of_bounds)
unfolding uint_elem set_uint_elem
uint_elem_outside m p s count width size v i h out =
    rw (elem_outside p count i h.counted out) (refl, refl)

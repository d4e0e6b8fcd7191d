-- ===== src/Structs/Fields.antt =====
-- struct.go: integers written to a struct's data section and read back.
use go_capnproto.Prelude.{
  ℕ, ◌+◌, ◌^◌, ◌≤◌, ◌<◌, ◌≡◌, ◌⊎◌, inl, inr, refl, arith, ap, ◌∙◌, sym, some, none, Option, IsU32,
  length, ok, panic, out_of_bounds,
}
use go_capnproto.Segment.{Segment, read_uint, write_uint}
use go_capnproto.Segment.Laws.{write_uint_lem, read_uint_inside}
use go_capnproto.Segment.Bounds.{bytes_at}
use go_capnproto.Prelude.{little_endian}
use go_capnproto.Message.{◌>>=◌, Message, >>=-ok, lift, deref, update}
use go_capnproto.Message.Pick.{update_self}
use go_capnproto.Pointer.{Struct}
use go_capnproto.Structs.{
  data_address, segment_of_pointer, read_at, write_at, read_or_zero, write_or_panic, uint, set_uint,
  store,
}

-- The struct's data section lies in a segment that the message holds.
pub record Placed (m : Message) (p : Struct) (s : Segment) : Type 0 where
  pub in_segment : p.seg ≡ some s.id
  pub held : m.segs s.id ≡ some s
  pub small : IsU32 (length s.bytes)
  pub inside : p.off + p.size.data_size ≤ length s.bytes

beyond :
    (p : Struct) (off size : ℕ)
    → p.size.data_size < off + size
    → IsU32 (off + size)
    → data_address p off size ≡ none
unfolding data_address
beyond p off size h small = ground (arith, h, small)

pub data_address_inside :
    (m : Message) (p : Struct) (s : Segment) (off size : ℕ)
    → Placed m p s
    → off + size ≤ p.size.data_size
    → data_address p off size ≡ some (p.off + off)
unfolding data_address go_capnproto.Address.add_offset
data_address_inside m p s off size h fits = rw (h.in_segment) (ground (arith, h.small, h.inside))

deref_held : (id : ℕ) (m : Message) (s : Segment) → m.segs id ≡ some s → deref id m ≡ ok (s, m)
unfolding deref
deref_held id m s e = rw (e, deref) refl

pub segment_found :
    (m : Message) (seg : Option ℕ) (s : Segment)
    → seg ≡ some s.id
    → m.segs s.id ≡ some s
    → segment_of_pointer seg m ≡ ok (s, m)
unfolding segment_of_pointer
segment_found m seg s e held = ap (λ o. segment_of_pointer o m) e ∙ deref_held s.id m s held

pub read_at_held :
    (m : Message) (seg : Option ℕ) (s : Segment) (size addr v : ℕ)
    → seg ≡ some s.id
    → m.segs s.id ≡ some s
    → read_uint size s addr ≡ ok v
    → read_at size seg addr m ≡ ok (v, m)
unfolding read_at
read_at_held m seg s size addr v e held r =
    >>=-ok (segment_of_pointer seg) (λ t. lift (read_uint size t addr)) m m s
      (segment_found m seg s e held)
    ∙ ap (λ x. lift x m) r

-- The message with one of its segments replaced.
abbrev pub storing : Message → Segment → Message
storing m s = record m { segs = update m.segs s.id s }

pub write_at_held :
    (m : Message) (seg : Option ℕ) (s s' : Segment) (size addr v : ℕ)
    → seg ≡ some s.id
    → m.segs s.id ≡ some s
    → write_uint size s addr v ≡ ok s'
    → write_at size seg addr v m ≡ ok (tt, storing m s')
unfolding write_at store
write_at_held m seg s s' size addr v e held r =
    >>=-ok (segment_of_pointer seg) (λ t. lift (write_uint size t addr v) >>= store) m m s
      (segment_found m seg s e held)
    ∙ >>=-ok (lift (write_uint size s addr v)) store m m s' (ap (λ x. lift x m) r)

-- A field is read from the segment's bytes, and written to them.
uint_at :
    (m : Message) (p : Struct) (s : Segment) (size off v : ℕ)
    → Placed m p s
    → off + size ≤ p.size.data_size
    → read_uint size s (p.off + off) ≡ ok v
    → uint size p off m ≡ ok (v, m)
unfolding uint read_or_zero
uint_at m p s size off v h fits e =
    ap (λ o. read_or_zero size p.seg o m) (data_address_inside m p s off size h fits)
    ∙ read_at_held m p.seg s size (p.off + off) v h.in_segment h.held e

set_uint_at :
    (m : Message) (p : Struct) (s s' : Segment) (size off v : ℕ)
    → Placed m p s
    → off + size ≤ p.size.data_size
    → write_uint size s (p.off + off) v ≡ ok s'
    → set_uint size p off v m ≡ ok (tt, storing m s')
unfolding set_uint write_or_panic
set_uint_at m p s s' size off v h fits e =
    ap (λ o. write_or_panic size p.seg o v m) (data_address_inside m p s off size h fits)
    ∙ write_at_held m p.seg s s' size (p.off + off) v h.in_segment h.held e

pub storing-Placed :
    (m : Message) (p : Struct) (s s' : Segment)
    → Placed m p s
    → length s'.bytes ≡ length s.bytes
    → s'.id ≡ s.id
    → Placed (storing m s') p s'
storing-Placed m p s s' h len same = record {
  in_segment = h.in_segment ∙ ap some (sym same);
  held = update_self m.segs s'.id s';
  small = rw len h.small;
  inside = rw len h.inside;
}

-- A value that fits its width and is set within the struct's data section is read back from there;
-- a field that does not meet it reads as before; the struct stays in its segment.
pub set_uint-uint :
    (m : Message) (p : Struct) (s : Segment) (size off v b n : ℕ)
    → Placed m p s
    → off + size ≤ p.size.data_size
    → v < 256 ^ size
    → b + n ≤ p.size.data_size
    → (b + n ≤ off) ⊎ (off + size ≤ b)
    → (m' : Message) × (s' : Segment) × (old : ℕ) × (set_uint size p off v m ≡ ok (tt, m'))
      × (uint size p off m' ≡ ok (v, m'))
      × (uint n p b m ≡ ok (old, m))
      × (uint n p b m' ≡ ok (old, m'))
      × Placed m' p s'
set_uint-uint m p s size off v b n h fits hv fits' apart =
    let (s', wrote, back, kept, len, same, cap) =
      write_uint_lem size s (p.off + off) v (p.off + b) n h.small (omega (arith, h.inside)) hv
        (omega (arith, h.inside)) (shifted apart) in
    let old = little_endian (bytes_at s (p.off + b) n) in
    let before = read_uint_inside n s (p.off + b) h.small (omega (arith, h.inside)) in
    let placed = storing-Placed m p s s' h len same in
    (
      storing m s',
      s',
      old,
      set_uint_at m p s s' size off v h fits wrote,
      uint_at (storing m s') p s' size off v placed fits back,
      uint_at m p s n b old h fits' before,
      uint_at (storing m s') p s' n b old placed fits' (kept ∙ before),
      placed,
    )
  where
    shifted :
        (b + n ≤ off) ⊎ (off + size ≤ b)
        → (p.off + b + n ≤ p.off + off) ⊎ (p.off + off + size ≤ p.off + b)
    shifted (inl k) = inl (omega arith)
    shifted (inr k) = inr (omega arith)

-- Beyond the data section, as a reader with a newer schema finds it, a field reads as zero and
-- cannot be set.
pub uint_beyond :
    (m : Message) (p : Struct) (size off v : ℕ)
    → p.size.data_size < off + size
    → IsU32 (off + size)
    → (uint size p off m ≡ ok (0, m)) × (set_uint size p off v m ≡ panic out_of_bounds)
unfolding uint set_uint read_or_zero write_or_panic
uint_beyond m p size off v h small = rw (beyond p off size h small) (refl, refl)

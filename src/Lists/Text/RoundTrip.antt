-- ===== src/Lists/Text/RoundTrip.antt =====
-- list.go: a text that is built in a message is read back.
use go_capnproto.Prelude.{
  ℕ, zero, suc, ◌+◌, ◌*◌, ◌-◌, ◌%◌, ◌^◌, ◌≤◌, ◌<◌, ◌≡◌, refl, arith, ap, ap₂, ◌∙◌, sym, List, [],
  ◌∷◌, ◌++◌, length, take, drop, replicate, get_or, copy_at, u32, int32, pos, some, none, ok, IsU32,
  false, true, Option,
}
use go_capnproto.Prelude.{
  copy, take-append, if◌then◌else◌, ◌==◌, not, ◌||◌, take_all, slice-copy_at_self, length-copy_at,
  length-take, length-append,
}
use go_capnproto.Prelude
use go_capnproto.Segment
use go_capnproto.Prelude.{length-slice}
use go_capnproto.Address.{ObjectSize, is_valid, is_one_byte, pad_to_word, times, total_size}
use go_capnproto.Address.Laws.{times_fits, pad_to_word_lem, total_size_lem}
use go_capnproto.Segment.{Segment}
use go_capnproto.Segment.Bounds.{bytes_at, slice_inside}
use go_capnproto.Message.{Message, >>=-ok, ◌>>=◌, lift, return, alloc, num_segments}
use go_capnproto.Message.Pick.{update_self}
use go_capnproto.Message.Valid.{IsValid}
use go_capnproto.Message.Alloc.{alloc_lem}
use go_capnproto.Pointer.{ObjectList, to_list}
use go_capnproto.Structs.{segment_of_pointer, store}
use go_capnproto.Structs.Fields.{segment_found, storing}
use go_capnproto.Lists.{new_uint8_list, new_primitive_list, alloc_times, list_at}
use go_capnproto.Lists.Text.{
  copy_to, new_text, list_bytes, text_or, to_text, to_text_default, to_one_byte_list, text_of,
  one_byte,
}

-- The text's bytes, with the null byte behind them.
abbrev nul_list : ℕ → ℕ → ℕ → ObjectList
nul_list id addr n = list_at id addr (pos n) (record { data_size = 1; pointer_count = 0 })

module _ {A : Type 0} where
  drop-copy_at_here :
      (xs ys : List A) (addr : ℕ)
      → addr ≤ length xs
      → drop addr (copy_at xs addr ys) ≡ copy (drop addr xs) ys
  drop-copy_at_here xs ys zero h = refl
  drop-copy_at_here [] ys (suc i) h = absurd (omega arith)
  drop-copy_at_here (x ∷ xs) ys (suc i) h = drop-copy_at_here xs ys i (omega arith)

  take-copy-replicate :
      (ys : List A) (n : ℕ) (a : A)
      → suc (length ys) ≤ n
      → take (suc (length ys)) (copy (replicate n a) ys) ≡ ys ++ (a ∷ [])
  take-copy-replicate [] zero a h = absurd (omega arith)
  take-copy-replicate [] (suc n) a h = refl
  take-copy-replicate (y ∷ ys) zero a h = absurd (omega arith)
  take-copy-replicate (y ∷ ys) (suc n) a h =
      ap (λ t. y ∷ t) (take-copy-replicate ys n a (omega arith))

  -- A copy into the front of a region of equal elements.
  copied :
      (xs ys : List A) (addr n : ℕ) (a : A)
      → length xs ≡ addr + n
      → drop addr xs ≡ replicate n a
      → suc (length ys) ≤ n
      → take (suc (length ys)) (drop addr (copy_at xs addr ys)) ≡ ys ++ (a ∷ [])
  copied xs ys addr n a len zeros fits =
      ap (take (suc (length ys)))
        (drop-copy_at_here xs ys addr (omega arith) ∙ ap (λ t. copy t ys) zeros)
      ∙ take-copy-replicate ys n a fits

last_nul : (v : List ℕ) → get_or (v ++ (0 ∷ [])) (length v) 0 ≡ 0
last_nul [] = refl
last_nul (x ∷ v) = last_nul v

text_shape :
    (def b : List ℕ) (n : ℕ) → length b ≡ n + 1 → get_or b n 0 ≡ 0 → text_or def b ≡ take n b
unfolding text_or
text_shape def b n len nul =
    let back : n + 1 - 1 ≡ n = omega arith in
    ap (λ k. if k == 0 || not (get_or b (k - 1) 0 == 0) then def else take (k - 1) b) len
    ∙ ap (λ k. if n + 1 == 0 || not (get_or b k 0 == 0) then def else take k b) back
    ∙ ap (λ x. if n + 1 == 0 || not (x == 0) then def else take n b) nul
    ∙ ground arith

pub text_or_nul : (def v : List ℕ) → text_or def (v ++ (0 ∷ [])) ≡ v
text_or_nul def v =
    text_shape def (v ++ (0 ∷ [])) (length v) (length-append v (0 ∷ [])) (last_nul v)
    ∙ take-append v (0 ∷ [])

abbrev one_byte_size : ObjectSize
one_byte_size = record { data_size = 1; pointer_count = 0 }

one-IsValid : is_valid one_byte_size ≡ true
unfolding is_valid
one-IsValid = refl

-- The copy of a text's bytes to the start of its list.
copy_to_lem :
    (m : Message) (s : Segment) (addr : ℕ) (n : ℕ) (v : List ℕ)
    → m.segs s.id ≡ some s
    → IsU32 (length s.bytes)
    → addr + length v ≤ length s.bytes
    → copy_to (nul_list s.id addr n) v m
      ≡ ok (nul_list s.id addr n, storing m (record s { bytes = copy_at s.bytes addr v }))
unfolding copy_to store
copy_to_lem m s addr n v held small fits =
    >>=-ok (segment_of_pointer (some s.id))
      (λ t. lift (Segment.slice t addr (u32 (length v))) >>= λ b.
        store (record t { bytes = copy_at t.bytes addr (take (length b) v) }) >>= λ done.
        return (nul_list s.id addr n))
      m m s (segment_found m (some s.id) s refl held)
    ∙ ap
        (λ k.
          (lift (Segment.slice s addr k) >>= λ b.
          store (record s { bytes = copy_at s.bytes addr (take (length b) v) }) >>= λ done.
          return (nul_list s.id addr n))
            m)
        short
    ∙ >>=-ok (lift (Segment.slice s addr (length v)))
        (λ b. store (record s { bytes = copy_at s.bytes addr (take (length b) v) }) >>= λ done.
          return (nul_list s.id addr n))
        m m (bytes_at s addr (length v))
        (ap (λ x. lift x m) (slice_inside s addr (length v) small fits))
    ∙ ap (λ y. ok (nul_list s.id addr n, storing m (record s { bytes = copy_at s.bytes addr y })))
        (ap (λ k. take k v) (length-slice s.bytes addr (length v) fits)
          ∙ take_all v (length v) (omega arith))
  where
    short : u32 (length v) ≡ length v
    short = omega arith

list_bytes_lem :
    (m : Message) (s : Segment) (addr n : ℕ)
    → m.segs s.id ≡ some s
    → IsU32 (length s.bytes)
    → addr + n ≤ length s.bytes
    → list_bytes (nul_list s.id addr n) m ≡ ok (bytes_at s addr n, m)
unfolding list_bytes
list_bytes_lem m s addr n held small fits =
    >>=-ok (segment_of_pointer (some s.id))
      (λ t. lift (
        Prelude.◌>>=◌ (total_size one_byte_size)
          λ each. Prelude.◌>>=◌ (times each (pos n)) λ total. Segment.slice t addr total))
      m m s (segment_found m (some s.id) s refl held)
    ∙ ap
        (λ x.
          lift
            (Prelude.◌>>=◌ x
              λ each. Prelude.◌>>=◌ (times each (pos n)) λ total. Segment.slice s addr total)
            m)
        (total_size_lem one_byte_size (omega arith) one-IsValid)
    ∙ ap (λ x. lift (Prelude.◌>>=◌ x λ total. Segment.slice s addr total) m)
        (times_fits 1 n (omega arith) ∙ ap ok once)
    ∙ ap (λ x. lift x m) (slice_inside s addr n small fits)
  where
    once : 1 * n ≡ n
    once = omega arith

new_bytes :
    (id n : ℕ) (m m' : Message) (id' addr : ℕ)
    → n < 2 ^ 31
    → alloc id n m ≡ ok ((id', addr), m')
    → new_uint8_list id (int32 n) m ≡ ok (nul_list id' addr n, m')
unfolding new_primitive_list alloc_times
new_bytes id n m m' id' addr small e =
    >>=-ok (alloc_times id 1 (int32 n)) (λ at. return (list_at at.0 at.1 (int32 n) one_byte_size)) m
      m' (id', addr)
      (>>=-ok (lift (times 1 (int32 n))) (λ total. alloc id total) m m n (ap (λ x. lift x m) size)
        ∙ e)
    ∙ ap (λ k. ok (list_at id' addr k one_byte_size, m')) count
  where
    count : int32 n ≡ pos n
    count = ground arith

    size : times 1 (int32 n) ≡ ok n
    size = ap (times 1) count ∙ times_fits 1 n (omega arith) ∙ ap ok (omega arith)

to_text_bytes :
    (seg addr n : ℕ) (b v : List ℕ) (m : Message)
    → list_bytes (nul_list seg addr n) m ≡ ok (b, m)
    → b ≡ v ++ (0 ∷ [])
    → to_text (to_list (nul_list seg addr n)) m ≡ ok (v, m)
unfolding to_text to_text_default text_of to_one_byte_list one_byte is_one_byte
to_text_bytes seg addr n b v m e shape =
    >>=-ok (list_bytes (nul_list seg addr n)) (λ x. return (text_or [] x)) m m b e
    ∙ ap (λ x. ok (x, m)) (ap (text_or []) shape ∙ text_or_nul [] v)

-- A text copied into zeroed bytes at the end of a segment.
text_copied :
    (m : Message) (s : Segment) (addr n : ℕ) (v : List ℕ)
    → m.segs s.id ≡ some s
    → IsU32 (length s.bytes)
    → length s.bytes ≡ addr + n
    → drop addr s.bytes ≡ replicate n 0
    → length v + 1 ≤ n
    → (m' : Message) × (copy_to (nul_list s.id addr (length v + 1)) v m
        ≡ ok (nul_list s.id addr (length v + 1), m'))
      × (to_text (to_list (nul_list s.id addr (length v + 1))) m' ≡ ok (v, m'))
text_copied m s addr n v held small len zeros fits = (
  after,
  copy_to_lem m s addr (length v + 1) v held small (omega arith),
  to_text_bytes s.id addr (length v + 1) _ v after
      (list_bytes_lem after t addr (length v + 1) (update_self m.segs s.id t)
        (omega (arith, length-copy_at s.bytes addr v))
        (omega (arith, length-copy_at s.bytes addr v)))
      (ap (λ k. take k (drop addr (copy_at s.bytes addr v))) one_more
        ∙ copied s.bytes v addr n 0 len zeros (omega arith)),
)
  where
    t : Segment
    t = record s { bytes = copy_at s.bytes addr v }

    after : Message
    after = storing m t

    one_more : length v + 1 ≡ suc (length v)
    one_more = omega arith

-- A text of fewer than 2 ^ 31 - 1 bytes that is built in a valid message with room for it gives a
-- list that reads back as that text, null bytes in it included.
pub new_text-to_text :
    (id : ℕ) (v : List ℕ) (m : Message) (s : Segment)
    → IsValid (pad_to_word (length v + 1)) m
    → num_segments m.arena < 2 ^ 32
    → length v + 1 < 2 ^ 31
    → m.segs id ≡ some s
    → (l : ObjectList) × (m' : Message) × (new_text id v m ≡ ok (l, m'))
      × (to_text (to_list l) m' ≡ ok (v, m'))
unfolding new_text
new_text-to_text id v m s valid few short here =
    let (id', addr, m₁, made, f, _) =
      alloc_lem id (length v + 1) m s id s valid few (omega arith) here here in
    let (own, ok_buffer) = f.valid.table_ok id' f.target f.here in
    let (m', copied_to, read) =
      text_copied m₁ f.target addr (pad_to_word (length v + 1)) v (ap m₁.segs own ∙ f.here)
        (omega (arith, ok_buffer)) f.last f.zeroed
        (pad_to_word_lem (length v + 1) (omega arith)).1 in
    (
      nul_list f.target.id addr (length v + 1),
      m',
      >>=-ok (new_uint8_list id (int32 (length v + 1))) (λ l. copy_to l v) m m₁
            (nul_list f.target.id addr (length v + 1))
            (new_bytes id (length v + 1) m m₁ id' addr short made
              ∙ ap (λ k. ok (nul_list k addr (length v + 1), m₁)) (sym own))
          ∙ copied_to,
      read,
    )

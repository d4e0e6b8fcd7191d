-- ===== src/Pointer/Read.antt =====
-- capn.go: `readPtr`, which follows the pointer word at an address of a segment.
pub mod Known
use go_capnproto.Prelude.{ℕ, Bool, false, ◌&&◌}
use go_capnproto.Prelude.{ℤ, pos, negsuc, ◌==◌, if◌then◌else◌, Result, ok, err, panic, Error}
use go_capnproto.Prelude.{check, pointer_address, bad_landing_pad}
use go_capnproto.Address.{word_size, times, add_size}
use go_capnproto.Segment.{Segment, region_in_bounds, read_raw_pointer}
use go_capnproto.RawPointer.{pointer_type, far_pointer, double_far_pointer, far_address}
use go_capnproto.RawPointer.{far_segment, landing_pad_near_pointer, offset}
use go_capnproto.Pointer.Near.{near_pointer}
use go_capnproto.Message.{Message, M, segment}
use go_capnproto.Pointer.{Pointer}

-- A method that may change the message before it fails: the segments that it looked up stay loaded.
abbrev pub Reader : Type 0 → Type 0
Reader A = Message → Result A × Message

abbrev pub go_on : {A B : Type 0} → Result A × Message → (A → Reader B) → Result B × Message
go_on (ok a, m) f = f a m
go_on (err e, m) f = (err e, m)
go_on (panic e, m) f = (panic e, m)

infixl 5 ◌>>=◌ ◌>>◌
abbrev pub ◌>>=◌ : {A B : Type 0} → Reader A → (A → Reader B) → Reader B
◌>>=◌ p f m = go_on (p m) f

abbrev pub ◌>>◌ : {B : Type 0} → Reader (Unit {0}) → Reader B → Reader B
p >> q = p >>= λ done. q

abbrev pub pure : {A : Type 0} → Result A → Reader A
pure r m = (r, m)

-- A method of the message that changes nothing where it fails.
abbrev pub outcome : {A : Type 0} → Result (A × Message) → Message → Result A × Message
outcome (ok (a, m')) m = (ok a, m')
outcome (err e) m = (err e, m)
outcome (panic e) m = (panic e, m)

abbrev pub call : {A : Type 0} → M A → Reader A
call p m = outcome (p m) m

unfoldable pub lookup_segment : Segment → ℕ → Reader Segment
lookup_segment s id m = if s.id == id then (ok s, m) else call (segment id) m

-- Where the code answers an error of a call with one of its own.
abbrev pub error_as : {A : Type 0} → Error → Result A → Result A
error_as e (ok a) = ok a
error_as e (err e') = err e
error_as e (panic e') = panic e'

abbrev pub relabel : {A : Type 0} → Error → Reader A → Reader A
relabel e p m = let (r, m') = p m in (error_as e r, m')

abbrev pub is_zero_ℤ : ℤ → Bool
is_zero_ℤ (pos n) = n == 0
is_zero_ℤ (negsuc n) = false

-- The landing pad of a far pointer: the pad's segment, its address, and the word there.
unfoldable pub resolve_single_far : Segment → ℕ → Reader (Segment × ℕ × ℕ)
resolve_single_far s val = do
  faroff ← pure (far_address val)
  t ← lookup_segment s (far_segment val)
  inside ← pure (region_in_bounds t faroff word_size)
  pure (check inside pointer_address)
  pad ← pure (read_raw_pointer t faroff)
  pure (ok (t, faroff, pad))

-- That of a double far pointer has a far pointer to the object, and a tag.
unfoldable pub resolve_double_far : Segment → ℕ → Reader (Segment × ℕ × ℕ)
resolve_double_far s val = do
  faroff ← pure (far_address val)
  t ← lookup_segment s (far_segment val)
  size ← pure (times word_size (pos 2))
  inside ← pure (region_in_bounds t faroff size)
  pure (check inside pointer_address)
  far ← pure (read_raw_pointer t faroff)
  tag_address ← pure (add_size faroff word_size)
  tag ← pure (read_raw_pointer t tag_address)
  pure (check (pointer_type far == far_pointer && is_zero_ℤ (offset tag)) pointer_address)
  u ← relabel bad_landing_pad (lookup_segment t (far_segment far))
  near ← pure (landing_pad_near_pointer far tag)
  pure (ok (u, 0, near))

unfoldable pub resolve_far_pointer : Segment → ℕ → ℕ → Reader (Segment × ℕ × ℕ)
resolve_far_pointer s off val m =
    if pointer_type val == double_far_pointer
    then resolve_double_far s val m
    else if pointer_type val == far_pointer
    then resolve_single_far s val m
    else (ok (s, off, val), m)

-- `readPtr`
unfoldable pub read_ptr : Segment → ℕ → Reader Pointer
read_ptr s off = do
  val ← pure (read_raw_pointer s off)
  far ← resolve_far_pointer s off val
  let (t, base, near) = far
  pure (near_pointer t base near)

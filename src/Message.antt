-- ===== src/Message.antt =====
-- mem.go: messages, their segments and arenas, and allocation.
-- The built-in int is taken to have 64 bits, so `isInt32Bit` is false. A client in the capability
-- table is known by a number.
pub mod Framing
pub mod Load
pub mod Views
pub mod Valid
pub mod Pick
pub mod Alloc
pub mod Marshal
pub mod Streams
pub mod Packed
mod Tests
use go_capnproto.Prelude.{
  ℕ, suc, ◌+◌, ◌-◌, ◌%◌, ◌^◌, Bool, false, ◌&&◌, List, [], ◌∷◌, ◌++◌, Option, none, some,
}
use go_capnproto.Prelude.{
  ◌≡◌, length, get_elem?, take, replicate, copy_at, u32, ltb, leb, ◌==◌, if◌then◌else◌,
}
use go_capnproto.Prelude.{Result, ok, err, panic, ◌>>◌, must, check}
use go_capnproto.Prelude.{
  overlarge, segment_out_of_bounds, segment_32bit, nil_pointer, slice_bounds,
}
use go_capnproto.Prelude.{has_data, segment_too_small}
use go_capnproto.Address.{pad_to_word, add_size, word_size, max_size}
use go_capnproto.Segment.{Segment, end_address}

-- A byte slice: the bytes up to its length, and its capacity.
pub record Buffer : Type 0 where
  pub bytes : List ℕ
  pub capacity : ℕ

unfoldable pub has_capacity : Buffer → ℕ → Bool
has_capacity b sz = leb sz (u32 (b.capacity - length b.bytes))

-- The two arenas of the package. An arena's slice may lag behind the segment that was loaded from
-- it, which shares its bytes; it is read only for a segment that is not loaded.
pub data Arena : Type 0 where
  single_segment : Buffer → Arena
  multi_segment : List Buffer → Arena

abbrev pub SegmentTable : Type 0
SegmentTable = ℕ → Option Segment

pub record Message : Type 0 where
  pub arena : Arena
  pub cap_table : List ℕ
  pub segs : SegmentTable

abbrev pub default_buffer_size : ℕ
default_buffer_size = 4096

abbrev pub min_single_segment_growth : ℕ
min_single_segment_growth = 4096

-- `SingleSegment(b)` and `MultiSegment(b)`
unfoldable pub new_single_segment : Buffer → Arena
new_single_segment b =
    single_segment
      (if b.capacity == 0 then record { bytes = []; capacity = default_buffer_size } else b)

unfoldable pub num_segments : Arena → ℕ
num_segments (single_segment b) = 1
num_segments (multi_segment bs) = length bs

buffer_or : Option Buffer → Result Buffer
buffer_or none = err segment_out_of_bounds
buffer_or (some b) = ok b

unfoldable pub arena_data : Arena → ℕ → Result Buffer
unfolding buffer_or
arena_data (single_segment b) id = if id == 0 then ok b else err segment_out_of_bounds
arena_data (multi_segment bs) id = buffer_or (get_elem? bs id)

-- The slice of a segment that is loaded, or else the arena's.
abbrev pub loaded_or : Option Segment → Buffer → Buffer
loaded_or none b = b
loaded_or (some s) b = record { bytes = s.bytes; capacity = s.capacity }

-- The growth of an arena: at least `least`, and whole words.
abbrev pub growth : ℕ → ℕ → ℕ
growth least sz = if ltb sz least then least else pad_to_word sz

-- The loop of `multiSegmentArena.Allocate` over the segments from `i` on.
unfoldable pub first_with_room : List Buffer → ℕ → ℕ → SegmentTable → Option (ℕ × Buffer)
first_with_room [] i sz segs = none
first_with_room (b ∷ bs) i sz segs =
    let current = loaded_or (segs (u32 i)) b in
    if has_capacity current sz then some (u32 i, current) else first_with_room bs (i + 1) sz segs

allocate_multi : List Buffer → ℕ → Option (ℕ × Buffer) → ℕ × Buffer × Arena
allocate_multi bs sz (some (id, b)) = (id, b, multi_segment bs)
allocate_multi bs sz none =
    let buf : Buffer = record { bytes = []; capacity = growth default_buffer_size sz } in
    (u32 (length bs), buf, multi_segment (bs ++ (buf ∷ [])))

-- `Allocate` of both arenas, which never fails: the segment's id, its slice, and the arena.
unfoldable pub allocate : Arena → ℕ → SegmentTable → ℕ × Buffer × Arena
unfolding allocate_multi
allocate (single_segment b) sz segs =
    let current = loaded_or (segs 0) b in
    let grown : Buffer = record {
      bytes = current.bytes;
      capacity = current.capacity + growth min_single_segment_growth sz;
    } in
    if has_capacity current sz
    then (0, current, single_segment b)
    else (0, grown, single_segment grown)
allocate (multi_segment bs) sz segs = allocate_multi bs sz (first_with_room bs 0 sz segs)

-- A method of a message returns its result and the message. The ones here change nothing where
-- they fail.
abbrev pub M : Type 0 → Type 0
M A = Message → Result (A × Message)

infixl 5 ◌>>=◌
abbrev pub ◌>>=◌ : {A B : Type 0} → M A → (A → M B) → M B
◌>>=◌ m f s = elim (m s) [ ok (a, s') ↦ f a s' | err e ↦ err e | panic e ↦ panic e ]

abbrev pub return : {A : Type 0} → A → M A
return a m = ok (a, m)

-- A method whose first part returns goes on with its result.
pub >>=-ok :
    {A B : Type 0} (p : M A) (f : A → M B) (m m' : Message) (a : A)
    → p m ≡ ok (a, m')
    → (p >>= f) m ≡ f a m'
>>=-ok p f m m' a e = rw (e, ◌>>=◌)

abbrev pub is_int32_bit : Bool
is_int32_bit = false

abbrev pub update : SegmentTable → ℕ → Segment → SegmentTable
update segs id s j = if j == id then some s else segs j

abbrev pub segment_of : ℕ → Buffer → Segment
segment_of id b = record { id = id; bytes = b.bytes; capacity = b.capacity }

-- A segment that is there keeps its identity and takes the slice, so both branches are one here.
unfoldable pub set_segment : ℕ → Buffer → M Segment
set_segment id b m = let s = segment_of id b in ok (s, record m { segs = update m.segs id s })

abbrev pub read_segment : ℕ → Result Buffer → M Segment
read_segment id (ok b) m = set_segment id b m
read_segment id (err e) m = err e
read_segment id (panic e) m = panic e

segment_or_load : ℕ → Option Segment → M Segment
segment_or_load id (some s) m = ok (s, m)
segment_or_load id none m =
    if leb (num_segments m.arena) id
    then err segment_out_of_bounds
    else read_segment id (arena_data m.arena id) m

-- `Message.Segment`
unfoldable pub segment : ℕ → M Segment
unfolding segment_or_load
segment id m =
    if is_int32_bit && ltb (2 ^ 31 - 1) id
    then err segment_32bit
    else segment_or_load id (m.segs id) m

unfoldable pub alloc_segment : ℕ → M Segment
alloc_segment sz m =
    let (id, b, arena) = allocate m.arena sz m.segs in
    if is_int32_bit && ltb (2 ^ 31 - 1) id
    then err segment_32bit
    else set_segment id b (record m { arena = arena })

-- `s.data = s.data[:end]`, and zeros from `addr` up to `end`.
unfoldable pub extend : Segment → ℕ → ℕ → M (ℕ × ℕ)
extend s addr end m =
    if leb end s.capacity
    then (let grown = record s {
      bytes =
          copy_at (take end s.bytes ++ replicate (end - length s.bytes) 0) addr
            (replicate (end - addr) 0);
    } in
        ok ((s.id, addr), record m { segs = update m.segs s.id grown }))
    else panic slice_bounds

-- A `*Segment` is known by its id: the segment is the one that the table holds.
unfoldable pub deref : ℕ → M Segment
deref id m = elim (m.segs id) [ none ↦ panic nil_pointer | some s ↦ ok (s, m) ]

abbrev pub data_of : Segment → Buffer
data_of s = record { bytes = s.bytes; capacity = s.capacity }

unfoldable pub pick_segment : Segment → ℕ → M Segment
pick_segment s sz m = if has_capacity (data_of s) sz then ok (s, m) else alloc_segment sz m

abbrev pub lift : {A : Type 0} → Result A → M A
lift (ok a) m = ok (a, m)
lift (err e) m = err e
lift (panic e) m = panic e

-- `alloc` for a segment that is found in the table: the id of the segment that has the new bytes,
-- and their address in it.
unfoldable pub alloc_in : Segment → ℕ → M (ℕ × ℕ)
alloc_in s sz = do
  let padded = pad_to_word sz
  _ ← lift (check (leb padded (max_size - word_size)) overlarge)
  t ← pick_segment s padded
  end ← lift (add_size (end_address t) padded)
  extend t (end_address t) end

unfoldable pub alloc : ℕ → ℕ → M (ℕ × ℕ)
alloc id sz = do s ← deref id; alloc_in s sz

-- `AddCap`
unfoldable pub add_cap : ℕ → M ℕ
add_cap client m =
    ok (u32 (length m.cap_table), record m { cap_table = m.cap_table ++ (client ∷ []) })

-- A segment without data, and with room for the root pointer's word.
check_empty : Segment → M Segment
check_empty s = do
  _ ← lift (check (leb (length s.bytes) 0) has_data)
  _ ← lift (check (has_capacity (data_of s) word_size) segment_too_small)
  return s

-- The first segment by the number of segments in the arena.
first_segment : ℕ → M Segment
unfolding check_empty
first_segment n =
    if n == 0
    then alloc_segment default_buffer_size
    else if n == 1
    then (segment 0 >>= check_empty)
    else (λ m. err has_data)

-- The allocation of the root's word is made for its effect: an error of it is dropped.
ignore_error : ℕ → Message → Result ((ℕ × ℕ) × Message) → Result (ℕ × Message)
ignore_error id m (ok (a, m')) = ok (id, m')
ignore_error id m (err e) = ok (id, m)
ignore_error id m (panic e) = panic e

-- `NewMessage`: the message, and the id of its first segment.
unfoldable pub new_message : Arena → Result (ℕ × Message)
unfolding first_segment ignore_error
new_message arena =
    (first_segment (num_segments arena) >>= λ s m. ignore_error s.id m (alloc s.id word_size m))
      (record { arena = arena; cap_table = []; segs = λ id. none })

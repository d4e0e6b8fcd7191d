-- ===== src/Message/Valid.antt =====
-- mem.go: the invariant of a message, and the arenas' promise to find room.
use go_capnproto.Prelude.{ℕ, ◌+◌, ◌-◌, ◌%◌, ◌^◌, ◌≤◌, ◌<◌, ◌≡◌, arith, ap, inl, inr}
use go_capnproto.Prelude.{List, [], ◌∷◌, ◌++◌, Option, none, some, length, u32, true}
use go_capnproto.Prelude.{Bool-cases, Option-cases, length-append}
use native.Mathlib.Nat.{mod-eq_of_lt}
use go_capnproto.Address.Laws.{pad_to_word_lem}
use go_capnproto.Segment.{Segment}
use go_capnproto.Message.{
  Buffer, Arena, single_segment, multi_segment, SegmentTable, Message, data_of,
}
use go_capnproto.Message.{has_capacity, num_segments, loaded_or, growth, first_with_room, allocate}
use go_capnproto.Message.{allocate_multi}

-- Whole words, within the capacity, and `n` more bytes keep the length a uint32.
abbrev pub BufferOk : ℕ → Buffer → Type 0
BufferOk n b =
    (length b.bytes ≤ b.capacity) × (length b.bytes % 8 ≡ 0) × (length b.bytes + n < 2 ^ 32)

abbrev pub AllOk : ℕ → List Buffer → Type 0
AllOk n [] = Unit {0}
AllOk n (b ∷ bs) = BufferOk n b × AllOk n bs

abbrev pub ArenaOk : ℕ → Arena → Type 0
ArenaOk n (single_segment b) = BufferOk n b
ArenaOk n (multi_segment bs) = AllOk n bs

abbrev pub TableOk : ℕ → SegmentTable → Type 0
TableOk n segs = (i : ℕ) (s : Segment) → segs i ≡ some s → (s.id ≡ i) × BufferOk n (data_of s)

-- The table holds segments of the arena only, each under its id.
pub record IsValid (n : ℕ) (m : Message) : Type 0 where
  pub arena_ok : ArenaOk n m.arena
  pub table_ok : TableOk n m.segs
  pub unloaded : (i : ℕ) → num_segments m.arena ≤ i → m.segs i ≡ none

-- What an arena's answer promises for `sz` bytes.
pub record Found (n sz : ℕ) (segs : SegmentTable) (id : ℕ) (b : Buffer) : Type 0 where
  pub room : length b.bytes + sz ≤ b.capacity
  pub good : BufferOk n b
  pub same : (s : Segment) → segs id ≡ some s → b.bytes ≡ s.bytes

loaded_or-ok :
    (n i : ℕ) (segs : SegmentTable) (b : Buffer)
    → TableOk n segs
    → BufferOk n b
    → BufferOk n (loaded_or (segs i) b)
loaded_or-ok n i segs b table h = elim (Option-cases (segs i)) [
  | inl e ↦ rw e h
  | inr (s, e) ↦ rw e (table i s e).1
]

loaded_or-same :
    (i : ℕ) (segs : SegmentTable) (b : Buffer) (s : Segment)
    → segs i ≡ some s
    → (loaded_or (segs i) b).bytes ≡ s.bytes
loaded_or-same i segs b s e = rw e

pub has_capacity_room :
    (n sz : ℕ) (b : Buffer)
    → BufferOk n b
    → has_capacity b sz ≡ true
    → length b.bytes + sz ≤ b.capacity
unfolding has_capacity
has_capacity_room n sz b h e = ground arith

pub growth_enough : (least sz : ℕ) → sz ≤ 2 ^ 32 - 8 → sz ≤ growth least sz
growth_enough least sz h = ground (arith, pad_to_word_lem sz)

abbrev pub FoundIn : ℕ → ℕ → SegmentTable → ℕ → Option (ℕ × Buffer) → Type 0
FoundIn n sz segs end none = Unit {0}
FoundIn n sz segs end (some (id, b)) = Found n sz segs id b × (id < end)

-- The segment that the loop over the arena's slices stops at.
pub first_with_room_found :
    (n sz : ℕ) (bs : List Buffer) (i end : ℕ) (segs : SegmentTable)
    → TableOk n segs
    → AllOk n bs
    → i + length bs ≡ end
    → end < 2 ^ 32
    → FoundIn n sz segs end (first_with_room bs i sz segs)
unfolding first_with_room
first_with_room_found n sz [] i end segs table h e small = tt
first_with_room_found n sz (c ∷ bs) i end segs table (hc, h) e small =
    elim (Bool-cases (has_capacity (loaded_or (segs (u32 i)) c) sz)) [
      | inl fits ↦ rw fits (
        record {
          room = has_capacity_room n sz (loaded_or (segs (u32 i)) c) current fits;
          good = current;
          same = loaded_or-same (u32 i) segs c;
        },
        omega arith,
      )
      | inr no_room ↦
          rw no_room (first_with_room_found n sz bs (i + 1) end segs table h (omega arith) small)
    ]
  where
    current : BufferOk n (loaded_or (segs (u32 i)) c)
    current = loaded_or-ok n (u32 i) segs c table hc

AllOk-append :
    (n : ℕ) (bs : List Buffer) (b : Buffer) → AllOk n bs → BufferOk n b → AllOk n (bs ++ (b ∷ []))
AllOk-append n [] b h hb = (hb, tt)
AllOk-append n (c ∷ bs) b (hc, h) hb = (hc, AllOk-append n bs b h hb)

-- What `Allocate` gives back: an arena that is well formed and no smaller, with an id in it.
pub record Allocated (n sz : ℕ) (segs : SegmentTable) (before id : ℕ) (b : Buffer) (a : Arena)
    : Type 0 where
  pub found : Found n sz segs id b
  pub arena_ok : ArenaOk n a
  pub known : id < num_segments a
  pub grown : before ≤ num_segments a

abbrev pub AllocatedIn : ℕ → ℕ → SegmentTable → ℕ → ℕ × Buffer × Arena → Type 0
AllocatedIn n sz segs before (id, b, a) = Allocated n sz segs before id b a

allocate_multi_found :
    (n sz : ℕ) (segs : SegmentTable) (bs : List Buffer) (o : Option (ℕ × Buffer))
    → AllOk n bs
    → length bs < 2 ^ 32
    → segs (length bs) ≡ none
    → sz ≤ 2 ^ 32 - 8
    → n < 2 ^ 32
    → FoundIn n sz segs (length bs) o
    → AllocatedIn n sz segs (length bs) (allocate_multi bs sz o)
unfolding allocate_multi num_segments
allocate_multi_found n sz segs bs none ok few fresh hsz hn h = record {
  found = record {
    room = omega (arith, growth_enough 4096 sz hsz);
    good = (omega arith, omega arith, omega arith);
    same = λ s p. absurd (cc (ap segs (mod-eq_of_lt few), fresh, p));
  };
  arena_ok = AllOk-append n bs _ ok (omega arith, omega arith, omega arith);
  known = omega (arith, length-append bs);
  grown = omega (arith, length-append bs);
}
allocate_multi_found n sz segs bs (some (id, b)) ok few fresh hsz hn (h, lt) = record {
  found = h;
  arena_ok = ok;
  known = lt;
  grown = omega arith;
}

allocate_single_found :
    (n sz : ℕ) (segs : SegmentTable) (b : Buffer)
    → BufferOk n b
    → TableOk n segs
    → sz ≤ 2 ^ 32 - 8
    → AllocatedIn n sz segs 1 (allocate (single_segment b) sz segs)
unfolding allocate num_segments
allocate_single_found n sz segs b ok table hsz = elim (Bool-cases (has_capacity current sz)) [
  | inl fits ↦ rw fits (record {
    found = record {
      room = has_capacity_room n sz current good fits;
      good = good;
      same = loaded_or-same 0 segs b;
    };
    arena_ok = ok;
    known = omega arith;
    grown = omega arith;
  })
  | inr no_room ↦ rw no_room (record {
    found = record {
      room = omega (arith, good, growth_enough 4096 sz hsz);
      good = omega (arith, good);
      same = loaded_or-same 0 segs b;
    };
    arena_ok = omega (arith, good);
    known = omega arith;
    grown = omega arith;
  })
]
  where
    current : Buffer
    current = loaded_or (segs 0) b

    good : BufferOk n current
    good = loaded_or-ok n 0 segs b table ok

allocate_by_arena :
    (n sz : ℕ) (segs : SegmentTable) (a : Arena)
    → TableOk n segs
    → ArenaOk n a
    → num_segments a < 2 ^ 32
    → ((i : ℕ) → num_segments a ≤ i → segs i ≡ none)
    → sz ≤ 2 ^ 32 - 8
    → n < 2 ^ 32
    → AllocatedIn n sz segs (num_segments a) (allocate a sz segs)
unfolding num_segments
allocate_by_arena n sz segs (single_segment b) table ok few unloaded hsz hn =
    allocate_single_found n sz segs b ok table hsz
allocate_by_arena n sz segs (multi_segment bs) table ok few unloaded hsz hn =
    unfold allocate in
    allocate_multi_found n sz segs bs (first_with_room bs 0 sz segs) ok few
      (unloaded (length bs) (omega arith)) hsz hn
      (first_with_room_found n sz bs 0 (length bs) segs table ok (omega arith) few)

-- Both arenas keep the promise of the interface: the slice that `Allocate` returns has room for
-- `sz` more bytes, has the bytes of the segment where one is loaded, and belongs to a segment of
-- the arena, which is well formed and no smaller.
pub allocate_found :
    (n sz : ℕ) (m : Message)
    → IsValid n m
    → num_segments m.arena < 2 ^ 32
    → sz ≤ 2 ^ 32 - 8
    → n < 2 ^ 32
    → AllocatedIn n sz m.segs (num_segments m.arena) (allocate m.arena sz m.segs)
allocate_found n sz m v few hsz hn =
    allocate_by_arena n sz m.segs m.arena v.table_ok v.arena_ok few v.unloaded hsz hn

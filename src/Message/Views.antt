-- ===== src/Message/Views.antt =====
-- mem.go: the bytes of a message's segments, loaded or not, and what an arena's answer does to them.
use go_capnproto.Prelude.{
  ℕ, zero, suc, ◌+◌, ◌^◌, ◌≤◌, ◌<◌, ◌≡◌, ◌≢◌, refl, arith, ap, ◌∙◌, List, [], ◌∷◌, ◌++◌, Option,
  none, some, length, get_or, Bool-cases, inl, inr, u32, length-append,
}
use native.Mathlib.Nat.{mod-eq_of_lt}
use go_capnproto.Message.{
  Buffer, Arena, single_segment, multi_segment, SegmentTable, Message, num_segments, loaded_or,
  has_capacity, first_with_room, allocate, allocate_multi,
}

abbrev pub no_buffer : Buffer
no_buffer = record { bytes = []; capacity = 0 }

abbrev pub arena_buffer : Arena → ℕ → Buffer
arena_buffer (single_segment b) i = b
arena_buffer (multi_segment bs) i = get_or bs i no_buffer

-- The bytes that a reader of segment `i` sees.
abbrev pub view : Message → ℕ → List ℕ
view m i = (loaded_or (m.segs i) (arena_buffer m.arena i)).bytes

-- An arena's answer: the bytes of the segment that it gives, and the slices of the others.
pub record Answered (segs : SegmentTable) (before : Arena) (id : ℕ) (b : Buffer) (a : Arena)
    : Type 0 where
  pub grown : num_segments before ≤ num_segments a
  pub own :
      id < num_segments before → b.bytes ≡ (loaded_or (segs id) (arena_buffer before id)).bytes
  pub others : (j : ℕ) → j < num_segments before → j ≢ id → arena_buffer a j ≡ arena_buffer before j

abbrev pub AnsweredIn : SegmentTable → Arena → ℕ × Buffer × Arena → Type 0
AnsweredIn segs before (id, b, a) = Answered segs before id b a

-- Where the loop over the slices `bs`, the first of which is of segment `i`, stops.
abbrev StopsAt : SegmentTable → ℕ → List Buffer → Option (ℕ × Buffer) → Type 0
StopsAt segs i bs none = Unit {0}
StopsAt segs i bs (some (id, b)) =
    (k : ℕ) × (id ≡ i + k) × (b.bytes ≡ (loaded_or (segs id) (get_or bs k no_buffer)).bytes)

first_with_room-StopsAt :
    (bs : List Buffer) (i sz : ℕ) (segs : SegmentTable)
    → i + length bs < 2 ^ 32
    → StopsAt segs i bs (first_with_room bs i sz segs)
unfolding first_with_room
first_with_room-StopsAt [] i sz segs small = tt
first_with_room-StopsAt (c ∷ bs) i sz segs small =
    elim (Bool-cases (has_capacity (loaded_or (segs (u32 i)) c) sz)) [
      | inl fits ↦ rw fits (0, mod-eq_of_lt {n = i} {m = 2 ^ 32} (omega arith) ∙ omega arith, refl)
      | inr no_room ↦ rw no_room (
          further (first_with_room bs (i + 1) sz segs)
            (first_with_room-StopsAt bs (i + 1) sz segs (omega arith)))
    ]
  where
    further : (o : Option (ℕ × Buffer)) → StopsAt segs (i + 1) bs o → StopsAt segs i (c ∷ bs) o
    further none h = tt
    further (some (id, b)) (k, e, h) = (suc k, omega (arith, e), h)

get_or-append :
    (bs : List Buffer) (b : Buffer) (j : ℕ)
    → j < length bs
    → get_or (bs ++ (b ∷ [])) j no_buffer ≡ get_or bs j no_buffer
get_or-append [] b j h = absurd (omega arith)
get_or-append (c ∷ bs) b zero h = refl
get_or-append (c ∷ bs) b (suc j) h = get_or-append bs b j (omega arith)

allocate_multi-Answered :
    (segs : SegmentTable) (bs : List Buffer) (sz : ℕ) (o : Option (ℕ × Buffer))
    → length bs < 2 ^ 32
    → StopsAt segs 0 bs o
    → AnsweredIn segs (multi_segment bs) (allocate_multi bs sz o)
unfolding allocate_multi num_segments
allocate_multi-Answered segs bs sz none few h = record {
  grown = omega (arith, length-append bs);
  own = λ known. absurd (omega (arith, few));
  others = λ j known ne. get_or-append bs _ j known;
}
allocate_multi-Answered segs bs sz (some (id, b)) few (k, e, h) =
    let same : k ≡ id = omega (arith, e) in
    record {
      grown = omega arith;
      own = λ _. h ∙ ap (λ n. (loaded_or (segs id) (get_or bs n no_buffer)).bytes) same;
      others = λ j known ne. refl;
    }

pub allocate-Answered :
    (segs : SegmentTable) (a : Arena) (sz : ℕ)
    → num_segments a < 2 ^ 32
    → AnsweredIn segs a (allocate a sz segs)
unfolding num_segments
allocate-Answered segs (multi_segment bs) sz few =
    unfold allocate in
    allocate_multi-Answered segs bs sz (first_with_room bs 0 sz segs) few
      (first_with_room-StopsAt bs 0 sz segs (omega (arith, few)))
allocate-Answered segs (single_segment b) sz few =
    unfold allocate in
    elim (Bool-cases (has_capacity (loaded_or (segs 0) b) sz)) [
      | inl fits ↦
          rw fits (record { grown = omega arith; own = λ _. refl; others = λ j known ne. refl })
      | inr no_room ↦ rw no_room (record {
        grown = omega arith;
        own = λ _. refl;
        others = λ j known ne. absurd (ne (omega arith));
      })
    ]

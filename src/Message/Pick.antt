-- ===== src/Message/Pick.antt =====
-- mem.go: the segment that `alloc` goes to, in the table with the arena's answer.
use go_capnproto.Prelude.{ℕ, ◌+◌, ◌-◌, ◌^◌, ◌≤◌, ◌<◌, ◌≡◌, ◌≢◌, refl, arith, ap, ◌∙◌, inl, inr, sym}
use go_capnproto.Prelude.{none, some, length}
use go_capnproto.Prelude.{Bool-cases}
use go_capnproto.Prelude.{ok}
use go_capnproto.Segment.{Segment}
use go_capnproto.Message.{Buffer, Arena, SegmentTable, Message, data_of, segment_of, has_capacity}
use go_capnproto.Message.{num_segments, allocate, alloc_segment, pick_segment}
use go_capnproto.Message.{set_segment, update}
use go_capnproto.Message.{loaded_or}
use go_capnproto.Message.Views.{arena_buffer, view, Answered, allocate-Answered}
use go_capnproto.Message.Valid.{BufferOk, TableOk, IsValid, Allocated}
use go_capnproto.Message.Valid.{allocate_found, has_capacity_room}
use native.Mathlib.Decide.{ℕ_discrete}
use mathlib.Core.Option.{some-injective}
use mathlib.Core.Path.{subst}

pub update_self : (segs : SegmentTable) (id : ℕ) (t : Segment) → update segs id t id ≡ some t
update_self segs id t = ground arith

pub update_ne :
    (segs : SegmentTable) (id : ℕ) (t : Segment) (j : ℕ) → j ≢ id → update segs id t j ≡ segs j
update_ne segs id t j ne = ground arith

pub TableOk-update :
    (n id : ℕ) (segs : SegmentTable) (t : Segment)
    → TableOk n segs
    → t.id ≡ id
    → BufferOk n (data_of t)
    → TableOk n (update segs id t)
TableOk-update n id segs t table e good i s h = elim (ℕ_discrete i id) [
  | yes p ↦
      let same : t ≡ s =
        some-injective _ _ (sym (update_self segs id t) ∙ ap (update segs id t) (sym p) ∙ h) in
      subst (λ (u : Segment). (u.id ≡ i) × BufferOk n (data_of u)) same (e ∙ sym p, good)
  | no ne ↦ table i s (sym (update_ne segs id t i ne) ∙ h)
]

pub unloaded-update :
    (segs : SegmentTable) (id count : ℕ) (t : Segment)
    → id < count
    → ((i : ℕ) → count ≤ i → segs i ≡ none)
    → (i : ℕ) → count ≤ i
    → update segs id t i ≡ none
unloaded-update segs id count t known unloaded i h =
    update_ne segs id t i (λ e. omega arith) ∙ unloaded i h

-- What `pick_segment` leaves: a segment of the table with room, and the others as they were.
pub record Picked (n : ℕ) (m : Message) (t : Segment) (m' : Message) : Type 0 where
  pub room : length t.bytes + n ≤ t.capacity
  pub good : BufferOk n (data_of t)
  pub here : m'.segs t.id ≡ some t
  pub kept : (s : Segment) → m.segs t.id ≡ some s → t.bytes ≡ s.bytes
  pub others : (j : ℕ) → j ≢ t.id → m'.segs j ≡ m.segs j
  pub valid : IsValid n m'
  pub more : num_segments m.arena ≤ num_segments m'.arena
  pub own_view : t.id < num_segments m.arena → t.bytes ≡ view m t.id
  pub views : (j : ℕ) → j < num_segments m.arena → j ≢ t.id → view m' j ≡ view m j

-- The table with an arena's answer.
Picked-Allocated :
    (n : ℕ) (m : Message) (id : ℕ) (b : Buffer) (a : Arena)
    → IsValid n m
    → Allocated n n m.segs (num_segments m.arena) id b a
    → Answered m.segs m.arena id b a
    → Picked n m
        (segment_of id b)
        (record m { arena = a; segs = update m.segs id (segment_of id b) })
Picked-Allocated n m id b a v h h' = record {
  room = h.found.room;
  good = h.found.good;
  here = update_self m.segs id (segment_of id b);
  kept = h.found.same;
  others = update_ne m.segs id (segment_of id b);
  valid = record {
    arena_ok = h.arena_ok;
    table_ok = TableOk-update n id m.segs (segment_of id b) v.table_ok refl h.found.good;
    unloaded =
        unloaded-update m.segs id (num_segments a) (segment_of id b) h.known
          (λ i c. v.unloaded i (omega (arith, h.grown, c)));
  };
  more = h'.grown;
  own_view = h'.own;
  views = λ j known ne.
      ap (λ o. (loaded_or o (arena_buffer a j)).bytes) (update_ne m.segs id (segment_of id b) j ne)
      ∙ ap (λ c. (loaded_or (m.segs j) c).bytes) (h'.others j known ne);
}

alloc_segment_lem :
    (n : ℕ) (m : Message)
    → IsValid n m
    → num_segments m.arena < 2 ^ 32
    → n ≤ 2 ^ 32 - 8
    → (t : Segment) × (m' : Message) × (alloc_segment n m ≡ ok (t, m')) × Picked n m t m'
unfolding alloc_segment set_segment
alloc_segment_lem n m v few hn =
    let (id, b, a) = allocate m.arena n m.segs in
    (
      segment_of id b,
      record m { arena = a; segs = update m.segs id (segment_of id b) },
      refl,
      Picked-Allocated n m id b a v (allocate_found n n m v few hn (omega arith))
          (allocate-Answered m.segs m.arena n few),
    )

pub pick_segment_lem :
    (n : ℕ) (m : Message) (s : Segment)
    → IsValid n m
    → m.segs s.id ≡ some s
    → num_segments m.arena < 2 ^ 32
    → n ≤ 2 ^ 32 - 8
    → (t : Segment) × (m' : Message) × (pick_segment s n m ≡ ok (t, m')) × Picked n m t m'
unfolding pick_segment
pick_segment_lem n m s v here few hn = elim (Bool-cases (has_capacity (data_of s) n)) [
  | inl fits ↦ (
    s,
    m,
    rw fits,
    record {
      room = has_capacity_room n n (data_of s) (v.table_ok s.id s here).1 fits;
      good = (v.table_ok s.id s here).1;
      here = here;
      kept = λ u e. ap (λ (x : Segment). x.bytes) (some-injective _ _ (sym here ∙ e));
      others = λ j ne. refl;
      valid = v;
      more = omega arith;
      own_view = λ _. sym (ap (λ o. (loaded_or o (arena_buffer m.arena s.id)).bytes) here);
      views = λ j known ne. refl;
    },
  )
  | inr no_room ↦ rw no_room (alloc_segment_lem n m v few hn)
]

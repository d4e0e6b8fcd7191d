-- ===== src/Message/Marshal/View.antt =====
-- mem.go: the bytes of a message's segments, loaded or not, and the reads of `Message.Segment`.
use go_capnproto.Prelude.{ℕ, zero, suc, ◌%◌, ◌^◌, ◌<◌, ◌≡◌, refl, arith, ap, ◌∙◌, sym}
use go_capnproto.Prelude.{List, [], ◌∷◌, none, some, length, get_elem?, get_or, ok}
use go_capnproto.Prelude.{inl, inr, Option-cases, lt→not_leb}
use native.Mathlib.Decide.{ℕ_discrete}
use go_capnproto.Segment.{Segment}
use go_capnproto.Message.{
  Buffer, Arena, single_segment, multi_segment, Message, segment, set_segment,
}
use go_capnproto.Message.{num_segments, arena_data, loaded_or, update, segment_of}
use go_capnproto.Message.Valid.{BufferOk, AllOk, ArenaOk, IsValid}
use go_capnproto.Message.Views.{no_buffer, arena_buffer, view}
use go_capnproto.Message.Pick.{update_self, update_ne}

pub view_unloaded :
    (m : Message) (i : ℕ) → m.segs i ≡ none → view m i ≡ (arena_buffer m.arena i).bytes
view_unloaded m i e = ap (λ o. (loaded_or o (arena_buffer m.arena i)).bytes) e

view_loaded : (m : Message) (i : ℕ) (s : Segment) → m.segs i ≡ some s → view m i ≡ s.bytes
view_loaded m i s e = ap (λ o. (loaded_or o (arena_buffer m.arena i)).bytes) e

get_elem?-get_or :
    (bs : List Buffer) (i : ℕ) → i < length bs → get_elem? bs i ≡ some (get_or bs i no_buffer)
get_elem?-get_or [] i h = absurd (omega arith)
get_elem?-get_or (b ∷ bs) zero h = refl
get_elem?-get_or (b ∷ bs) (suc i) h = get_elem?-get_or bs i (omega arith)

arena_data_lem : (a : Arena) (i : ℕ) → i < num_segments a → arena_data a i ≡ ok (arena_buffer a i)
unfolding arena_data num_segments
arena_data_lem (single_segment b) i h = ground arith
arena_data_lem (multi_segment bs) i h = rw (get_elem?-get_or bs i h)

-- What reading a segment leaves: the same message, but for what is loaded.
pub record Read (m : Message) (i : ℕ) (s : Segment) (m' : Message) : Type 0 where
  pub runs : segment i m ≡ ok (s, m')
  pub bytes : s.bytes ≡ view m i
  pub arena : m'.arena ≡ m.arena
  pub same : (j : ℕ) → view m' j ≡ view m j

view-update :
    (m : Message) (i : ℕ) (b : Buffer) (j : ℕ)
    → view m i ≡ b.bytes
    → view (record m { segs = update m.segs i (segment_of i b) }) j ≡ view m j
view-update m i b j h = elim (ℕ_discrete j i) [
  | yes e ↦
      ap (λ o. (loaded_or o (arena_buffer m.arena j)).bytes)
        (ap (update m.segs i (segment_of i b)) e ∙ update_self m.segs i (segment_of i b))
      ∙ sym h
      ∙ ap (view m) (sym e)
  | no ne ↦
      ap (λ o. (loaded_or o (arena_buffer m.arena j)).bytes)
        (update_ne m.segs i (segment_of i b) j ne)
]

-- Every segment of the arena can be read.
pub segment_lem :
    (m : Message) (i : ℕ)
    → i < num_segments m.arena
    → (s : Segment) × (m' : Message) × Read m i s m'
unfolding segment set_segment
segment_lem m i h = elim (Option-cases (m.segs i)) [
  | inl e ↦
      let b : Buffer = arena_buffer m.arena i in
      (
        segment_of i b,
        record m { segs = update m.segs i (segment_of i b) },
        record {
          runs = rw (e, lt→not_leb (num_segments m.arena) i h, arena_data_lem m.arena i h);
          bytes = sym (view_unloaded m i e);
          arena = refl;
          same = λ j. view-update m i b j (view_unloaded m i e);
        },
      )
  | inr (s, e) ↦ (
    s,
    m,
    record { runs = rw e; bytes = sym (view_loaded m i s e); arena = refl; same = λ j. refl },
  )
]

get_or-ok :
    (n i : ℕ) (bs : List Buffer) → AllOk n bs → i < length bs → BufferOk n (get_or bs i no_buffer)
get_or-ok n i [] h lt = absurd (omega arith)
get_or-ok n zero (b ∷ bs) (hb, h) lt = hb
get_or-ok n (suc i) (b ∷ bs) (hb, h) lt = get_or-ok n i bs h (omega arith)

arena_buffer-ok :
    (n i : ℕ) (a : Arena) → ArenaOk n a → i < num_segments a → BufferOk n (arena_buffer a i)
unfolding num_segments
arena_buffer-ok n i (single_segment b) h lt = h
arena_buffer-ok n i (multi_segment bs) h lt = get_or-ok n i bs h lt

-- In a valid message each segment is made of whole words, below 4 GB.
pub view_whole :
    (m : Message) (i : ℕ)
    → IsValid 0 m
    → i < num_segments m.arena
    → (length (view m i) % 8 ≡ 0) × (length (view m i) < 2 ^ 32)
view_whole m i v lt = elim (Option-cases (m.segs i)) [
  | inl e ↦
      let h = arena_buffer-ok 0 i m.arena v.arena_ok lt in
      rw (view_unloaded m i e) (omega (arith, h), omega (arith, h))
  | inr (s, e) ↦
      let h = (v.table_ok i s e).1 in rw (view_loaded m i s e) (omega (arith, h), omega (arith, h))
]

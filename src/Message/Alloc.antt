-- ===== src/Message/Alloc.antt =====
-- mem.go: `alloc` hands out fresh zeroed words and keeps what the message holds.
use go_capnproto.Prelude.{
  ℕ, zero, suc, ◌+◌, ◌-◌, ◌%◌, ◌^◌, ◌≤◌, ◌<◌, ◌≡◌, ◌≢◌, refl, arith, ap, ap₂, ◌∙◌, sym,
}
use go_capnproto.Prelude.{List, [], ◌∷◌, ◌++◌, some, length, take, drop, replicate, copy, copy_at}
use go_capnproto.Prelude.{length-append, length-replicate, take_all, take-append, drop-append}
use go_capnproto.Prelude.{ok, le→leb}
use go_capnproto.Address.{pad_to_word, add_size}
use go_capnproto.Address.Laws.{pad_to_word_lem, add_size_lem}
use go_capnproto.Segment.{Segment, end_address}
use go_capnproto.Message.{Buffer, Arena, Message, data_of}
use go_capnproto.Message.{
  multi_segment, single_segment, num_segments, alloc, alloc_in, pick_segment, deref,
}
use go_capnproto.Prelude.{check, leb, overlarge}
use go_capnproto.Message.{>>=-ok, lift, extend, update}
use go_capnproto.Message.Valid.{BufferOk, ArenaOk, IsValid}
use go_capnproto.Message.Valid.{AllOk}
use native.Mathlib.Nat.{mod-eq_of_lt}
use native.Mathlib.Decide.{ℕ_discrete}
use go_capnproto.Message.{loaded_or}
use go_capnproto.Message.Views.{arena_buffer, view}
use go_capnproto.Message.Pick.{update_self, update_ne, TableOk-update, Picked, pick_segment_lem}

module _ {ℓ} {A : Type ℓ} where
  copy-replicate : (n : ℕ) (a : A) → copy (replicate n a) (replicate n a) ≡ replicate n a
  copy-replicate zero a = refl
  copy-replicate (suc n) a = ap (λ t. a ∷ t) (copy-replicate n a)

  copy_at-append :
      (xs : List A) (n : ℕ) (a : A)
      → copy_at (xs ++ replicate n a) (length xs) (replicate n a) ≡ xs ++ replicate n a
  copy_at-append [] n a = copy-replicate n a
  copy_at-append (x ∷ xs) n a = ap (λ t. x ∷ t) (copy_at-append xs n a)

-- A segment with `n` zero bytes more.
abbrev pub grown : Segment → ℕ → Segment
grown s n = record s { bytes = s.bytes ++ replicate n 0 }

-- Within the capacity and below 4 GB, the new bytes are zeros and the old ones stay.
extend_lem :
    (s : Segment) (n : ℕ) (m : Message)
    → length s.bytes + n ≤ s.capacity
    → extend s (length s.bytes) (length s.bytes + n) m
      ≡ ok ((s.id, length s.bytes), record m { segs = update m.segs s.id (grown s n) })
unfolding extend
extend_lem s n m h = rw (le→leb (length s.bytes + n) s.capacity h) (
    ap
      (λ (b : List ℕ).
        ok
          ((s.id, length s.bytes), record m { segs = update m.segs s.id (record s { bytes = b }) }))
      bytes)
  where
    bytes :
        copy_at
          (take (length s.bytes + n) s.bytes ++ replicate (length s.bytes + n - length s.bytes) 0)
          (length s.bytes)
          (replicate (length s.bytes + n - length s.bytes) 0)
        ≡ s.bytes ++ replicate n 0
    bytes =
        ap₂ (λ (t : List ℕ) (k : ℕ). copy_at (t ++ replicate k 0) (length s.bytes) (replicate k 0))
          (take_all s.bytes (length s.bytes + n) (omega arith)) (omega arith)
        ∙ copy_at-append s.bytes n 0

BufferOk-weaken : (n : ℕ) (b : Buffer) → BufferOk n b → BufferOk 0 b
BufferOk-weaken n b h = omega arith

AllOk-weaken : (n : ℕ) (bs : List Buffer) → AllOk n bs → AllOk 0 bs
AllOk-weaken n [] h = tt
AllOk-weaken n (b ∷ bs) (hb, h) = (BufferOk-weaken n b hb, AllOk-weaken n bs h)

ArenaOk-weaken : (n : ℕ) (a : Arena) → ArenaOk n a → ArenaOk 0 a
ArenaOk-weaken n (single_segment b) h = BufferOk-weaken n b h
ArenaOk-weaken n (multi_segment bs) h = AllOk-weaken n bs h

-- The outcome of `alloc` of `n` bytes, and what becomes of a segment `u` under the id `j`.
pub record Fresh (n : ℕ) (m : Message) (j : ℕ) (u : Segment) (id addr : ℕ) (m' : Message)
    : Type 0 where
  pub valid : IsValid 0 m'
  pub target : Segment
  pub here : m'.segs id ≡ some target
  pub aligned : addr % 8 ≡ 0
  pub last : length target.bytes ≡ addr + n
  pub zeroed : drop addr target.bytes ≡ replicate n 0
  pub after : Segment
  pub kept : m'.segs j ≡ some after
  pub prefix : take (length u.bytes) after.bytes ≡ u.bytes
  pub untouched : j ≢ id → after ≡ u

-- Every segment, loaded or not, keeps its bytes as a prefix; one that is not extended is unchanged.
pub record Kept (m : Message) (id : ℕ) (m' : Message) : Type 0 where
  pub more : num_segments m.arena ≤ num_segments m'.arena
  pub prefix : (j : ℕ) → j < num_segments m.arena → take (length (view m j)) (view m' j) ≡ view m j
  pub others : (j : ℕ) → j < num_segments m.arena → j ≢ id → view m' j ≡ view m j

Kept-extended :
    (n : ℕ) (m m₁ : Message) (t : Segment)
    → Picked n m t m₁
    → Kept m t.id (record m₁ { segs = update m₁.segs t.id (grown t n) })
Kept-extended n m m₁ t p = record {
  more = p.more;
  prefix = λ j known. elim (ℕ_discrete j t.id) [
    | yes e ↦
        let bytes : t.bytes ≡ view m j =
          p.own_view (omega (arith, e, known)) ∙ ap (view m) (sym e) in
        ap (take (length (view m j))) (
          ap (λ o. (loaded_or o (arena_buffer m₁.arena j)).bytes)
            (ap (update m₁.segs t.id (grown t n)) e ∙ update_self m₁.segs t.id (grown t n)))
        ∙ ap (λ (b : List ℕ). take (length b) (t.bytes ++ replicate n 0)) (sym bytes)
        ∙ take-append t.bytes (replicate n 0)
        ∙ bytes
    | no ne ↦
        ap (take (length (view m j))) (other j known ne)
        ∙ take_all (view m j) (length (view m j)) (omega arith)
  ];
  others = other;
}
  where
    other :
        (j : ℕ)
        → j < num_segments m.arena
        → j ≢ t.id
        → view (record m₁ { segs = update m₁.segs t.id (grown t n) }) j ≡ view m j
    other j known ne =
        ap (λ o. (loaded_or o (arena_buffer m₁.arena j)).bytes)
          (update_ne m₁.segs t.id (grown t n) j ne)
        ∙ p.views j known ne

Fresh-IsValid :
    (n : ℕ) (m m₁ : Message) (t : Segment)
    → Picked n m t m₁
    → n % 8 ≡ 0
    → IsValid 0 (record m₁ { segs = update m₁.segs t.id (grown t n) })
Fresh-IsValid n m m₁ t p aligned = record {
  arena_ok = ArenaOk-weaken n m₁.arena p.valid.arena_ok;
  table_ok =
      TableOk-update 0 t.id m₁.segs (grown t n)
        (λ i s e.
          ((p.valid.table_ok i s e).0, BufferOk-weaken n (data_of s) (p.valid.table_ok i s e).1))
        refl grown_ok;
  unloaded = λ i c.
      update_ne m₁.segs t.id (grown t n) i (λ e. cc (p.valid.unloaded i c, p.here, ap m₁.segs e))
      ∙ p.valid.unloaded i c;
}
  where
    grown_ok : BufferOk 0 (data_of (grown t n))
    grown_ok =
        omega (
          arith,
          p.room,
          p.good,
          length-append t.bytes (replicate n 0),
          length-replicate {A = ℕ} n 0,
        )

Fresh-extended :
    (n : ℕ) (m m₁ : Message) (t u : Segment) (j : ℕ)
    → Picked n m t m₁
    → m.segs j ≡ some u
    → n % 8 ≡ 0
    → Fresh n m j u t.id (length t.bytes) (record m₁ { segs = update m₁.segs t.id (grown t n) })
Fresh-extended n m m₁ t u j p at aligned = elim (ℕ_discrete j t.id) [
  | yes e ↦
      let bytes : t.bytes ≡ u.bytes = p.kept u (ap m.segs (sym e) ∙ at) in
      record {
        valid = Fresh-IsValid n m m₁ t p aligned;
        target = grown t n;
        here = update_self m₁.segs t.id (grown t n);
        aligned = p.good.1;
        last = longer;
        zeroed = drop-append t.bytes (replicate n 0);
        after = grown t n;
        kept = ap (update m₁.segs t.id (grown t n)) e ∙ update_self m₁.segs t.id (grown t n);
        prefix =
            ap (λ (b : List ℕ). take (length b) (t.bytes ++ replicate n 0)) (sym bytes)
            ∙ take-append t.bytes (replicate n 0)
            ∙ bytes;
        untouched = λ ne. absurd (ne e);
      }
  | no ne ↦ record {
    valid = Fresh-IsValid n m m₁ t p aligned;
    target = grown t n;
    here = update_self m₁.segs t.id (grown t n);
    aligned = p.good.1;
    last = longer;
    zeroed = drop-append t.bytes (replicate n 0);
    after = u;
    kept = update_ne m₁.segs t.id (grown t n) j ne ∙ p.others j ne ∙ at;
    prefix = take_all u.bytes (length u.bytes) (omega arith);
    untouched = λ _. refl;
  }
]
  where
    longer : length (t.bytes ++ replicate n 0) ≡ length t.bytes + n
    longer = omega (arith, length-append t.bytes (replicate n 0), length-replicate {A = ℕ} n 0)

alloc_in_runs :
    (sz : ℕ) (m m₁ : Message) (s t : Segment)
    → pad_to_word sz ≤ 2 ^ 32 - 9
    → pick_segment s (pad_to_word sz) m ≡ ok (t, m₁)
    → Picked (pad_to_word sz) m t m₁
    → alloc_in s sz m
      ≡ ok (
        (t.id, length t.bytes),
        record m₁ { segs = update m₁.segs t.id (grown t (pad_to_word sz)) },
      )
unfolding alloc_in
alloc_in_runs sz m m₁ s t h picked p =
    let n : ℕ = pad_to_word sz in
    let small : length t.bytes % 2 ^ 32 ≡ length t.bytes =
      mod-eq_of_lt {n = length t.bytes} {m = 2 ^ 32} (omega (arith, p.good)) in
    let exact : (length t.bytes + n) % 2 ^ 32 ≡ length t.bytes + n =
      mod-eq_of_lt {n = length t.bytes + n} {m = 2 ^ 32} (omega (arith, p.good)) in
    >>=-ok (lift (check (leb n (2 ^ 32 - 9)) overlarge)) _ m m tt (rw (le→leb n (2 ^ 32 - 9) h))
    ∙ >>=-ok (pick_segment s n) _ m m₁ t picked
    ∙ >>=-ok (lift (add_size (end_address t) n)) (extend t (end_address t)) m₁ m₁
        (length t.bytes + n) (rw (small, add_size_lem (length t.bytes) n (omega arith), exact))
    ∙ ap (λ a. extend t a (length t.bytes + n) m₁) small
    ∙ extend_lem t n m₁ p.room

-- On a valid message of fewer than 2 ^ 32 segments, whose slices have `sz` bytes, padded to words, to
-- go before 4 GB, and for `sz` up to 2 ^ 32 - 16, `alloc` of a loaded segment succeeds. The bytes
-- that it hands out lie at the end of a segment, start at a word, are zero and as many as the padded
-- size. Every segment of the arena, loaded or not, keeps its bytes as a prefix, and one that is not
-- extended has the bytes that it had; a segment `u` that is loaded stays loaded, as it was unless it
-- is extended; the message stays valid.
pub alloc_lem :
    (id sz : ℕ) (m : Message) (s : Segment) (j : ℕ) (u : Segment)
    → IsValid (pad_to_word sz) m
    → num_segments m.arena < 2 ^ 32
    → sz ≤ 2 ^ 32 - 16
    → m.segs id ≡ some s
    → m.segs j ≡ some u
    → (id' : ℕ) × (addr : ℕ) × (m' : Message) × (alloc id sz m ≡ ok ((id', addr), m'))
      × Fresh (pad_to_word sz) m j u id' addr m'
      × Kept m id' m'
unfolding alloc deref
alloc_lem id sz m s j u v few hsz here at =
    let n : ℕ = pad_to_word sz in
    let own : s.id ≡ id = (v.table_ok id s here).0 in
    let (t, m₁, picked, p) =
      pick_segment_lem n m s v (ap m.segs own ∙ here) few (omega (arith, pad_to_word_lem sz)) in
    (
      t.id,
      length t.bytes,
      record m₁ { segs = update m₁.segs t.id (grown t n) },
      >>=-ok (deref id) (λ s. alloc_in s sz) m m s (rw (here, deref))
          ∙ alloc_in_runs sz m m₁ s t (omega (arith, pad_to_word_lem sz)) picked p,
      Fresh-extended n m m₁ t u j p at (pad_to_word_lem sz (omega arith)).0,
      Kept-extended n m m₁ t p,
    )

-- ===== src/Rpc/Slots/Laws.antt =====
-- rpc/tables.go: ids are unique while they are in use, and are used again.
use go_capnproto.Prelude.{
  ℕ, zero, suc, ◌+◌, ◌-◌, ◌^◌, ◌≤◌, ◌<◌, ◌≡◌, ◌≢◌, ◌⊎◌, inl, inr, refl, arith, ap, ◌∙◌, sym,
}
use go_capnproto.Prelude.{
  List, [], ◌∷◌, ◌++◌, Option, none, some, length, set, length-append, length-set,
}
use go_capnproto.Prelude.{get_elem?-set_self, get_elem?-set_ne, u32, ok}
use mathlib.Core.Path.{subst}
use native.Mathlib.Decide.{ℕ_discrete}
use go_capnproto.Rpc.Slots.{Idgen, next, remove, take_free, Slots, flat, slot, insert_next, clear}

abbrev pub In : ℕ → List ℕ → Type 0
In a [] = ⊥
In a (x ∷ xs) = (a ≡ x) ⊎ In a xs

abbrev pub Distinct : List ℕ → Type 0
Distinct [] = Unit {0}
Distinct (x ∷ xs) = ¬ In x xs × Distinct xs

-- The free list holds each free slot, once, and nothing else.
pub record IsValid {A : Type 0} (s : Slots A) : Type 0 where
  pub count : s.gen.i ≡ length s.tab
  pub free_slot : (id : ℕ) → In id s.gen.free → (id < length s.tab) × (slot s.tab id ≡ none)
  pub slot_free : (id : ℕ) → id < length s.tab → slot s.tab id ≡ none → In id s.gen.free
  pub distinct : Distinct s.gen.free

next_new : (gen : Idgen) → gen.free ≡ [] → next gen ≡ (gen.i, record gen { i = u32 (gen.i + 1) })
unfolding next
next_new gen e = ap (take_free gen) e

next_reuse :
    (gen : Idgen) (x : ℕ) (free : List ℕ)
    → gen.free ≡ x ∷ free
    → next gen ≡ (x, record gen { free = free })
unfolding next
next_reuse gen x free e = ap (take_free gen) e

module _ {A : Type 0} where
  pub slot-set_self :
      (tab : List (Option A)) (i : ℕ) (o : Option A) → i < length tab → slot (set tab i o) i ≡ o
  slot-set_self tab i o h = ap flat (get_elem?-set_self tab i o h)

  pub slot-set_ne :
      (tab : List (Option A)) (i j : ℕ) (o : Option A) → i ≢ j → slot (set tab i o) j ≡ slot tab j
  slot-set_ne tab i j o ne = ap flat (get_elem?-set_ne tab o ne)

  slot_outside : (tab : List (Option A)) (j : ℕ) → length tab ≤ j → slot tab j ≡ none
  slot_outside [] j h = refl
  slot_outside (o ∷ tab) zero h = absurd (omega arith)
  slot_outside (o ∷ tab) (suc j) h = slot_outside tab j (omega arith)

  slot-append_end : (tab : List (Option A)) (o : Option A) → slot (tab ++ (o ∷ [])) (length tab) ≡ o
  slot-append_end [] o = refl
  slot-append_end (p ∷ tab) o = slot-append_end tab o

  slot-append_ne :
      (tab : List (Option A)) (o : Option A) (j : ℕ)
      → j ≢ length tab
      → slot (tab ++ (o ∷ [])) j ≡ slot tab j
  slot-append_ne [] o zero ne = absurd (ne refl)
  slot-append_ne [] o (suc j) ne = refl
  slot-append_ne (p ∷ tab) o zero ne = refl
  slot-append_ne (p ∷ tab) o (suc j) ne = slot-append_ne tab o j (λ e. ne (ap suc e))

  -- The outcome of an insertion: a free slot now holds the entry made for its id, every other slot
  -- is as it was, and the table stays valid.
  pub record Inserted (entry : ℕ → A) (s : Slots A) (id : ℕ) (s' : Slots A) : Type 0 where
    pub runs : insert_next entry s ≡ ok (id, s')
    pub was_free : slot s.tab id ≡ none
    pub holds : slot s'.tab id ≡ some (entry id)
    pub others : (j : ℕ) → j ≢ id → slot s'.tab j ≡ slot s.tab j
    pub valid : IsValid s'
    pub grows : length s'.tab ≤ length s.tab + 1

  tab_append :
      (entry : ℕ → A) (s : Slots A)
      → s.gen.free ≡ []
      → s.gen.i ≡ length s.tab
      → insert_next entry s
        ≡ ok (
          s.gen.i,
          record {
            tab = s.tab ++ (some (entry s.gen.i) ∷ []);
            gen = record s.gen { i = u32 (s.gen.i + 1) };
          },
        )
  unfolding insert_next
  tab_append entry s e c = rw (next_new s.gen e) (ground arith)

  insert_new :
      (entry : ℕ → A) (s : Slots A)
      → IsValid s
      → s.gen.free ≡ []
      → length s.tab < 2 ^ 32 - 1
      → (id : ℕ) × (s' : Slots A) × Inserted entry s id s'
  insert_new entry s v e small =
      let n : ℕ = s.gen.i in
      let tab : List (Option A) = s.tab ++ (some (entry n) ∷ []) in
      let longer = length-append s.tab (some (entry n) ∷ []) in
      let at_end : slot tab n ≡ some (entry n) =
        ap (slot tab) v.count ∙ slot-append_end s.tab (some (entry n)) in
      let others : (j : ℕ) → j ≢ n → slot tab j ≡ slot s.tab j =
        λ j ne. slot-append_ne s.tab (some (entry n)) j (λ p. ne (p ∙ sym v.count)) in
      (
        n,
        record { tab = tab; gen = record s.gen { i = u32 (n + 1) } },
        record {
          runs = tab_append entry s e v.count;
          was_free = slot_outside s.tab n (omega (arith, v.count));
          holds = at_end;
          others = others;
          valid = record {
            count = omega (arith, longer, v.count, small);
            free_slot = λ id h. absurd (subst (In id) e h);
            slot_free = λ id lt h. elim (ℕ_discrete id n) [
              | yes p ↦ absurd (cc (at_end, ap (slot tab) p, h))
              | no ne ↦
                  v.slot_free id (omega (arith, longer, lt, ne, v.count)) (sym (others id ne) ∙ h)
            ];
            distinct = v.distinct;
          };
          grows = omega (arith, longer);
        },
      )

  tab_reuse :
      (entry : ℕ → A) (s : Slots A) (x : ℕ) (free : List ℕ)
      → s.gen.free ≡ x ∷ free
      → x < length s.tab
      → insert_next entry s
        ≡ ok (x, record { tab = set s.tab x (some (entry x)); gen = record s.gen { free = free } })
  unfolding insert_next
  tab_reuse entry s x free e h = rw (next_reuse s.gen x free e) (ground arith)

  -- An id of the free list is taken off it, and its slot is filled.
  insert_reused :
      (entry : ℕ → A) (s : Slots A) (x : ℕ) (free : List ℕ)
      → IsValid s
      → s.gen.free ≡ x ∷ free
      → (id : ℕ) × (s' : Slots A) × Inserted entry s id s'
  insert_reused entry s x free v e =
      let tab : List (Option A) = set s.tab x (some (entry x)) in
      let (lt, was_free) = v.free_slot x (subst (In x) (sym e) (inl refl)) in
      let kept = length-set s.tab x (some (entry x)) in
      let filled : slot tab x ≡ some (entry x) = slot-set_self s.tab x (some (entry x)) lt in
      let others : (j : ℕ) → j ≢ x → slot tab j ≡ slot s.tab j =
        λ j ne. slot-set_ne s.tab x j (some (entry x)) (λ p. ne (sym p)) in
      let (fresh, rest) = subst Distinct e v.distinct in
      (
        x,
        record { tab = tab; gen = record s.gen { free = free } },
        record {
          runs = tab_reuse entry s x free e lt;
          was_free = was_free;
          holds = filled;
          others = others;
          valid = record {
            count = v.count ∙ sym kept;
            free_slot = λ id h.
                let (lt', f) = v.free_slot id (subst (In id) (sym e) (inr h)) in
                (omega (arith, lt', kept), others id (λ p. fresh (subst (λ k. In k free) p h)) ∙ f);
            slot_free = λ id lt' h. elim (ℕ_discrete id x) [
              | yes p ↦ absurd (cc (filled, ap (slot tab) p, h))
              | no ne ↦ tail_of id ne (
                  subst (In id) e
                    (v.slot_free id (omega (arith, lt', kept)) (sym (others id ne) ∙ h)))
            ];
            distinct = rest;
          };
          grows = omega (arith, kept);
        },
      )
    where
      tail_of : (id : ℕ) → id ≢ x → In id (x ∷ free) → In id free
      tail_of id ne (inl p) = absurd (ne p)
      tail_of id ne (inr h) = h

  insert_by_free :
      (entry : ℕ → A) (s : Slots A) (free : List ℕ)
      → s.gen.free ≡ free
      → IsValid s
      → length s.tab < 2 ^ 32 - 1
      → (id : ℕ) × (s' : Slots A) × Inserted entry s id s'
  insert_by_free entry s [] e v small = insert_new entry s v e small
  insert_by_free entry s (x ∷ free) e v small = insert_reused entry s x free v e

  -- An insertion into a valid table succeeds, below 2 ^ 32 - 1 slots.
  pub insert_next_lem :
      (entry : ℕ → A) (s : Slots A)
      → IsValid s
      → length s.tab < 2 ^ 32 - 1
      → (id : ℕ) × (s' : Slots A) × Inserted entry s id s'
  insert_next_lem entry s v small = insert_by_free entry s s.gen.free refl v small

  pub slot_inside :
      (tab : List (Option A)) (id : ℕ) (a : A) → slot tab id ≡ some a → id < length tab
  slot_inside [] id a h = cc
  slot_inside (o ∷ tab) zero a h = omega arith
  slot_inside (o ∷ tab) (suc id) a h = omega (arith, slot_inside tab id a h)

  -- Clearing a slot in use frees it and its id, and touches no other slot.
  pub clear_lem :
      (id : ℕ) (s : Slots A) (a : A)
      → IsValid s
      → slot s.tab id ≡ some a
      → IsValid (clear id s)
        × (slot (clear id s).tab id ≡ none)
        × ((j : ℕ) → j ≢ id → slot (clear id s).tab j ≡ slot s.tab j)
  unfolding clear remove
  clear_lem id s a v used =
      let lt : id < length s.tab = slot_inside s.tab id a used in
      let kept = length-set s.tab id none in
      let empty : slot (set s.tab id none) id ≡ none = slot-set_self s.tab id none lt in
      let others : (j : ℕ) → j ≢ id → slot (set s.tab id none) j ≡ slot s.tab j =
        λ j ne. slot-set_ne s.tab id j none (λ p. ne (sym p)) in
      (
        record {
          count = v.count ∙ sym kept;
          free_slot = freed lt kept empty others;
          slot_free = λ j lt' h. elim (ℕ_discrete j id) [
            | yes p ↦ inl p
            | no ne ↦ inr (v.slot_free j (omega (arith, lt', kept)) (sym (others j ne) ∙ h))
          ];
          distinct = (λ h. cc ((v.free_slot id h).1, used), v.distinct);
        },
        empty,
        others,
      )
    where
      freed :
          id < length s.tab
          → length (set s.tab id none) ≡ length s.tab
          → slot (set s.tab id none) id ≡ none
          → ((j : ℕ) → j ≢ id → slot (set s.tab id none) j ≡ slot s.tab j)
          → (j : ℕ) → (j ≡ id) ⊎ In j s.gen.free
          → (j < length (set s.tab id none)) × (slot (set s.tab id none) j ≡ none)
      freed lt kept empty others j (inl p) =
          (omega (arith, p, lt, kept), ap (slot (set s.tab id none)) p ∙ empty)
      freed lt kept empty others j (inr h) =
          let (lt', f) = v.free_slot j h in
          (omega (arith, lt', kept), others j (λ p. cc (ap (slot s.tab) p, f, used)) ∙ f)

  -- Another entry in a slot in use.
  pub refill_lem :
      (id : ℕ) (s : Slots A) (a b : A)
      → IsValid s
      → slot s.tab id ≡ some a
      → IsValid (record s { tab = set s.tab id (some b) })
  refill_lem id s a b v used =
      let kept = length-set s.tab id (some b) in
      let lt : id < length s.tab = slot_inside s.tab id a used in
      let filled : slot (set s.tab id (some b)) id ≡ some b = slot-set_self s.tab id (some b) lt in
      let others : (j : ℕ) → j ≢ id → slot (set s.tab id (some b)) j ≡ slot s.tab j =
        λ j ne. slot-set_ne s.tab id j (some b) (λ p. ne (sym p)) in
      record {
        count = v.count ∙ sym kept;
        free_slot = λ j h.
            let (lt', f) = v.free_slot j h in
            (omega (arith, lt', kept), others j (λ p. cc (ap (slot s.tab) p, f, used)) ∙ f);
        slot_free = λ j lt' h. elim (ℕ_discrete j id) [
          | yes p ↦ absurd (cc (filled, ap (slot (set s.tab id (some b))) p, h))
          | no ne ↦ v.slot_free j (omega (arith, lt', kept)) (sym (others j ne) ∙ h)
        ];
        distinct = v.distinct;
      }

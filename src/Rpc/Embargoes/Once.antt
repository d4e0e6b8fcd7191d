-- ===== src/Rpc/Embargoes/Once.antt =====
-- rpc/tables.go: no channel of an embargo is closed twice, and a lifted embargo frees its id.
use go_capnproto.Prelude.{◌⊎◌, ℕ, ◌+◌, ◌-◌, ◌^◌, ◌<◌, ◌≡◌, ◌≢◌, refl, arith, ap, ◌∙◌, sym, inl, inr}
use go_capnproto.Prelude.{◌∷◌, none, some, length, ok, Option-cases}
use mathlib.Core.Option.{some-injective}
use native.Mathlib.Decide.{ℕ_discrete}
use go_capnproto.Rpc.Slots.{Slots, slot, clear}
use go_capnproto.Rpc.Slots.Laws.{In, Distinct, IsValid, Inserted, insert_next_lem, clear_lem}
use go_capnproto.Rpc.Embargoes.{EmbargoTable, new, disembargo}

-- Each channel in the table was made, is open, and stands in one slot; no channel was closed twice.
pub record EmbargoesValid (et : EmbargoTable) : Type 0 where
  pub slots_valid : IsValid et.slots
  pub pending : (i c : ℕ) → slot et.slots.tab i ≡ some c → (c < et.made) × ¬ In c et.closed
  pub one_each : (i j c : ℕ) → slot et.slots.tab i ≡ some c → slot et.slots.tab j ≡ some c → i ≡ j
  pub closed_made : (c : ℕ) → In c et.closed → c < et.made
  pub closed_once : Distinct et.closed

module _ (et : EmbargoTable) (v : EmbargoesValid et) (id : ℕ) (slots : Slots ℕ)
    (p : Inserted (λ i. et.made) et.slots id slots) where
  new_pending : (i c : ℕ) → slot slots.tab i ≡ some c → (c < et.made + 1) × ¬ In c et.closed
  new_pending i c h = elim (ℕ_discrete i id) [
    | yes q ↦
        let same : c ≡ et.made =
          some-injective c et.made (sym h ∙ ap (slot slots.tab) q ∙ p.holds) in
        (omega (arith, same), λ was. omega (arith, v.closed_made c was, same))
    | no ne ↦
        let (made, open_still) = v.pending i c (sym (p.others i ne) ∙ h) in
        (omega (arith, made), open_still)
  ]

  new_one_each : (i j c : ℕ) → slot slots.tab i ≡ some c → slot slots.tab j ≡ some c → i ≡ j
  new_one_each i j c hi hj = elim (ℕ_discrete i id) [
    | yes q ↦ elim (ℕ_discrete j id) [
      | yes r ↦ q ∙ sym r
      | no ne ↦ absurd (older j ne hj (made i q hi))
    ]
    | no ne ↦ elim (ℕ_discrete j id) [
      | yes r ↦ absurd (older i ne hi (made j r hj))
      | no ne' ↦ v.one_each i j c (sym (p.others i ne) ∙ hi) (sym (p.others j ne') ∙ hj)
    ]
  ]
    where
      made : (k : ℕ) → k ≡ id → slot slots.tab k ≡ some c → c ≡ et.made
      made k q h = some-injective c et.made (sym h ∙ ap (slot slots.tab) q ∙ p.holds)

      older : (k : ℕ) → k ≢ id → slot slots.tab k ≡ some c → c ≡ et.made → ⊥
      older k ne h same = omega (arith, (v.pending k c (sym (p.others k ne) ∙ h)).0, same)

  new-valid : EmbargoesValid (record et { slots = slots; made = et.made + 1 })
  new-valid = record {
    slots_valid = p.valid;
    pending = new_pending;
    one_each = new_one_each;
    closed_made = λ c h. omega (arith, v.closed_made c h);
    closed_once = v.closed_once;
  }

-- A new embargo gets a free id and a channel that is open, and the table stays valid.
pub new_lem :
    (et : EmbargoTable)
    → EmbargoesValid et
    → length et.slots.tab < 2 ^ 32 - 1
    → (id : ℕ) × (et' : EmbargoTable) × (new et ≡ ok ((id, et.made), et'))
      × (slot et.slots.tab id ≡ none)
      × (slot et'.slots.tab id ≡ some et.made)
      × EmbargoesValid et'
unfolding new
new_lem et v small =
    let (id, slots, p) = insert_next_lem (λ i. et.made) et.slots v.slots_valid small in
    (
      id,
      record et { slots = slots; made = et.made + 1 },
      rw p.runs,
      p.was_free,
      p.holds,
      new-valid et v id slots p,
    )

lifted-valid :
    (et : EmbargoTable) (id c : ℕ)
    → EmbargoesValid et
    → slot et.slots.tab id ≡ some c
    → EmbargoesValid (record et { slots = clear id et.slots; closed = c ∷ et.closed })
lifted-valid et id c v used =
    let (valid, empty, others) = clear_lem id et.slots c v.slots_valid used in
    let (made, open_still) = v.pending id c used in
    let back : (i d : ℕ)
        → slot (clear id et.slots).tab i ≡ some d
        → (i ≢ id) × (slot et.slots.tab i ≡ some d) =
      λ i d h. elim (ℕ_discrete i id) [
        | yes q ↦ absurd (cc (empty, ap (slot (clear id et.slots).tab) q, h))
        | no ne ↦ (ne, sym (others i ne) ∙ h)
      ] in
    record {
      slots_valid = valid;
      pending = λ i d h.
          let (ne, was) = back i d h in
          let (made', open') = v.pending i d was in
          (
            made',
            elim [
              | inl same ↦ ne (v.one_each i id c (was ∙ ap some same) used)
              | inr h' ↦ open' h'
            ],
          );
      one_each = λ i j d hi hj. v.one_each i j d (back i d hi).1 (back j d hj).1;
      closed_made = λ d. elim [ inl same ↦ rw same made | inr h ↦ v.closed_made d h ];
      closed_once = (open_still, v.closed_once);
    }

-- Lifting an embargo keeps the table valid, so that no channel is closed twice, makes no channel,
-- and leaves every other slot `j` as it was. Where the id has no embargo, the table does not change;
-- where it has one, its channel is closed and the id is free.
pub disembargo_lem :
    (id j : ℕ) (et : EmbargoTable)
    → EmbargoesValid et
    → j ≢ id
    → EmbargoesValid (disembargo id et)
      × ((disembargo id et).made ≡ et.made)
      × (slot (disembargo id et).slots.tab j ≡ slot et.slots.tab j)
      × (((slot et.slots.tab id ≡ none) × (disembargo id et ≡ et))
          ⊎ ((c : ℕ) × (slot et.slots.tab id ≡ some c)
              × (slot (disembargo id et).slots.tab id ≡ none)
              × ((disembargo id et).closed ≡ c ∷ et.closed)))
unfolding disembargo
disembargo_lem id j et v ne = elim (Option-cases (slot et.slots.tab id)) [
  | inl e ↦ rw e (v, refl, refl, inl (refl, refl))
  | inr (c, e) ↦
      let (_, empty, others) = clear_lem id et.slots c v.slots_valid e in
      rw e (lifted-valid et id c v e, refl, others j ne, inr (c, refl, empty, refl))
]

-- ===== src/Rpc/Exports/Laws.antt =====
-- rpc/tables.go: exports are counted, one to a client, and a client is closed when its last
-- reference is released.
use go_capnproto.Prelude.{
  ℕ, zero, suc, ◌+◌, ◌-◌, ◌^◌, ◌<◌, ◌≡◌, ◌≢◌, ◌⊎◌, inl, inr, refl, arith, ap, ◌∙◌, sym,
}
use go_capnproto.Prelude.{List, [], ◌∷◌, Option, none, some, length, ok, ◌==◌, Bool-cases}
use mathlib.Core.Path.{subst}
use mathlib.Core.Option.{some-injective}
use native.Mathlib.Decide.{ℕ_discrete}
use go_capnproto.Rpc.Slots.{slot}
use go_capnproto.Rpc.Slots.Laws.{
  IsValid, insert_next_lem, slot-set_ne, slot-set_self, slot_inside, refill_lem,
}
use go_capnproto.Rpc.Exports.{Export, ExportTable, get, find_client, new_export, set_entry}
use go_capnproto.Rpc.Exports.{add, add_new}

-- Each entry stands under its id with at least one reference, and no client has two.
pub record ExportsValid (et : ExportTable) : Type 0 where
  pub slots_valid : IsValid et.slots
  pub entry_ok : (id : ℕ) (e : Export) → get et id ≡ some e → (e.id ≡ id) × (0 < e.refs)
  pub one_each :
      (i j : ℕ) (d e : Export) → get et i ≡ some d → get et j ≡ some e → d.client ≡ e.client → i ≡ j

-- What the search for a client finds.
abbrev FoundAt : ℕ → List (Option Export) → ℕ → Option (ℕ × Export) → Type 0
FoundAt client tab i (some (k, e)) =
    (j : ℕ) × (k ≡ i + j) × (slot tab j ≡ some e) × (e.client ≡ client)
FoundAt client tab i none = (j : ℕ) (e : Export) → slot tab j ≡ some e → e.client ≢ client

FoundAt-skip :
    (client : ℕ) (o : Option Export) (tab : List (Option Export)) (i : ℕ) (r : Option (ℕ × Export))
    → ((e : Export) → o ≡ some e → e.client ≢ client)
    → FoundAt client tab (i + 1) r
    → FoundAt client (o ∷ tab) i r
FoundAt-skip client o tab i (some (k, e)) other (j, at, holds, same) =
    (suc j, omega (arith, at), holds, same)
FoundAt-skip client o tab i none other rest = by_place
  where
    by_place : (j : ℕ) (e : Export) → slot (o ∷ tab) j ≡ some e → e.client ≢ client
    by_place zero e h = other e h
    by_place (suc j) e h = rest j e h

find_client_lem :
    (client : ℕ) (tab : List (Option Export)) (i : ℕ)
    → FoundAt client tab i (find_client client tab i)
unfolding find_client
find_client_lem client [] i = λ j e h. cc
find_client_lem client (none ∷ tab) i =
    FoundAt-skip client none tab i (find_client client tab (i + 1)) (λ e h. cc)
      (find_client_lem client tab (i + 1))
find_client_lem client (some e ∷ tab) i = elim (Bool-cases (e.client == client)) [
  | inl same ↦ rw same (0, omega arith, refl, ground arith)
  | inr other ↦ rw other (
      FoundAt-skip client (some e) tab i (find_client client tab (i + 1))
        (λ d h p. ground (arith, ap (λ (x : Export). x.client) (some-injective e d h)))
        (find_client_lem client tab (i + 1)))
]

-- A table that differs from a valid one in a slot, which holds nothing or an entry of a client
-- that no other slot has.
module _ (et et' : ExportTable) (id : ℕ) (v : ExportsValid et) (slots_valid : IsValid et'.slots)
    (others : (j : ℕ) → j ≢ id → get et' j ≡ get et j)
    (own : (e : Export) → get et' id ≡ some e → (e.id ≡ id) × (0 < e.refs))
    (alone : (e : Export) (j : ℕ) (d : Export)
      → get et' id ≡ some e
      → j ≢ id
      → get et j ≡ some d
      → d.client ≢ e.client) where
  changed_entry_ok : (i : ℕ) (e : Export) → get et' i ≡ some e → (e.id ≡ i) × (0 < e.refs)
  changed_entry_ok i e h = elim (ℕ_discrete i id) [
    | yes p ↦ let (same, pos) = own e (ap (get et') (sym p) ∙ h) in (same ∙ sym p, pos)
    | no ne ↦ v.entry_ok i e (sym (others i ne) ∙ h)
  ]

  changed_one_each :
      (i j : ℕ) (d e : Export)
      → get et' i ≡ some d
      → get et' j ≡ some e
      → d.client ≡ e.client
      → i ≡ j
  changed_one_each i j d e hi hj c = elim (ℕ_discrete i id) [
    | yes p ↦ elim (ℕ_discrete j id) [
      | yes q ↦ p ∙ sym q
      | no ne ↦ absurd (alone d j e (ap (get et') (sym p) ∙ hi) ne (sym (others j ne) ∙ hj) (sym c))
    ]
    | no ne ↦ elim (ℕ_discrete j id) [
      | yes q ↦ absurd (alone e i d (ap (get et') (sym q) ∙ hj) ne (sym (others i ne) ∙ hi) c)
      | no ne' ↦ v.one_each i j d e (sym (others i ne) ∙ hi) (sym (others j ne') ∙ hj) c
    ]
  ]

  pub changed-valid : ExportsValid et'
  changed-valid = record {
    slots_valid = slots_valid;
    entry_ok = changed_entry_ok;
    one_each = changed_one_each;
  }

-- A slot in use with another entry of the same client.
pub set_entry-valid :
    (et : ExportTable) (id : ℕ) (d e : Export)
    → ExportsValid et
    → get et id ≡ some d
    → e.id ≡ id
    → e.client ≡ d.client
    → 0 < e.refs
    → ExportsValid (set_entry et id e)
      × (get (set_entry et id e) id ≡ some e)
      × ((j : ℕ) → j ≢ id → get (set_entry et id e) j ≡ get et j)
unfolding set_entry get
set_entry-valid et id d e v used own client pos =
    let holds : get (set_entry et id e) id ≡ some e =
      slot-set_self et.slots.tab id (some e) (slot_inside et.slots.tab id d used) in
    let others : (j : ℕ) → j ≢ id → get (set_entry et id e) j ≡ get et j =
      λ j ne. slot-set_ne et.slots.tab id j (some e) (λ p. ne (sym p)) in
    (
      changed-valid et (set_entry et id e) id v (refill_lem id et.slots d e v.slots_valid used)
          others
          (λ x h.
            subst (λ (y : Export). (y.id ≡ id) × (0 < y.refs)) (some-injective e x (sym holds ∙ h))
              (own, pos))
          (λ x j y h ne at same. ne (
            v.one_each j id y d at used (
              same ∙ ap (λ (z : Export). z.client) (some-injective x e (sym h ∙ holds)) ∙ client))),
      holds,
      others,
    )

-- `add` of a client that has an entry.
pub record Added (client : ℕ) (et : ExportTable) (id : ℕ) (et' : ExportTable) : Type 0 where
  pub runs : add client et ≡ ok (id, et')
  pub valid : ExportsValid et'
  pub others : (j : ℕ) → j ≢ id → get et' j ≡ get et j
  pub closed : et'.closed ≡ et.closed
  pub entry :
      (get et id ≡ none)
        × (get et' id ≡ some (new_export client id))
        × ((j : ℕ) (e : Export) → get et j ≡ some e → e.client ≢ client)
      ⊎ ((e : Export) × (get et id ≡ some e)
          × (e.client ≡ client)
          × (get et' id ≡ some (record e { refs = e.refs + 1 })))

add_found_lem :
    (client : ℕ) (et : ExportTable) (r : Option (ℕ × Export))
    → find_client client et.slots.tab 0 ≡ r
    → FoundAt client et.slots.tab 0 r
    → ExportsValid et
    → length et.slots.tab < 2 ^ 32 - 1
    → (id : ℕ) × (et' : ExportTable) × Added client et id et'
unfolding add add_new get
add_found_lem client et none found other v small =
    let (id, slots, p) = insert_next_lem (new_export client) et.slots v.slots_valid small in
    let et' : ExportTable = record et { slots = slots } in
    (
      id,
      et',
      record {
        runs = rw (found, p.runs);
        valid =
            changed-valid et et' id v p.valid p.others
              (λ e h.
                subst (λ (y : Export). (y.id ≡ id) × (0 < y.refs))
                  (some-injective (new_export client id) e (sym p.holds ∙ h)) (refl, omega arith))
              (λ e j d h ne at same. other j d at (
                same
                ∙ ap (λ (z : Export). z.client)
                    (some-injective e (new_export client id) (sym h ∙ p.holds))));
        others = p.others;
        closed = refl;
        entry = inl (p.was_free, p.holds, other);
      },
    )
add_found_lem client et (some (k, e)) found (id, at, holds, same) v small =
    let at' : k ≡ id = omega (arith, at) in
    let used : get et k ≡ some e = ap (slot et.slots.tab) at' ∙ holds in
    let (valid, changed, others) =
      set_entry-valid et k e (record e { refs = e.refs + 1 }) v used (v.entry_ok k e used).0 refl
        (omega arith) in
    (
      k,
      set_entry et k (record e { refs = e.refs + 1 }),
      record {
        runs = rw found;
        valid = valid;
        others = others;
        closed = unfold set_entry in refl;
        entry = inr (e, used, same, changed);
      },
    )

-- `add` succeeds on a valid table with fewer than 2 ^ 32 - 1 slots. A client that is in the table
-- keeps its id and has one reference more; one that is not gets a free slot, with one reference.
-- No other slot changes, nothing is closed, and the table stays valid.
pub add_lem :
    (client : ℕ) (et : ExportTable)
    → ExportsValid et
    → length et.slots.tab < 2 ^ 32 - 1
    → (id : ℕ) × (et' : ExportTable) × Added client et id et'
add_lem client et v small =
    add_found_lem client et (find_client client et.slots.tab 0) refl
      (find_client_lem client et.slots.tab 0) v small

-- ===== src/Rpc/Exports/Release.antt =====
-- rpc/tables.go: `release`, and what it undoes of `add`.
use go_capnproto.Prelude.{ℕ, ◌+◌, ◌-◌, ◌^◌, ◌<◌, ◌≡◌, ◌≢◌, refl, arith, ap, ◌∙◌, sym, inl, inr}
use go_capnproto.Prelude.{
  List, ◌∷◌, Option, none, some, length, ltb, if◌then◌else◌, Bool-cases, true, false,
}
use go_capnproto.Prelude.{lt→ltb}
use go_capnproto.Prelude.{ok}
use native.Mathlib.Decide.{ℕ_discrete}
use go_capnproto.Rpc.Slots.{clear}
use go_capnproto.Rpc.Slots.Laws.{clear_lem}
use go_capnproto.Rpc.Exports.{Export, ExportTable, get, set_entry, release, add, new_export}
use go_capnproto.Rpc.Exports.Laws.{ExportsValid, changed-valid, set_entry-valid, Added, add_lem}

-- What a release of `refs` references of the slot `id` leaves.
pub record Released (id refs : ℕ) (et : ExportTable) (e : Export) (et' : ExportTable) : Type 0 where
  pub valid : ExportsValid et'
  pub others : (j : ℕ) → j ≢ id → get et' j ≡ get et j
  pub entry :
      get et' id ≡ (if ltb refs e.refs then some (record e { refs = e.refs - refs }) else none)
  pub closed : et'.closed ≡ (if ltb refs e.refs then et.closed else e.client ∷ et.closed)

release_kept :
    (id refs : ℕ) (et : ExportTable) (e : Export)
    → ExportsValid et
    → get et id ≡ some e
    → ltb refs e.refs ≡ true
    → Released id refs et e (release id refs et)
unfolding release set_entry
release_kept id refs et e v used more =
    let e' : Export = record e { refs = e.refs - refs } in
    let (valid, holds, others) =
      set_entry-valid et id e e' v used (v.entry_ok id e used).0 refl (ground arith) in
    rw used
      (rw more (record { valid = valid; others = others; entry = rw more holds; closed = rw more }))

release_last :
    (id refs : ℕ) (et : ExportTable) (e : Export)
    → ExportsValid et
    → get et id ≡ some e
    → ltb refs e.refs ≡ false
    → Released id refs et e (release id refs et)
unfolding release get
release_last id refs et e v used last =
    let (slots_valid, empty, others) = clear_lem id et.slots e v.slots_valid used in
    let et' : ExportTable = record { slots = clear id et.slots; closed = e.client ∷ et.closed } in
    rw used (
      rw last (record {
        valid =
            changed-valid et et' id v slots_valid others (λ x h. absurd (cc (empty, h)))
              (λ x j d h ne at. absurd (cc (empty, h)));
        others = others;
        entry = rw last empty;
        closed = rw last;
      }))

-- Releasing references of an export that is there keeps the table valid and touches no other slot.
-- With references left the entry stays with the difference; otherwise its slot is free and the
-- client is closed, once.
pub release_lem :
    (id refs : ℕ) (et : ExportTable) (e : Export)
    → ExportsValid et
    → get et id ≡ some e
    → Released id refs et e (release id refs et)
release_lem id refs et e v used = elim (Bool-cases (ltb refs e.refs)) [
  | inl more ↦ release_kept id refs et e v used more
  | inr last ↦ release_last id refs et e v used last
]

-- An id that is out of range, or not in use, is ignored.
pub release_absent : (id refs : ℕ) (et : ExportTable) → get et id ≡ none → release id refs et ≡ et
unfolding release
release_absent id refs et h = rw h

-- The clients closed when a reference is added and released, by the entry before.
abbrev pub closed_by : Option Export → ℕ → List ℕ → List ℕ
closed_by none client closed = client ∷ closed
closed_by (some e) client closed = closed

release-Added :
    (client : ℕ) (et et' : ExportTable) (id j : ℕ)
    → ExportsValid et
    → Added client et id et'
    → (get (release id 1 et') j ≡ get et j)
      × ((release id 1 et').closed ≡ closed_by (get et id) client et.closed)
release-Added client et et' id j v added = elim added.entry [
  | inl (was_free, holds, _) ↦
      let r = release_lem id 1 et' (new_export client id) added.valid holds in
      (
        elim (ℕ_discrete j id) [
          | yes p ↦ ap (get (release id 1 et')) p ∙ r.entry ∙ sym was_free ∙ ap (get et) (sym p)
          | no ne ↦ r.others j ne ∙ added.others j ne
        ],
        rw was_free (r.closed ∙ ap (λ t. client ∷ t) added.closed),
      )
  | inr (e, used, same, holds) ↦
      let r = release_lem id 1 et' (record e { refs = e.refs + 1 }) added.valid holds in
      let more : ltb 1 (e.refs + 1) ≡ true =
        lt→ltb 1 (e.refs + 1) (omega (arith, (v.entry_ok id e used).1)) in
      let back : get (release id 1 et') id ≡ some e =
        r.entry ∙ rw more (ap (λ n. some (record e { refs = n })) (omega arith)) in
      (
        elim (ℕ_discrete j id) [
          | yes p ↦ ap (get (release id 1 et')) p ∙ back ∙ sym used ∙ ap (get et) (sym p)
          | no ne ↦ r.others j ne ∙ added.others j ne
        ],
        rw used (r.closed ∙ rw more added.closed),
      )
]

-- Adding a client and releasing one reference of the id that it got leaves every slot as it was.
-- The client is closed by that if it was not in the table before, and only then.
pub release-add :
    (client : ℕ) (et : ExportTable) (j : ℕ)
    → ExportsValid et
    → length et.slots.tab < 2 ^ 32 - 1
    → (id : ℕ) × (et' : ExportTable) × (add client et ≡ ok (id, et'))
      × (get (release id 1 et') j ≡ get et j)
      × ((release id 1 et').closed ≡ closed_by (get et id) client et.closed)
release-add client et j v small =
    let (id, et', added) = add_lem client et v small in
    let (slots, closed) = release-Added client et et' id j v added in
    (id, et', added.runs, slots, closed)

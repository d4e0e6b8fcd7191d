-- ===== src/Rpc/Tests.antt =====
-- rpc: a table with one export, a lifted embargo, and the life of a reference-counted client.
use go_capnproto.Prelude.{
  ◌⊎◌, ℕ, zero, suc, ◌<◌, ◌≡◌, refl, arith, List, [], ◌∷◌, none, some, inl, inr,
}
use go_capnproto.Rpc.Slots.{slot}
use go_capnproto.Rpc.Slots.Laws.{In}
use go_capnproto.Rpc.Exports.{Export, ExportTable, get, release}
use go_capnproto.Rpc.Exports.Laws.{ExportsValid, Added, add_lem}
use go_capnproto.Rpc.Exports.Release.{Released, release_lem}
use go_capnproto.Rpc.Embargoes.{EmbargoTable, disembargo}
use go_capnproto.Rpc.Embargoes.Once.{EmbargoesValid, disembargo_lem}
use go_capnproto.Rpc.Refcount.{RefCount, client_closed}
use go_capnproto.Rpc.Refcount.Once.{Counts, Reach, start, next, take_ref, close_ref, Reach-Counts}
use go_capnproto.Rpc.Imports.{pop}
use go_capnproto.Rpc.Imports.Counting.{Op, add as add_op, remove, run, additions, pop-run}
use mathlib.Core.Option.{some-injective}
use mathlib.Core.Path.{subst}
use go_capnproto.Rpc.Refcount

-- The client 7, under the id 0, with two references.
abbrev seven : Export
seven = record { id = 0; client = 7; refs = 2 }

abbrev exports : ExportTable
exports = record {
  slots = record { tab = some seven ∷ []; gen = record { i = 1; free = [] } };
  closed = [];
}

no_free_slot : (id : ℕ) → id < 1 → slot exports.slots.tab id ≡ none → ⊥
no_free_slot zero h e = cc
no_free_slot (suc id) h e = omega arith

only_seven : (id : ℕ) (e : Export) → get exports id ≡ some e → (id ≡ 0) × (seven ≡ e)
unfolding get
only_seven zero e h = (refl, some-injective seven e h)
only_seven (suc id) e h = cc

exports-valid : ExportsValid exports
exports-valid = record {
  slots_valid = record {
    count = refl;
    free_slot = λ id h. absurd h;
    slot_free = no_free_slot;
    distinct = tt;
  };
  entry_ok = λ id e h.
      let (at, same) = only_seven id e h in
      subst (λ (x : Export). (x.id ≡ id) × (0 < x.refs)) same (omega (arith, at), omega arith);
  one_each = λ i j d e hi hj c. omega (arith, (only_seven i d hi).0, (only_seven j e hj).0);
}

add_lem_example : (id : ℕ) × (et : ExportTable) × Added 7 exports id et
add_lem_example = add_lem 7 exports exports-valid (omega arith)

release_lem_example : Released 0 2 exports seven (release 0 2 exports)
unfolding get
release_lem_example = release_lem 0 2 exports seven exports-valid refl

-- One embargo, whose channel was made third.
abbrev embargoes : EmbargoTable
embargoes = record {
  slots = record { tab = some 2 ∷ []; gen = record { i = 1; free = [] } };
  made = 3;
  closed = 0 ∷ 1 ∷ [];
}

only_two : (id c : ℕ) → slot embargoes.slots.tab id ≡ some c → (id ≡ 0) × (2 ≡ c)
only_two zero c h = (refl, some-injective 2 c h)
only_two (suc id) c h = cc

embargoes-valid : EmbargoesValid embargoes
embargoes-valid = record {
  slots_valid = record {
    count = refl;
    free_slot = λ id h. absurd h;
    slot_free = no_slot;
    distinct = tt;
  };
  pending = λ i c h. let (at, same) = only_two i c h in (omega (arith, same), still_open c same);
  one_each = λ i j c hi hj. omega (arith, (only_two i c hi).0, (only_two j c hj).0);
  closed_made = made;
  closed_once = (elim [ inl e ↦ omega (arith, e) | inr h ↦ h ], (λ h. h, tt));
}
  where
    no_slot : (id : ℕ) → id < 1 → slot embargoes.slots.tab id ≡ none → ⊥
    no_slot zero h e = cc
    no_slot (suc id) h e = omega arith

    still_open : (c : ℕ) → 2 ≡ c → ¬ In c (0 ∷ 1 ∷ [])
    still_open c e (inl p) = omega (arith, e, p)
    still_open c e (inr (inl p)) = omega (arith, e, p)
    still_open c e (inr (inr h)) = h

    made : (c : ℕ) → In c (0 ∷ 1 ∷ []) → c < 3
    made c (inl p) = omega (arith, p)
    made c (inr (inl p)) = omega (arith, p)
    made c (inr (inr h)) = absurd h

disembargo_lem_example :
    EmbargoesValid (disembargo 0 embargoes)
    × ((disembargo 0 embargoes).made ≡ embargoes.made)
    × (slot (disembargo 0 embargoes).slots.tab 1 ≡ slot embargoes.slots.tab 1)
    × (((slot embargoes.slots.tab 0 ≡ none) × (disembargo 0 embargoes ≡ embargoes))
        ⊎ ((c : ℕ) × (slot embargoes.slots.tab 0 ≡ some c)
            × (slot (disembargo 0 embargoes).slots.tab 0 ≡ none)
            × ((disembargo 0 embargoes).closed ≡ c ∷ embargoes.closed)))
disembargo_lem_example = disembargo_lem 0 1 embargoes embargoes-valid (λ e. omega (arith, e))

-- A second reference is taken; the first is closed twice, and then the second.
abbrev life : RefCount
life =
    (Refcount.close 1 (Refcount.close 0 (Refcount.close 0 (Refcount.ref Refcount.new.1).1).1).1).1

life-Reach : Reach life
unfolding Refcount.new Refcount.ref
life-Reach =
    next
      (next (next (next start (take_ref Refcount.new.1 (omega arith))) (close_ref _ 0))
        (close_ref _ 0))
      (close_ref _ 1)

Reach-Counts_example : Counts life
Reach-Counts_example = Reach-Counts life-Reach

abbrev script : List Op
script = add_op 3 ∷ add_op 4 ∷ add_op 3 ∷ remove 4 ∷ []

pop-run_example :
    let (refs, tab) = pop 3 (run script (λ j. none)) in
    (refs ≡ additions 3 script 0) × (tab 3 ≡ none) × ((pop 3 tab).0 ≡ 0)
pop-run_example = pop-run 3 script

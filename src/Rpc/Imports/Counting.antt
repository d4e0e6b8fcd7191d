-- ===== src/Rpc/Imports/Counting.antt =====
-- rpc/tables.go: `pop` returns the number of `addRef`s since the import was last popped.
use go_capnproto.Prelude.{ℕ, ◌+◌, ◌≡◌, refl, arith, ap, ◌∙◌, List, [], ◌∷◌, Option, none, some}
use go_capnproto.Prelude.{◌==◌, if◌then◌else◌}
use go_capnproto.Rpc.Imports.{Impent, ImportTable, add_ref, add_entry, pop, refs_of}

-- What a connection does with the table.
pub data Op : Type 0 where
  add : ℕ → Op
  remove : ℕ → Op

pub run : List Op → ImportTable → ImportTable
run [] tab = tab
run (add id ∷ ops) tab = run ops (add_ref id tab).1
run (remove id ∷ ops) tab = run ops (pop id tab).1

-- The additions of `id` since its last removal, `n` before the operations.
abbrev pub additions : ℕ → List Op → ℕ → ℕ
additions id [] n = n
additions id (add j ∷ ops) n = additions id ops (if id == j then n + 1 else n)
additions id (remove j ∷ ops) n = additions id ops (if id == j then 0 else n)

-- The entry `id` after an addition to the entry `j`, which was `o`.
refs_of_entry :
    (o : Option Impent) (id j : ℕ) (tab : ImportTable)
    → refs_of ((add_entry tab j o).1 id) ≡ (if id == j then refs_of o + 1 else refs_of (tab id))
unfolding add_entry refs_of
refs_of_entry none id j tab = ground arith
refs_of_entry (some ent) id j tab = ground arith

refs_of-add :
    (id j : ℕ) (tab : ImportTable)
    → refs_of ((add_ref j tab).1 id) ≡ (if id == j then refs_of (tab id) + 1 else refs_of (tab id))
unfolding add_ref
refs_of-add id j tab = refs_of_entry (tab j) id j tab ∙ same
  where
    same :
        (if id == j then refs_of (tab j) + 1 else refs_of (tab id))
        ≡ (if id == j then refs_of (tab id) + 1 else refs_of (tab id))
    same = ground arith

refs_of-pop :
    (id j : ℕ) (tab : ImportTable)
    → refs_of ((pop j tab).1 id) ≡ (if id == j then 0 else refs_of (tab id))
unfolding pop
refs_of-pop id j tab = ground arith

run_lem :
    (id : ℕ) (ops : List Op) (tab : ImportTable)
    → refs_of (run ops tab id) ≡ additions id ops (refs_of (tab id))
unfolding run
run_lem id [] tab = refl
run_lem id (add j ∷ ops) tab =
    run_lem id ops (add_ref j tab).1 ∙ ap (additions id ops) (refs_of-add id j tab)
run_lem id (remove j ∷ ops) tab =
    run_lem id ops (pop j tab).1 ∙ ap (additions id ops) (refs_of-pop id j tab)

-- After any operations on an empty table, `pop` of an import returns how often it was added since
-- it was last removed, and removes it: popping it again returns zero.
pub pop-run :
    (id : ℕ) (ops : List Op)
    → let (refs, tab) = pop id (run ops (λ j. none)) in
      (refs ≡ additions id ops 0) × (tab id ≡ none) × ((pop id tab).0 ≡ 0)
unfolding pop
pop-run id ops = (run_lem id ops (λ j. none), ground arith, ground arith)

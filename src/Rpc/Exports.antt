-- ===== src/Rpc/Exports.antt =====
-- rpc/tables.go: the export table. A client is known by a number; two are the same interface value
-- if their numbers are equal.
pub mod Laws
pub mod Release
use go_capnproto.Prelude.{ℕ, ◌+◌, ◌-◌, List, [], ◌∷◌, Option, none, some, length, set, foldl}
use go_capnproto.Prelude.{ltb, ◌==◌, if◌then◌else◌, Result, ok, err, panic, ◌>>=◌}
use go_capnproto.Rpc.Slots.{Slots, slot, insert_next, clear}

pub record Export : Type 0 where
  pub id : ℕ
  pub client : ℕ
  pub refs : ℕ

-- `closed` lists the clients whose `Close` the table has called, the last one first.
pub record ExportTable : Type 0 where
  pub slots : Slots Export
  pub closed : List ℕ

unfoldable pub get : ExportTable → ℕ → Option Export
get et id = slot et.slots.tab id

-- The loop of `add` over the entries from `i` on.
unfoldable pub find_client : ℕ → List (Option Export) → ℕ → Option (ℕ × Export)
find_client client [] i = none
find_client client (none ∷ tab) i = find_client client tab (i + 1)
find_client client (some e ∷ tab) i =
    if e.client == client then some (i, e) else find_client client tab (i + 1)

abbrev pub new_export : ℕ → ℕ → Export
new_export client id = record { id = id; client = client; refs = 1 }

pub set_entry : ExportTable → ℕ → Export → ExportTable
set_entry et id e = record et { slots = record et.slots { tab = set et.slots.tab id (some e) } }

add_new : ℕ → ExportTable → Result (ℕ × ExportTable)
add_new client et = do
  (id, slots) ← insert_next (new_export client) et.slots
  ok (id, record et { slots = slots })

add_found : ℕ → ExportTable → Option (ℕ × Export) → Result (ℕ × ExportTable)
unfolding set_entry add_new
add_found client et (some (i, e)) = ok (i, set_entry et i (record e { refs = e.refs + 1 }))
add_found client et none = add_new client et

unfoldable pub add : ℕ → ExportTable → Result (ℕ × ExportTable)
unfolding add_found
add client et = add_found client et (find_client client et.slots.tab 0)

-- An entry that still has references keeps them; one that has none left, or is owed some, is
-- closed and dropped. Both errors on the way are only logged.
release_entry : ℕ → ℕ → ExportTable → Option Export → ExportTable
unfolding set_entry
release_entry id refs et none = et
release_entry id refs et (some e) =
    if ltb refs e.refs
    then set_entry et id (record e { refs = e.refs - refs })
    else record { slots = clear id et.slots; closed = e.client ∷ et.closed }

unfoldable pub release : ℕ → ℕ → ExportTable → ExportTable
unfolding release_entry
release id refs et = release_entry id refs et (get et id)

unfoldable pub release_list : List ℕ → ExportTable → ExportTable
release_list ids et = foldl (λ t id. release id 1 t) et ids

-- ===== src/Rpc/Imports.antt =====
-- rpc/tables.go: the import table, which counts how often an import was sent to this vat.
pub mod Counting
use go_capnproto.Prelude.{ℕ, ◌+◌, Option, none, some, ◌==◌, if◌then◌else◌}
use go_capnproto.Rpc.Refcount.{RefCount, ref, new}

pub record Impent : Type 0 where
  pub rc : RefCount
  pub refs : ℕ

abbrev pub ImportTable : Type 0
ImportTable = ℕ → Option Impent

abbrev pub put : ImportTable → ℕ → Option Impent → ImportTable
put tab id o j = if j == id then o else tab j

-- The reference that is handed out is the one of the counter that was made last.
add_entry : ImportTable → ℕ → Option Impent → ℕ × ImportTable
add_entry tab id none =
    let (handle, rc) = new in (handle, put tab id (some (record { rc = rc; refs = 1 })))
add_entry tab id (some ent) =
    let (handle, rc) = ref ent.rc in
    (handle, put tab id (some (record { rc = rc; refs = ent.refs + 1 })))

unfoldable pub add_ref : ℕ → ImportTable → ℕ × ImportTable
unfolding add_entry
add_ref id tab = add_entry tab id (tab id)

refs_of : Option Impent → ℕ
refs_of none = 0
refs_of (some ent) = ent.refs

unfoldable pub pop : ℕ → ImportTable → ℕ × ImportTable
unfolding refs_of
pop id tab = (refs_of (tab id), put tab id none)

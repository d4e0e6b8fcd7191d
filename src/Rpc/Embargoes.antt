-- ===== src/Rpc/Embargoes.antt =====
-- rpc/tables.go: the embargo table. A channel is known by the order in which it was made.
pub mod Once
use go_capnproto.Prelude.{ℕ, ◌+◌, List, [], ◌∷◌, Option, none, some, Result, ok, err, panic, ◌>>=◌}
use go_capnproto.Rpc.Slots.{Slots, slot, insert_next, clear}

-- `made` counts the channels made, and `closed` lists those that were closed, the last one first.
pub record EmbargoTable : Type 0 where
  pub slots : Slots ℕ
  pub made : ℕ
  pub closed : List ℕ

unfoldable pub new : EmbargoTable → Result ((ℕ × ℕ) × EmbargoTable)
new et = do
  (id, slots) ← insert_next (λ id. et.made) et.slots
  ok ((id, et.made), record et { slots = slots; made = et.made + 1 })

lift_embargo : ℕ → EmbargoTable → Option ℕ → EmbargoTable
lift_embargo id et none = et
lift_embargo id et (some e) = record et { slots = clear id et.slots; closed = e ∷ et.closed }

unfoldable pub disembargo : ℕ → EmbargoTable → EmbargoTable
unfolding lift_embargo
disembargo id et = lift_embargo id et (slot et.slots.tab id)

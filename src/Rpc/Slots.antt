-- ===== src/Rpc/Slots.antt =====
-- rpc/tables.go: the id generator, and the slices of slots that the export and the embargo tables
-- index by its ids.
pub mod Laws
use go_capnproto.Prelude.{
  ℕ, zero, suc, ◌+◌, List, [], ◌∷◌, ◌++◌, Option, none, some, length, get_elem?, set, u32,
}
use go_capnproto.Prelude.{ltb, ◌==◌, if◌then◌else◌, Result, ok, panic, slice_bounds}

-- `idgen`. The head of the list is the last element of the slice `free`, which serves as a stack.
pub record Idgen : Type 0 where
  pub i : ℕ
  pub free : List ℕ

take_free : Idgen → List ℕ → ℕ × Idgen
take_free gen [] = (gen.i, record gen { i = u32 (gen.i + 1) })
take_free gen (x ∷ free) = (x, record gen { free = free })

unfoldable pub next : Idgen → ℕ × Idgen
unfolding take_free
next gen = take_free gen gen.free

unfoldable pub remove : Idgen → ℕ → Idgen
remove gen i = record gen { free = i ∷ gen.free }

-- `tab` and `gen` of a table; a nil entry is a free slot.
pub record Slots (A : Type 0) : Type 0 where
  pub tab : List (Option A)
  pub gen : Idgen

module _ {A : Type 0} where
  abbrev pub flat : Option (Option A) → Option A
  flat none = none
  flat (some o) = o

  -- `if int(id) < len(tab) { e = tab[id] }`
  abbrev pub slot : List (Option A) → ℕ → Option A
  slot tab id = flat (get_elem? tab id)

  -- The new id, and the entry made for it appended or put into its slot.
  pub insert_next : (ℕ → A) → Slots A → Result (ℕ × Slots A)
  insert_next entry s =
      let (id, gen) = next s.gen in
      if id == length s.tab
      then ok (id, record { tab = s.tab ++ (some (entry id) ∷ []); gen = gen })
      else if ltb id (length s.tab)
      then ok (id, record { tab = set s.tab id (some (entry id)); gen = gen })
      else panic slice_bounds

  -- `tab[id] = nil; gen.remove(id)`
  pub clear : ℕ → Slots A → Slots A
  clear id s = record { tab = set s.tab id none; gen = remove s.gen id }

-- ===== src/Server.antt =====
-- server/server.go: a client that makes its calls on a set of methods, one after another.
pub mod Find
pub mod Lookup
pub mod Dispatch
mod Tests
use go_capnproto.Prelude.{
  ℕ, zero, suc, ◌+◌, ◌*◌, ◌/◌, Bool, true, false, Option, none, some, List, [], ◌∷◌, ◌++◌, length,
  get_elem?, ltb, leb, ◌==◌, if◌then◌else◌, Result, ok, panic, closed_channel,
}

-- A method's ids. Its implementation and its results are code of the server's user: `impl` stands
-- for them.
pub record Method : Type 0 where
  pub interface_id : ℕ
  pub method_id : ℕ
  pub impl : ℕ

-- `sort.Search`: the least index from `lo` to `hi` where the test holds, if it holds from there on.
unfoldable pub sort_search : ℕ → ℕ → ℕ → (ℕ → Bool) → ℕ
sort_search zero lo hi test = lo
sort_search (suc n) lo hi test =
    let mid = (lo + hi) / 2 in
    let right = sort_search n (mid + 1) hi test in
    let left = sort_search n lo mid test in
    if ltb lo hi then if test mid then left else right else lo

-- `Less`, on the methods that the indices stand for.
unfoldable pub less : Method → Method → Bool
less a b =
    if a.interface_id == b.interface_id
    then ltb a.method_id b.method_id
    else ltb a.interface_id b.interface_id

-- `sort.Sort` of the methods.
unfoldable pub insert_method : Method → List Method → List Method
insert_method m [] = m ∷ []
insert_method m (x ∷ xs) =
    let rest = insert_method m xs in if less x m then x ∷ rest else m ∷ (x ∷ xs)

unfoldable pub sort_methods : List Method → List Method
sort_methods [] = []
sort_methods (m ∷ ms) = insert_method m (sort_methods ms)

-- The function that `find` searches by.
unfoldable pub reaches : ℕ → ℕ → Method → Bool
reaches interface_id method_id m =
    if m.interface_id == interface_id
    then leb method_id m.method_id
    else leb interface_id m.interface_id

abbrev pub reaches_at : ℕ → ℕ → Option Method → Bool
reaches_at interface_id method_id none = true
reaches_at interface_id method_id (some m) = reaches interface_id method_id m

unfoldable pub same_ids : ℕ → ℕ → Method → Bool
same_ids interface_id method_id m =
    if m.interface_id == interface_id then m.method_id == method_id else false

abbrev pub checked : ℕ → ℕ → Option Method → Option Method
checked interface_id method_id none = none
checked interface_id method_id (some m) = if same_ids interface_id method_id m then some m else none

-- `find`: an index out of range is met only where the code returns nil.
unfoldable pub find : List Method → ℕ → ℕ → Option Method
unfolding sort_search
find sm interface_id method_id =
    let i =
      sort_search (length sm) 0 (length sm)
        (λ j. reaches_at interface_id method_id (get_elem? sm j)) in
    checked interface_id method_id (get_elem? sm i)

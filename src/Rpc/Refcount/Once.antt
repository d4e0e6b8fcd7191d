-- ===== src/Rpc/Refcount/Once.antt =====
-- rpc/internal/refcount/refcount.go: the client is closed once, when no reference is left.
use go_capnproto.Prelude.{ℕ, zero, suc, ◌+◌, ◌<◌, ◌≡◌, refl, arith, ap}
use go_capnproto.Prelude.{
  Bool, true, false, List, [], ◌∷◌, ◌++◌, Option, none, some, get_elem?, set, length,
}
use go_capnproto.Prelude.{◌==◌, if◌then◌else◌}
use go_capnproto.Rpc.Refcount.{RefCount, client_closed, ref, new, decref}
use go_capnproto.Rpc.Refcount.{close, close_handle}

-- The references that have not been closed.
abbrev pub open_count : List Bool → ℕ
open_count [] = 0
open_count (true ∷ hs) = suc (open_count hs)
open_count (false ∷ hs) = open_count hs

open_count-append : (hs : List Bool) → open_count (hs ++ (true ∷ [])) ≡ suc (open_count hs)
open_count-append [] = refl
open_count-append (true ∷ hs) = ap suc (open_count-append hs)
open_count-append (false ∷ hs) = open_count-append hs

open_count-set :
    (hs : List Bool) (i : ℕ)
    → get_elem? hs i ≡ some true
    → open_count hs ≡ suc (open_count (set hs i false))
open_count-set [] i h = cc
open_count-set (b ∷ hs) zero h = ground (arith, h)
open_count-set (true ∷ hs) (suc i) h = ap suc (open_count-set hs i h)
open_count-set (false ∷ hs) (suc i) h = open_count-set hs i h

-- The counter counts the open references, and the client was closed once if there is none, and not
-- at all while there is one.
pub record Counts (rc : RefCount) : Type 0 where
  pub counted : rc.refs ≡ open_count rc.handles
  pub once : rc.closes ≡ (if rc.refs == 0 then 1 else 0)

-- The steps of the counter's users: a new reference while one is open, and a `Close` of any
-- reference, closed or not.
pub data Step : RefCount → RefCount → Type 0 where
  take_ref : (rc : RefCount) → 0 < rc.refs → Step rc (ref rc).1
  close_ref : (rc : RefCount) (i : ℕ) → Step rc (close i rc).1

pub data Reach : RefCount → Type 0 where
  start : Reach new.1
  next : {rc rc' : RefCount} → Reach rc → Step rc rc' → Reach rc'

new-Counts : Counts new.1
unfolding new
new-Counts = record { counted = refl; once = refl }

ref-Counts : (rc : RefCount) → 0 < rc.refs → Counts rc → Counts (ref rc).1
unfolding ref
ref-Counts rc pos c = record {
  counted = omega (arith, open_count-append rc.handles, c.counted);
  once = ground (arith, c.once);
}

close_handle-Counts :
    (rc : RefCount) (i : ℕ) (o : Option Bool)
    → get_elem? rc.handles i ≡ o
    → Counts rc
    → Counts (close_handle i rc o).1
unfolding close_handle decref
close_handle-Counts rc i none e c = c
close_handle-Counts rc i (some false) e c = c
close_handle-Counts rc i (some true) e c = record {
  counted = ground (arith, open_count-set rc.handles i e, c.counted);
  once = ground (arith, open_count-set rc.handles i e, c.counted, c.once);
}

close-Counts : (rc : RefCount) (i : ℕ) → Counts rc → Counts (close i rc).1
unfolding close
close-Counts rc i c = close_handle-Counts rc i (get_elem? rc.handles i) refl c

Step-Counts : {rc rc' : RefCount} → Step rc rc' → Counts rc → Counts rc'
Step-Counts (take_ref rc pos) c = ref-Counts rc pos c
Step-Counts (close_ref rc i) c = close-Counts rc i c

-- In every state that is reached from `New` by taking references while one is open and by closing
-- any references, also twice, the counter is the number of open references, and the client has
-- been closed exactly once if none is open and never otherwise.
pub Reach-Counts : {rc : RefCount} → Reach rc → Counts rc
Reach-Counts start = new-Counts
Reach-Counts (next r s) = Step-Counts s (Reach-Counts r)

get_elem?-append_end : (hs : List Bool) (b : Bool) → get_elem? (hs ++ (b ∷ [])) (length hs) ≡ some b
get_elem?-append_end [] b = refl
get_elem?-append_end (h ∷ hs) b = get_elem?-append_end hs b

-- A reference made after the last one was closed brings the counter back to one, and its `Close`
-- closes the client once more.
pub ref_after_close :
    (rc : RefCount)
    → rc.refs ≡ 0
    → let (i, rc') = ref rc in
      ((close i rc').0 ≡ client_closed) × ((close i rc').1.closes ≡ rc.closes + 1)
unfolding ref close close_handle decref
ref_after_close rc e = rw (get_elem?-append_end rc.handles true, e) (refl, refl)

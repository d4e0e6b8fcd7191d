-- ===== src/Rpc/Refcount.antt =====
-- rpc/internal/refcount/refcount.go: one reference counter with the references made from it.
-- The mutex makes each method atomic. A finalizer calls `Close` as any other caller does.
pub mod Once
use go_capnproto.Prelude.{
  ℕ, ◌+◌, ◌-◌, Bool, true, false, List, [], ◌∷◌, ◌++◌, Option, none, some, length, get_elem?, set,
}
use go_capnproto.Prelude.{ltb, ◌==◌, if◌then◌else◌}

-- `handles` has a flag for each reference, true until its `once` has run. `closes` counts the calls
-- of the client's `Close`.
pub record RefCount : Type 0 where
  pub refs : ℕ
  pub handles : List Bool
  pub closes : ℕ

-- What a `Close` returns: the client's answer, nil, or `errClosed`.
pub data Closing : Type 0 where
  client_closed still_open already_closed : Closing

-- What becomes of a call: it goes to the client, or is answered by `errClosed`.
pub data Calling : Type 0 where
  forwarded refused : Calling

-- `Ref`: the new reference is known by its place in the list.
unfoldable pub ref : RefCount → ℕ × RefCount
ref rc = (length rc.handles, record rc { refs = rc.refs + 1; handles = rc.handles ++ (true ∷ []) })

-- `New`
unfoldable pub new : ℕ × RefCount
unfolding ref
new = ref (record { refs = 0; handles = []; closes = 0 })

unfoldable pub call : RefCount → Calling
call rc = if rc.refs == 0 then refused else forwarded

unfoldable pub decref : RefCount → Closing × RefCount
decref rc =
    if rc.refs == 0
    then (already_closed, rc)
    else if rc.refs == 1
    then (client_closed, record rc { refs = 0; closes = rc.closes + 1 })
    else (still_open, record rc { refs = rc.refs - 1 })

-- The `once` of a reference runs `decref` at its first `Close`.
close_handle : ℕ → RefCount → Option Bool → Closing × RefCount
close_handle i rc (some true) = decref (record rc { handles = set rc.handles i false })
close_handle i rc (some false) = (already_closed, rc)
close_handle i rc none = (already_closed, rc)

unfoldable pub close : ℕ → RefCount → Closing × RefCount
unfolding close_handle
close i rc = close_handle i rc (get_elem? rc.handles i)

-- ===== src/Server/Tests.antt =====
-- server/server.go: three methods, and a server that is closed while a call waits.
use go_capnproto.Prelude.{ℕ, ◌≡◌, refl, some, List, [], ◌∷◌, true, false}
use mathlib.Core.List.{Memᴰ}
use go_capnproto.Server.{
  Method, sort_methods, insert_method, less, sort_search, reaches, same_ids, find,
}
use go_capnproto.Server.Lookup.{find_lem, find_present}
use go_capnproto.Server.Dispatch.{
  Server, new_server, finished, rejected, Run, here, then_, calls, closes, selects, flushes,
  send_call, close_server, select_step, reject_step, selecting, flushing,
}
use go_capnproto.Server.Dispatch.Order.{InOrder}
use go_capnproto.Server.Dispatch.Steps.{dispatch-InOrder}

abbrev method : ℕ → ℕ → ℕ → Method
method i m f = record { interface_id = i; method_id = m; impl = f }

abbrev three_methods : List Method
three_methods = method 7 1 10 ∷ method 3 2 11 ∷ method 7 0 12 ∷ []

found : find (sort_methods three_methods) 7 0 ≡ some (method 7 0 12)
unfolding find sort_methods insert_method less sort_search reaches same_ids
found = refl

find_lem_example : Memᴰ (method 7 0 12) three_methods × ◌≡◌ {A = ℕ} 7 7 × ◌≡◌ {A = ℕ} 0 0
find_lem_example = find_lem three_methods 7 0 (method 7 0 12) found

find_present_example : (x : Method) × (find (sort_methods three_methods) 3 2 ≡ some x)
find_present_example = find_present three_methods (method 3 2 11) (Memᴰ.tail (Memᴰ.head refl))

abbrev queued : Server
queued = record { queue = 5 ∷ []; closed = false; dispatcher = selecting; events = [] }

abbrev closed_server : Server
closed_server = record { queue = 5 ∷ []; closed = true; dispatcher = selecting; events = [] }

abbrev flushing_server : Server
flushing_server = record { queue = 5 ∷ []; closed = true; dispatcher = flushing; events = [] }

abbrev flushed_server : Server
flushed_server = record {
  queue = [];
  closed = true;
  dispatcher = flushing;
  events = rejected 5 ∷ [];
}

abbrev finished_server : Server
finished_server = record {
  queue = [];
  closed = true;
  dispatcher = finished;
  events = rejected 5 ∷ [];
}

closed-Run : Run new_server (5 ∷ []) finished_server
unfolding new_server send_call close_server select_step reject_step
closed-Run =
    then_ (5 ∷ []) [] flushed_server finished_server
      (then_ (5 ∷ []) [] flushing_server flushed_server
        (then_ (5 ∷ []) [] closed_server flushing_server
          (then_ (5 ∷ []) [] queued closed_server
            (then_ [] (5 ∷ []) new_server queued here (calls 5 queued refl))
            (closes closed_server refl))
          (selects true flushing_server refl refl))
        (flushes flushed_server refl refl))
      (flushes finished_server refl refl)

dispatch-InOrder_example : InOrder (5 ∷ []) finished_server
dispatch-InOrder_example = dispatch-InOrder (5 ∷ []) finished_server closed-Run

-- ===== src/Server/Dispatch/Steps.antt =====
-- server/server.go: every step of a caller and of the dispatch goroutine keeps the calls in order.
use go_capnproto.Prelude.{
  ℕ, ◌≤◌, ◌≡◌, refl, sym, arith, ap, ap₂, ◌∙◌, Bool, true, false, none, some, List, [], ◌∷◌, ◌++◌,
  length, length-append, append-nil, append_assoc, ltb, ◌==◌, if◌then◌else◌, ok, branch,
}
use mathlib.Core.Bool.{true≢false}
use mathlib.Core.Path.{subst}
use go_capnproto.Server.Dispatch.{
  Event, started, released, rejected, Dispatcher, selecting, flushing, finished, starting, waiting,
  Server, new_server, send_call, close_server, select_step, start_call, release_call, reject_step,
  Step, calls, closes, selects, starts, releases, flushes, Run, here, then_,
}
use go_capnproto.Server.Dispatch.Order.{
  handled, serial, in_hand, awaited, Ending, InOrder, handled-append, after_serial, serial-append,
}

sent_order :
    (s : Server) (acc : List ℕ) (cl : ℕ)
    → InOrder acc s
    → handled s.events ++ (in_hand s.dispatcher ++ (s.queue ++ (cl ∷ []))) ≡ acc ++ (cl ∷ [])
sent_order s acc cl i =
    ap (λ l. handled s.events ++ l) (sym (append_assoc (in_hand s.dispatcher) s.queue (cl ∷ [])))
    ∙ sym (append_assoc (handled s.events) (in_hand s.dispatcher ++ s.queue) (cl ∷ []))
    ∙ ap (λ l. l ++ (cl ∷ [])) i.order

still-Ending :
    (d : Dispatcher) (queue queue' : List ℕ) → Ending d queue false → Ending d queue' false
unfolding Ending
still-Ending selecting queue queue' h = tt
still-Ending flushing queue queue' h = absurd (true≢false (sym h))
still-Ending finished queue queue' (_, h) = absurd (true≢false (sym h))
still-Ending (starting cl) queue queue' h = tt
still-Ending (waiting cl) queue queue' h = tt

closed-Ending :
    (d : Dispatcher) (queue : List ℕ) (c : Bool) → Ending d queue c → Ending d queue true
unfolding Ending
closed-Ending selecting queue c h = tt
closed-Ending flushing queue c h = refl
closed-Ending finished queue c (e, _) = (e, refl)
closed-Ending (starting cl) queue c h = tt
closed-Ending (waiting cl) queue c h = tt

sent-InOrder :
    (acc : List ℕ) (s s' : Server) (cl : ℕ)
    → InOrder acc s
    → send_call s cl ≡ ok (some s')
    → InOrder (acc ++ (cl ∷ [])) s'
unfolding send_call
sent-InOrder acc s s' cl i h =
    branch s.closed h (λ c r. cc)
      (λ c r.
        branch (ltb (length s.queue) 64) r
          (λ room t.
            subst (InOrder (acc ++ (cl ∷ [])))
              (let same : record s { queue = s.queue ++ (cl ∷ []) } ≡ s' = cc in same)
              (record {
                order = sent_order s acc cl i;
                one_at_a_time = i.one_at_a_time;
                fits = ground (arith, room, length-append s.queue (cl ∷ []));
                ending = subst (Ending s.dispatcher (s.queue ++ (cl ∷ []))) (sym c) (
                    still-Ending s.dispatcher s.queue (s.queue ++ (cl ∷ []))
                      (subst (Ending s.dispatcher s.queue) c i.ending));
              }))
          (λ full t. cc))

closed-InOrder :
    (acc : List ℕ) (s s' : Server) → InOrder acc s → close_server s ≡ ok s' → InOrder acc s'
unfolding close_server
closed-InOrder acc s s' i h =
    branch s.closed h (λ c r. cc)
      (λ c r.
        subst (InOrder acc) (let same : record s { closed = true } ≡ s' = cc in same) (record {
          order = i.order;
          one_at_a_time = i.one_at_a_time;
          fits = i.fits;
          ending = closed-Ending s.dispatcher s.queue s.closed i.ending;
        }))

-- An event behind the others, with nothing in hand before or behind it.
event-InOrder :
    (acc : List ℕ) (s : Server) (e : Event) (d : Dispatcher) (queue : List ℕ)
    → InOrder acc s
    → handled (e ∷ []) ++ (in_hand d ++ queue) ≡ in_hand s.dispatcher ++ s.queue
    → after_serial (some (awaited s.dispatcher)) e ≡ some (awaited d)
    → length queue ≤ 64
    → Ending d queue s.closed
    → InOrder acc (record s { queue = queue; dispatcher = d; events = s.events ++ (e ∷ []) })
event-InOrder acc s e d queue i o a f n = record {
  order =
      ap (λ l. l ++ (in_hand d ++ queue)) (handled-append s.events e)
      ∙ append_assoc (handled s.events) (handled (e ∷ [])) (in_hand d ++ queue)
      ∙ ap (λ l. handled s.events ++ l) o
      ∙ i.order;
  one_at_a_time = serial-append none s.events e ∙ ap (λ x. after_serial x e) i.one_at_a_time ∙ a;
  fits = f;
  ending = n;
}

started-InOrder :
    (acc : List ℕ) (s : Server) (done : Bool) (cl : ℕ)
    → InOrder acc s
    → s.dispatcher ≡ starting cl
    → InOrder acc (start_call done cl s)
unfolding start_call handled in_hand awaited serial after_serial Ending
started-InOrder acc s true cl i e =
    event-InOrder acc s (started cl) (waiting cl) s.queue i (ap (λ d. in_hand d ++ s.queue) (sym e))
      (ap (λ d. after_serial (some (awaited d)) (started cl)) e) i.fits tt
started-InOrder acc s false cl i e =
    event-InOrder acc s (rejected cl) selecting s.queue i (ap (λ d. in_hand d ++ s.queue) (sym e))
      (ap (λ d. after_serial (some (awaited d)) (rejected cl)) e) i.fits tt

released-InOrder :
    (acc : List ℕ) (s : Server) (cl : ℕ)
    → InOrder acc s
    → s.dispatcher ≡ waiting cl
    → InOrder acc (release_call cl s)
unfolding release_call handled in_hand awaited serial after_serial Ending
released-InOrder acc s cl i e =
    event-InOrder acc s (released cl) selecting s.queue i (ap (λ d. in_hand d ++ s.queue) (sym e))
      (ap (λ d. after_serial (some (awaited d)) (released cl)) e
        ∙ ap (λ b. if b then some none else none) (same cl))
      i.fits tt
  where
    same : (k : ℕ) → (k == k) ≡ true
    same k = ground arith

-- Nothing in hand, and the queue as it was.
moved-InOrder :
    (acc : List ℕ) (s : Server) (d : Dispatcher)
    → InOrder acc s
    → in_hand s.dispatcher ≡ in_hand d
    → awaited s.dispatcher ≡ awaited d
    → Ending d s.queue s.closed
    → InOrder acc (record s { dispatcher = d })
moved-InOrder acc s d i h a n = record {
  order = ap (λ l. handled s.events ++ (l ++ s.queue)) (sym h) ∙ i.order;
  one_at_a_time = i.one_at_a_time ∙ ap some a;
  fits = i.fits;
  ending = n;
}

-- The end of a closed queue.
ended-InOrder :
    (acc : List ℕ) (s s' : Server)
    → InOrder acc s
    → s.queue ≡ []
    → in_hand s.dispatcher ≡ []
    → awaited s.dispatcher ≡ none
    → (if s.closed then some (record s { dispatcher = finished }) else none) ≡ some s'
    → InOrder acc s'
unfolding in_hand awaited Ending
ended-InOrder acc s s' i q h a e =
    branch s.closed e
      (λ c r.
        subst (InOrder acc) (let same : record s { dispatcher = finished } ≡ s' = cc in same)
          (moved-InOrder acc s finished i h a (q, c)))
      (λ c r. cc)

received-InOrder :
    (acc : List ℕ) (s s' : Server)
    → InOrder acc s
    → s.dispatcher ≡ selecting
    → select_step false s ≡ some s'
    → InOrder acc s'
unfolding select_step in_hand awaited Ending
received-InOrder acc s s' i e h = by_queue s.queue refl h
  where
    by_queue :
        (q : List ℕ)
        → s.queue ≡ q
        → (elim q [
          | [] ↦ if s.closed then some (record s { dispatcher = finished }) else none
          | cl ∷ rest ↦
              some (record s { queue = rest; dispatcher = starting cl; events = s.events ++ [] })
        ])
          ≡ some s'
        → InOrder acc s'
    by_queue [] q h = ended-InOrder acc s s' i q (ap in_hand e) (ap awaited e) h
    by_queue (cl ∷ rest) q h =
        subst (InOrder acc)
          (let same : record s { queue = rest; dispatcher = starting cl; events = s.events ++ [] }
                ≡ s' =
              cc in
            same)
          (record {
            order =
                ap (λ es. handled es ++ (cl ∷ rest)) (append-nil s.events)
                ∙ ap₂ (λ d l. handled s.events ++ (in_hand d ++ l)) (sym e) (sym q)
                ∙ i.order;
            one_at_a_time =
                ap (serial none) (append-nil s.events)
                ∙ i.one_at_a_time
                ∙ ap (λ d. some (awaited d)) e;
            fits = omega (arith, i.fits, ap length q);
            ending = tt;
          })

rejected-InOrder :
    (acc : List ℕ) (s s' : Server)
    → InOrder acc s
    → s.dispatcher ≡ flushing
    → reject_step s ≡ some s'
    → InOrder acc s'
unfolding reject_step in_hand awaited Ending handled serial after_serial
rejected-InOrder acc s s' i e h = by_queue s.queue refl h
  where
    by_queue :
        (q : List ℕ)
        → s.queue ≡ q
        → (elim q [
          | [] ↦ if s.closed then some (record s { dispatcher = finished }) else none
          | cl ∷ rest ↦ some (record s {
            queue = rest;
            dispatcher = flushing;
            events = s.events ++ (rejected cl ∷ []);
          })
        ])
          ≡ some s'
        → InOrder acc s'
    by_queue [] q h = ended-InOrder acc s s' i q (ap in_hand e) (ap awaited e) h
    by_queue (cl ∷ rest) q h =
        subst (InOrder acc)
          (let same : record s {
            queue = rest;
            dispatcher = flushing;
            events = s.events ++ (rejected cl ∷ []);
          }
                ≡ s' =
              cc in
            same)
          (event-InOrder acc s (rejected cl) flushing rest i
            (ap₂ (λ d l. in_hand d ++ l) (sym e) (sym q))
            (ap (λ d. after_serial (some (awaited d)) (rejected cl)) e)
            (omega (arith, i.fits, ap length q))
            (subst (λ d. Ending d s.queue s.closed) e i.ending))

step-InOrder :
    (acc cs : List ℕ) (s s' : Server) → InOrder acc s → Step s cs s' → InOrder (acc ++ cs) s'
unfolding select_step in_hand awaited Ending
step-InOrder acc cs s s' i (calls cl _ h) = sent-InOrder acc s s' cl i h
step-InOrder acc cs s s' i (closes _ h) =
    subst (λ a. InOrder a s') (sym (append-nil acc)) (closed-InOrder acc s s' i h)
step-InOrder acc cs s s' i (selects false _ e h) =
    subst (λ a. InOrder a s') (sym (append-nil acc)) (received-InOrder acc s s' i e h)
step-InOrder acc cs s s' i (selects true _ e h) =
    subst (λ a. InOrder a s') (sym (append-nil acc))
      (branch s.closed h
        (λ c r.
          subst (InOrder acc) (let same : record s { dispatcher = flushing } ≡ s' = cc in same)
            (moved-InOrder acc s flushing i (ap in_hand e) (ap awaited e) c))
        (λ c r. cc))
step-InOrder acc cs s s' i (starts done cl e) =
    subst (λ a. InOrder a s') (sym (append-nil acc)) (started-InOrder acc s done cl i e)
step-InOrder acc cs s s' i (releases cl e) =
    subst (λ a. InOrder a s') (sym (append-nil acc)) (released-InOrder acc s cl i e)
step-InOrder acc cs s s' i (flushes _ e h) =
    subst (λ a. InOrder a s') (sym (append-nil acc)) (rejected-InOrder acc s s' i e h)

-- Whatever the callers and the goroutine do on a new server: the calls that were started or
-- rejected, the one in hand and those in the queue are the calls that the queue took, in order. A
-- call is started or rejected only when the start before it was released. The queue has its
-- capacity at most, and at the end of the goroutine it is closed and empty.
pub dispatch-InOrder : (cs : List ℕ) (s : Server) → Run new_server cs s → InOrder cs s
unfolding new_server handled serial in_hand awaited Ending
dispatch-InOrder cs s here = record {
  order = refl;
  one_at_a_time = refl;
  fits = omega arith;
  ending = tt;
}
dispatch-InOrder cs s (then_ ds es s₁ _ r st) =
    step-InOrder ds es s₁ s (dispatch-InOrder ds s₁ r) st

-- When the goroutine ends, every call that the queue took was started or rejected, in order.
pub finished-handled :
    (cs : List ℕ) (s : Server)
    → Run new_server cs s
    → s.dispatcher ≡ finished
    → handled s.events ≡ cs
unfolding in_hand Ending
finished-handled cs s r e =
    let i = dispatch-InOrder cs s r in
    let (q, _) = subst (λ d. Ending d s.queue s.closed) e i.ending in
    sym (append-nil (handled s.events))
    ∙ ap₂ (λ d l. handled s.events ++ (in_hand d ++ l)) (sym e) (sym q)
    ∙ i.order

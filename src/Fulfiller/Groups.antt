-- ===== src/Fulfiller/Groups.antt =====
-- internal/fulfiller/fulfiller.go: how `emptyQueue` splits the queued calls.
use go_capnproto.Prelude.{
  ℕ, ◌≡◌, refl, sym, arith, ap, ◌∙◌, List, [], ◌∷◌, ◌++◌, append-nil, append_assoc, ◌==◌, ==_iff,
  if◌then◌else◌, Bool-cases, inl, inr, true, false,
}
use go_capnproto.Queue.Calls.{Ecall}
use go_capnproto.Fulfiller.{
  Fulfiller, Pcall, Target, no_pointer, no_interface, capability, Rejection, null_client, add_call,
  place_call, place_calls, empty_queue,
}

-- The calls grouped under a capability.
unfoldable pub calls_of : ℕ → List (ℕ × List Ecall) → List Ecall
calls_of cn [] = []
calls_of cn ((k, calls) ∷ qs) = let rest = calls_of cn qs in if k == cn then calls else rest

add_call_self :
    (qs : List (ℕ × List Ecall)) (cn : ℕ) (c : Ecall)
    → calls_of cn (add_call qs cn c) ≡ calls_of cn qs ++ (c ∷ [])
unfolding add_call calls_of
add_call_self [] cn c = rw (same cn) refl
  where
    same : (k : ℕ) → (k == k) ≡ true
    same k = ground arith
add_call_self ((k, calls) ∷ qs) cn c = elim (Bool-cases (k == cn)) [
  | inl e ↦ rw (e, e) refl
  | inr e ↦ rw (e, e) (add_call_self qs cn c)
]

pub add_call_ne :
    (qs : List (ℕ × List Ecall)) (cn j : ℕ) (c : Ecall)
    → (cn == j) ≡ false
    → calls_of j (add_call qs cn c) ≡ calls_of j qs
unfolding add_call calls_of
add_call_ne [] cn j c ne = rw ne refl
add_call_ne ((k, calls) ∷ qs) cn j c ne = elim (Bool-cases (k == cn)) [
  | inl e ↦
      let no : (k == j) ≡ false = ap (λ i. i == j) ((==_iff k cn).0 e) ∙ ne in
      ap
        (λ b. calls_of j (if b then (k, calls ++ (c ∷ [])) ∷ qs else (k, calls) ∷ add_call qs cn c))
        e
      ∙ ap (λ b. if b then calls ++ (c ∷ []) else calls_of j qs) no
      ∙ ap (λ b. if b then calls else calls_of j qs) (sym no)
  | inr e ↦
      ap
        (λ b. calls_of j (if b then (k, calls ++ (c ∷ [])) ∷ qs else (k, calls) ∷ add_call qs cn c))
        e
      ∙ ap (λ t. if k == j then calls else t) (add_call_ne qs cn j c ne)
]

-- What is asked of each call by itself.
abbrev pub for_capability : ℕ → Target → Ecall → List Ecall
for_capability j (no_pointer e) c = []
for_capability j no_interface c = []
for_capability j (capability cn) c = if cn == j then c ∷ [] else []

abbrev pub for_rejection : Target → Ecall → List Rejection
for_rejection (no_pointer e) c = record { f = c.f; error = e } ∷ []
for_rejection no_interface c = record { f = c.f; error = null_client } ∷ []
for_rejection (capability cn) c = []

placed :
    (t : Target) (c : Ecall) (j : ℕ) (qs : List (ℕ × List Ecall)) (rejected : List Rejection)
    → (calls_of j (place_call t c (qs, rejected)).0 ≡ calls_of j qs ++ for_capability j t c)
      × ((place_call t c (qs, rejected)).1 ≡ rejected ++ for_rejection t c)
unfolding place_call
placed (no_pointer e) c j qs rejected = (sym (append-nil (calls_of j qs)), refl)
placed no_interface c j qs rejected = (sym (append-nil (calls_of j qs)), refl)
placed (capability cn) c j qs rejected = elim (Bool-cases (cn == j)) [
  | inl e ↦ (
    rw e (
        ap (λ k. calls_of k (add_call qs cn c)) (sym ((==_iff cn j).0 e))
        ∙ add_call_self qs cn c
        ∙ ap (λ k. calls_of k qs ++ (c ∷ [])) ((==_iff cn j).0 e)),
    sym (append-nil rejected),
  )
  | inr e ↦
      (rw e (add_call_ne qs cn j c e ∙ sym (append-nil (calls_of j qs))), sym (append-nil rejected))
]

module _ {St Tr : Type 0} (target : St → Tr → Target) (s : St) where
  -- The queued calls on the capability `j`, in the order they were made, and those with no target.
  unfoldable pub calls_on : ℕ → List (Pcall Tr) → List Ecall
  calls_on j [] = []
  calls_on j (pc ∷ queue) = for_capability j (target s pc.transform) pc.ecall ++ calls_on j queue

  unfoldable pub rejections : List (Pcall Tr) → List Rejection
  rejections [] = []
  rejections (pc ∷ queue) = for_rejection (target s pc.transform) pc.ecall ++ rejections queue

  split_lem :
      (j : ℕ) (queue : List (Pcall Tr)) (acc : List (ℕ × List Ecall) × List Rejection)
      → (calls_of j (place_calls target s queue acc).0 ≡ calls_of j acc.0 ++ calls_on j queue)
        × ((place_calls target s queue acc).1 ≡ acc.1 ++ rejections queue)
  unfolding place_calls calls_on rejections
  split_lem j [] acc = (sym (append-nil (calls_of j acc.0)), sym (append-nil acc.1))
  split_lem j (pc ∷ queue) acc =
      let next = place_call (target s pc.transform) pc.ecall acc in
      let (g, r) = split_lem j queue next in
      let (g', r') = placed (target s pc.transform) pc.ecall j acc.0 acc.1 in
      (
        g
            ∙ ap (λ t. t ++ calls_on j queue) g'
            ∙ append_assoc (calls_of j acc.0) (for_capability j (target s pc.transform) pc.ecall)
                (calls_on j queue),
        r
            ∙ ap (λ t. t ++ rejections queue) r'
            ∙ append_assoc acc.1 (for_rejection (target s pc.transform) pc.ecall)
                (rejections queue),
      )

  -- `emptyQueue` splits the queue: the calls on each capability, in the order they were made, and
  -- the calls without one, which are rejected in that order. No call stays in the queue.
  pub empty_queue-splits :
      (f : Fulfiller St Tr) (j : ℕ)
      → ((empty_queue target s f).0.queue ≡ [])
        × (calls_of j (empty_queue target s f).1.0 ≡ calls_on j f.queue)
        × ((empty_queue target s f).1.1 ≡ rejections f.queue)
  unfolding empty_queue calls_of
  empty_queue-splits f j = let (g, r) = split_lem j f.queue ([], []) in (refl, g, r)

-- ===== src/Fulfiller/Resolve.antt =====
-- internal/fulfiller/fulfiller.go: how `Fulfill` and `Reject` resolve a promise.
use go_capnproto.Prelude.{
  length-append, ℕ, zero, suc, ◌<◌, ◌≡◌, refl, sym, arith, ap, ◌∙◌, List, [], ◌∷◌, length,
  get_elem?, Option, none, some, ◌==◌, ==_iff, Bool-cases, inl, inr, true, false, lt→ltb, Result,
  ok, ◌>>=◌, panic, nil_pointer,
}
use mathlib.Core.Path.{subst}
use go_capnproto.Queue.Calls.{Ecall}
use go_capnproto.Fulfiller.{
  Fulfiller, immediate_answer, Pcall, Target, no_pointer, no_interface, capability, Rejection,
  Client, new_embargo_client, embargo_at, embargo, add_call, place_call, place_calls, empty_queue,
  fulfill,
}
use go_capnproto.Fulfiller.Groups.{calls_of, add_call_ne, calls_on, rejections, empty_queue-splits}

-- A client, embargoed when calls wait for it.
pub wrap : {C : Type 0} → List Ecall → Client C → Client C
wrap [] c = c
wrap (e ∷ calls) c = new_embargo_client c (e ∷ calls)

abbrev pub map_client : {C : Type 0} → (Client C → Client C) → Option (Client C) → Option (Client C)
map_client f none = none
map_client f (some c) = some (f c)

-- Each capability has one group, which is not empty.
Grouped : List (ℕ × List Ecall) → Type 0
Grouped [] = Unit {0}
Grouped ((k, calls) ∷ qs) = (calls_of k qs ≡ []) × (0 < length calls) × Grouped qs

InRange : ℕ → List (ℕ × List Ecall) → Type 0
InRange n [] = Unit {0}
InRange n ((k, calls) ∷ qs) = (k < n) × InRange n qs

add_call-Grouped :
    (qs : List (ℕ × List Ecall)) (cn : ℕ) (c : Ecall) → Grouped qs → Grouped (add_call qs cn c)
unfolding Grouped add_call calls_of
add_call-Grouped [] cn c g = (refl, omega arith, tt)
add_call-Grouped ((k, calls) ∷ qs) cn c (a, b, g) = elim (Bool-cases (k == cn)) [
  | inl e ↦ rw e (a, omega (arith, length-append calls (c ∷ [])), g)
  | inr e ↦
      let ne : (cn == k) ≡ false = flip k cn e in
      rw e (add_call_ne qs cn k c ne ∙ a, b, add_call-Grouped qs cn c g)
]
  where
    flip : (k cn : ℕ) → (k == cn) ≡ false → (cn == k) ≡ false
    flip k cn e = ground arith

add_call-InRange :
    (n : ℕ) (qs : List (ℕ × List Ecall)) (cn : ℕ) (c : Ecall)
    → cn < n
    → InRange n qs
    → InRange n (add_call qs cn c)
unfolding InRange add_call
add_call-InRange n [] cn c h r = (h, tt)
add_call-InRange n ((k, calls) ∷ qs) cn c h (a, r) = elim (Bool-cases (k == cn)) [
  | inl e ↦ rw e (a, r)
  | inr e ↦ rw e (a, add_call-InRange n qs cn c h r)
]

length-embargo_at :
    {C : Type 0} (ctab : List (Client C)) (i : ℕ) (q : List Ecall)
    → length (embargo_at ctab i q) ≡ length ctab
unfolding embargo_at
length-embargo_at [] i q = refl
length-embargo_at (c ∷ ctab) zero q = refl
length-embargo_at (c ∷ ctab) (suc i) q = ap suc (length-embargo_at ctab i q)

embargo_at_self :
    {C : Type 0} (ctab : List (Client C)) (i : ℕ) (q : List Ecall)
    → 0 < length q
    → get_elem? (embargo_at ctab i q) i ≡ map_client (wrap q) (get_elem? ctab i)
unfolding embargo_at wrap
embargo_at_self ctab i [] h = absurd (omega arith)
embargo_at_self [] i (e ∷ q) h = refl
embargo_at_self (c ∷ ctab) zero (e ∷ q) h = refl
embargo_at_self (c ∷ ctab) (suc i) (e ∷ q) h = embargo_at_self ctab i (e ∷ q) h

embargo_at_ne :
    {C : Type 0} (ctab : List (Client C)) (i j : ℕ) (q : List Ecall)
    → (i == j) ≡ false
    → get_elem? (embargo_at ctab i q) j ≡ get_elem? ctab j
unfolding embargo_at
embargo_at_ne [] i j q ne = refl
embargo_at_ne (c ∷ ctab) zero zero q ne = absurd (ground (arith, ne))
embargo_at_ne (c ∷ ctab) zero (suc j) q ne = refl
embargo_at_ne (c ∷ ctab) (suc i) zero q ne = refl
embargo_at_ne (c ∷ ctab) (suc i) (suc j) q ne = embargo_at_ne ctab i j q (ground (arith, ne))

map_none : {C : Type 0} (o : Option (Client C)) → o ≡ map_client (wrap []) o
unfolding wrap
map_none none = refl
map_none (some c) = refl

-- A table in which the clients that calls wait for are embargoed.
pub record Embargoed {C : Type 0} (waiting : ℕ → List Ecall) (ctab : List (Client C))
    (r : Result (List (Client C))) : Type 0 where
  pub after : List (Client C)
  pub returns : r ≡ ok after
  pub clients : (j : ℕ) → get_elem? after j ≡ map_client (wrap (waiting j)) (get_elem? ctab j)

embargo-Embargoed :
    {C : Type 0} (qs : List (ℕ × List Ecall)) (ctab : List (Client C))
    → Grouped qs
    → InRange (length ctab) qs
    → Embargoed (λ j. calls_of j qs) ctab (embargo qs ctab)
unfolding embargo Grouped InRange calls_of
embargo-Embargoed [] ctab g r = record {
  after = ctab;
  returns = refl;
  clients = λ j. map_none (get_elem? ctab j);
}
embargo-Embargoed ((k, q) ∷ qs) ctab (once, some_, g) (lt, r) =
    let rest =
      embargo-Embargoed qs (embargo_at ctab k q) g
        (subst (λ n. InRange n qs) (sym (length-embargo_at ctab k q)) r) in
    record {
      after = rest.after;
      returns = rw (lt→ltb k (length ctab) lt) rest.returns;
      clients = λ j. rest.clients j ∙ elim (Bool-cases (k == j)) [
        | inl e ↦ rw e (
            ap (λ i. map_client (wrap (calls_of i qs)) (get_elem? (embargo_at ctab k q) i))
              (sym ((==_iff k j).0 e))
            ∙ ap (λ t. map_client (wrap t) (get_elem? (embargo_at ctab k q) k)) once
            ∙ sym (map_none (get_elem? (embargo_at ctab k q) k))
            ∙ embargo_at_self ctab k q some_
            ∙ ap (λ i. map_client (wrap q) (get_elem? ctab i)) ((==_iff k j).0 e))
        | inr e ↦ rw e (ap (map_client (wrap (calls_of j qs))) (embargo_at_ne ctab k j q e))
      ];
    }

module _ {St Tr : Type 0} (target : St → Tr → Target) (s : St) where
  -- Every call's capability stands in a table of `n` clients.
  unfoldable pub TargetsIn : ℕ → List (Pcall Tr) → Type 0
  TargetsIn n [] = Unit {0}
  TargetsIn n (pc ∷ queue) =
      ((cn : ℕ) → target s pc.transform ≡ capability cn → cn < n) × TargetsIn n queue

  placed-Grouped :
      (t : Target) (c : Ecall) (acc : List (ℕ × List Ecall) × List Rejection)
      → Grouped acc.0
      → Grouped (place_call t c acc).0
  unfolding place_call
  placed-Grouped (no_pointer e) c acc g = g
  placed-Grouped no_interface c acc g = g
  placed-Grouped (capability cn) c acc g = add_call-Grouped acc.0 cn c g

  placed-InRange :
      (n : ℕ) (t : Target) (c : Ecall) (acc : List (ℕ × List Ecall) × List Rejection)
      → ((cn : ℕ) → t ≡ capability cn → cn < n)
      → InRange n acc.0
      → InRange n (place_call t c acc).0
  unfolding place_call
  placed-InRange n (no_pointer e) c acc h r = r
  placed-InRange n no_interface c acc h r = r
  placed-InRange n (capability cn) c acc h r = add_call-InRange n acc.0 cn c (h cn refl) r

  queue-Grouped :
      (n : ℕ) (queue : List (Pcall Tr)) (acc : List (ℕ × List Ecall) × List Rejection)
      → TargetsIn n queue
      → Grouped acc.0
      → InRange n acc.0
      → Grouped (place_calls target s queue acc).0 × InRange n (place_calls target s queue acc).0
  unfolding place_calls TargetsIn
  queue-Grouped n [] acc h g r = (g, r)
  queue-Grouped n (pc ∷ queue) acc (here, h) g r =
      queue-Grouped n queue (place_call (target s pc.transform) pc.ecall acc) h
        (placed-Grouped (target s pc.transform) pc.ecall acc g)
        (placed-InRange n (target s pc.transform) pc.ecall acc here r)

  -- What `Fulfill` does to a promise that is not resolved.
  pub record Fulfilled {C : Type 0} (f : Fulfiller St Tr) (ctab : List (Client C))
      (r : Result (Fulfiller St Tr × (List (Client C) × List Rejection))) : Type 0 where
    pub after : Fulfiller St Tr
    pub clients : List (Client C)
    pub returns : r ≡ ok (after, (clients, rejections target s f.queue))
    pub answer : after.answer ≡ some (immediate_answer s)
    pub resolved : after.resolved ≡ true
    pub no_queue : after.queue ≡ []
    pub embargoed :
        (j : ℕ)
        → get_elem? clients j ≡ map_client (wrap (calls_on target s j f.queue)) (get_elem? ctab j)

  -- On a promise that is not resolved, and with every call's capability in the table of the
  -- struct's message, `Fulfill` sets the answer and empties the queue. It rejects the calls that have
  -- no capability, and puts an embargo round each client that calls wait for, with those calls in the
  -- order they were made. With a struct that has no segment it panics.
  pub fulfill-Fulfilled :
      {C : Type 0} (f : Fulfiller St Tr) (ctab : List (Client C))
      → f.answer ≡ none
      → TargetsIn (length ctab) f.queue
      → Fulfilled f ctab (fulfill target f s (some ctab))
        × (fulfill {C = C} target f s none ≡ panic nil_pointer)
  unfolding fulfill empty_queue Grouped InRange
  fulfill-Fulfilled f ctab unanswered h =
      let (g, r) = queue-Grouped (length ctab) f.queue ([], []) h tt tt in
      let e = embargo-Embargoed (empty_queue target s f).1.0 ctab g r in
      (
        record {
          after = record f { queue = []; answer = some (immediate_answer s); resolved = true };
          clients = e.after;
          returns = rw unanswered (
              ap
                (λ t. t >>= λ ctab'. ok (
                  record f { queue = []; answer = some (immediate_answer s); resolved = true },
                  (ctab', (empty_queue target s f).1.1),
                ))
                e.returns
              ∙ ap
                  (λ x. ok (
                    record f { queue = []; answer = some (immediate_answer s); resolved = true },
                    (e.after, x),
                  ))
                  (empty_queue-splits target s f 0).2);
          answer = refl;
          resolved = refl;
          no_queue = refl;
          embargoed = λ j.
              e.clients j
              ∙ ap (λ t. map_client (wrap t) (get_elem? ctab j))
                  (empty_queue-splits target s f j).1;
        },
        rw unanswered,
      )

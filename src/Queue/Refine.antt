-- ===== src/Queue/Refine.antt =====
-- internal/queue/queue.go: a queue behaves as the list of its elements, oldest first.
use go_capnproto.Prelude.{
  ℕ, zero, suc, ◌+◌, ◌-◌, ◌%◌, ◌≤◌, ◌<◌, ◌≡◌, ◌≢◌, refl, arith, ap, ap₂, ◌∙◌, sym, max,
}
use go_capnproto.Prelude.{false, Option, none, some, List, [], ◌∷◌, ◌++◌, ok, panic, empty_queue}
use go_capnproto.Prelude.{Bool-cases, inl, inr, leb, ltb, ◌==◌, if◌then◌else◌}
use native.Mathlib.Nat.{mod-eq_of_lt, mod-eq-sub-mod}
use go_capnproto.Queue.{Store, Queue, init, push, peek, pop}

-- The index that lies `k` steps after `start` round a store of `len` elements.
abbrev pub index : ℕ → ℕ → ℕ → ℕ
index len start k = (start + k) % len

index_wrap : (len i : ℕ) → i < len + len → 0 < len → i % len ≡ (if ltb i len then i else i - len)
index_wrap len i h pos = elim (Bool-cases (ltb i len)) [
  | inl lt ↦ rw lt (mod-eq_of_lt (ground arith))
  | inr ge ↦ rw ge (
      mod-eq-sub-mod {n = i} {m = len} (ground arith)
      ∙ mod-eq_of_lt {n = i - len} {m = len} (ground arith))
]

module _ {S X : Type 0} (store : Store S X) where
  -- The elements of the `n` places from `start` on, in a store of `len` places.
  abbrev pub elements : S → ℕ → ℕ → ℕ → List X
  elements s len start zero = []
  elements s len start (suc n) = store.at s start ∷ elements s len ((start + 1) % len) n

  abbrev pub contents : Queue S → List X
  contents q = elements q.q (store.len q.q) q.start q.n

  -- No more elements than places, and a start that is one of them.
  pub record IsValid (q : Queue S) : Type 0 where
    pub fits : q.n ≤ store.len q.q
    pub in_store : q.start < max (store.len q.q) 1

  -- Two places fewer than `len` steps apart are different.
  places_differ : (len i k : ℕ) → i < len → 0 < k → k < len → (i + k) % len ≢ i
  places_differ len i k hi hk hk' e =
      ground (arith, index_wrap len (i + k) (omega arith) (omega arith), e)

  step_index : (len i k : ℕ) → i < len → suc k < len → ((i + 1) % len + k) % len ≡ (i + suc k) % len
  step_index len i k hi hk = ground (
    arith,
    index_wrap len (i + 1),
    index_wrap len ((i + 1) % len + k),
    index_wrap len (i + suc k),
  )

  -- Elements in places that a write, `k` steps on, does not meet.
  elements-set_past :
      (s : S) (o : Option X) (len start n k i : ℕ)
      → start < len
      → n ≤ k
      → k < len
      → i ≡ (start + k) % len
      → elements (store.set s i o) len start n ≡ elements s len start n
  elements-set_past s o len start zero k i hs hn hk e = refl
  elements-set_past s o len start (suc n) zero i hs hn hk e = absurd (omega arith)
  elements-set_past s o len start (suc n) (suc k) i hs hn hk e =
      ap₂ ◌∷◌
        (store.at-set_ne s i start o
          (λ same. places_differ len start (suc k) hs (omega arith) hk (sym e ∙ same)))
        (elements-set_past s o len ((start + 1) % len) n k i (omega arith) (omega arith)
          (omega arith) (e ∙ sym (step_index len start k hs hk)))

  -- A write just behind the elements adds one.
  elements-set_end :
      (s : S) (x : X) (len start n i : ℕ)
      → len ≡ store.len s
      → start < len
      → n < len
      → i ≡ (start + n) % len
      → elements (store.set s i (some x)) len start (suc n) ≡ elements s len start n ++ (x ∷ [])
  elements-set_end s x len start zero i el hs hn e =
      let here : i ≡ start = e ∙ ap (λ k. k % len) (omega arith) ∙ mod-eq_of_lt hs in
      ap (λ t. t ∷ [])
        (ap (store.at (store.set s i (some x))) (sym here)
          ∙ store.at-set_self s i x (omega (arith, el, here)))
  elements-set_end s x len start (suc n) i el hs hn e =
      ap₂ ◌∷◌
        (store.at-set_ne s i start (some x)
          (λ same. places_differ len start (suc n) hs (omega arith) hn (sym e ∙ same)))
        (elements-set_end s x len ((start + 1) % len) n i el (omega arith) (omega arith)
          (e ∙ sym (step_index len start n hs hn)))

  -- A queue over fewer elements than the store has is valid and holds them in order.
  pub init-IsValid : (r : S) (n : ℕ) → n ≤ store.len r → IsValid (init r n)
  unfolding init
  init-IsValid r n h = record { fits = h; in_store = omega arith }

  -- On a valid queue `Push` answers whether there was room. With room the new element goes to the
  -- end and the queue stays valid; without, the queue is unchanged.
  pub push_refines :
      (q : Queue S) (x : X)
      → IsValid q
      → let (done, q') = push store q (some x) in
        (done ≡ ltb q.n (store.len q.q))
        × (contents q' ≡ (if done then contents q ++ (x ∷ []) else contents q))
        × (store.len q'.q ≡ store.len q.q)
        × IsValid q'
  unfolding push
  push_refines q x v = elim (Bool-cases (leb (store.len q.q) q.n)) [
    | inl full ↦ rw full (ground arith, refl, refl, v)
    | inr room ↦
        let n : ℕ = store.len q.q in
        let i : ℕ = (q.start + q.n) % n in
        let lt : q.n < n = ground arith in
        let same : store.len (store.set q.q i (some x)) ≡ n = store.len-set q.q i (some x) in
        rw room (
          ground arith,
          ap (λ k. elements (store.set q.q i (some x)) k q.start (q.n + 1)) same
              ∙ ap (elements (store.set q.q i (some x)) n q.start) {y = suc q.n} (omega arith)
              ∙ elements-set_end q.q x n q.start q.n i refl (omega (arith, v.in_store)) lt refl,
          same,
          record { fits = omega (arith, same); in_store = omega (arith, same, v.in_store) },
        )
  ]

  -- What `Pop` and `Peek` do on a queue that holds the given list.
  abbrev pub PopOf : Queue S → List X → Type 0
  PopOf q [] = (pop store q ≡ panic empty_queue) × (peek store q ≡ panic empty_queue)
  PopOf q (x ∷ rest) =
      (q' : Queue S) × (pop store q ≡ ok (x, q'))
      × (peek store q ≡ ok x)
      × (contents q' ≡ rest)
      × (store.len q'.q ≡ store.len q.q)
      × IsValid q'

  -- The place before a start is `len - 1` steps behind it.
  round_trip : (len i : ℕ) → i < len → i ≡ ((i + 1) % len + (len - 1)) % len
  round_trip len i h =
      ground (arith, index_wrap len (i + 1), index_wrap len ((i + 1) % len + (len - 1)))

  pop_by_count :
      (q : Queue S) (n : ℕ) → q.n ≡ n → IsValid q → PopOf q (elements q.q (store.len q.q) q.start n)
  unfolding pop peek
  pop_by_count q zero e v = (ground arith, ground arith)
  pop_by_count q (suc k) e v =
      let len : ℕ = store.len q.q in
      let same : store.len (store.set q.q q.start none) ≡ len = store.len-set q.q q.start none in
      let more : (q.n == 0) ≡ false = ground arith in
      let start : ℕ = (q.start + 1) % len in
      (
        record { q = store.set q.q q.start none; start = start; n = q.n - 1 },
        rw more,
        rw more,
        ap₂ (λ l m. elements (store.set q.q q.start none) l start m) {v = k} same (omega arith)
            ∙ elements-set_past q.q none len start k (len - 1) q.start
                (omega (arith, v.in_store, v.fits)) (omega (arith, v.fits)) (omega (arith, v.fits))
                (round_trip len q.start (omega (arith, v.in_store, v.fits))),
        same,
        record { fits = omega (arith, same, v.fits); in_store = omega (arith, same, v.fits) },
      )

  -- `Pop` and `Peek` panic on an empty queue, and only there; else both give the oldest element,
  -- `Pop` leaves the others in order, and the queue stays valid.
  pub pop_refines : (q : Queue S) → IsValid q → PopOf q (contents q)
  pop_refines q v = pop_by_count q q.n refl v

-- ===== src/Server/Find.antt =====
-- server/server.go: `find` on sorted methods finds a method with the ids that are asked for.
use go_capnproto.Prelude.{
  ℕ, zero, suc, ◌+◌, ◌/◌, ◌≤◌, ◌<◌, ◌≡◌, sym, arith, ◌∙◌, Bool, true, false, List, [], ◌∷◌, ltb,
  Bool-cases, inl, inr,
}
use go_capnproto.Prelude.{ltb→lt}
use mathlib.Core.Bool.{true≢false}
use go_capnproto.Server.{Method, sort_search, less, insert_method, sort_methods}

-- What a search promises, for a test that holds from some index on.
pub record Found (lo hi : ℕ) (test : ℕ → Bool) (i : ℕ) : Type 0 where
  pub from : lo ≤ i
  pub to : i ≤ hi
  pub before : (j : ℕ) → lo ≤ j → j < i → test j ≡ false
  pub behind : (j : ℕ) → i ≤ j → j < hi → test j ≡ true

unfoldable pub Monotone : (ℕ → Bool) → Type 0
Monotone test = (i j : ℕ) → i ≤ j → test i ≡ true → test j ≡ true

-- The first half is searched, or the second.
left-Found :
    (lo mid hi : ℕ) (test : ℕ → Bool) (i : ℕ)
    → Monotone test
    → mid ≤ hi
    → test mid ≡ true
    → Found lo mid test i
    → Found lo hi test i
unfolding Monotone
left-Found lo mid hi test i mono le t r = record {
  from = r.from;
  to = omega (arith, r.to);
  before = r.before;
  behind = λ j h k. elim (Bool-cases (ltb j mid)) [
    | inl e ↦ r.behind j h (ltb→lt j mid e)
    | inr e ↦ mono mid j (ground (arith, e)) t
  ];
}

right-Found :
    (lo mid hi : ℕ) (test : ℕ → Bool) (i : ℕ)
    → Monotone test
    → lo ≤ mid
    → test mid ≡ false
    → Found (mid + 1) hi test i
    → Found lo hi test i
unfolding Monotone
right-Found lo mid hi test i mono le f r = record {
  from = omega (arith, r.from);
  to = r.to;
  before = λ j h k. elim (Bool-cases (test j)) [
    | inr e ↦ e
    | inl e ↦ elim (Bool-cases (ltb mid j)) [
      | inl lt ↦ r.before j (omega (arith, ltb→lt mid j lt)) k
      | inr ge ↦ absurd (true≢false (sym (mono j mid (ground (arith, ge)) e) ∙ f))
    ]
  ];
  behind = r.behind;
}

pub sort_search-Found :
    (n lo hi : ℕ) (test : ℕ → Bool)
    → Monotone test
    → lo ≤ hi
    → hi ≤ lo + n
    → Found lo hi test (sort_search n lo hi test)
unfolding sort_search
sort_search-Found zero lo hi test mono le fits = record {
  from = omega arith;
  to = le;
  before = λ j h k. absurd (omega (arith, h, k));
  behind = λ j h k. absurd (omega (arith, h, k, fits));
}
sort_search-Found (suc n) lo hi test mono le fits = elim (Bool-cases (ltb lo hi)) [
  | inr e ↦ rw e (record {
    from = omega arith;
    to = le;
    before = λ j h k. absurd (omega (arith, h, k));
    behind = λ j h k. absurd (ground (arith, h, k, e));
  })
  | inl e ↦ rw e (elim (Bool-cases (test ((lo + hi) / 2))) [
    | inl t ↦ rw t (
        left-Found lo ((lo + hi) / 2) hi test (sort_search n lo ((lo + hi) / 2) test) mono
          (ground (arith, e)) t
          (sort_search-Found n lo ((lo + hi) / 2) test mono (ground (arith, e))
            (ground (arith, e, fits))))
    | inr f ↦ rw f (
        right-Found lo ((lo + hi) / 2) hi test (sort_search n ((lo + hi) / 2 + 1) hi test) mono
          (ground (arith, e)) f
          (sort_search-Found n ((lo + hi) / 2 + 1) hi test mono (ground (arith, e))
            (ground (arith, e, fits))))
  ])
]

-- Sorted methods: each one reaches the ids of those before it.
unfoldable pub Below : Method → List Method → Type 0
Below m [] = Unit {0}
Below m (x ∷ xs) = (less x m ≡ false) × Below m xs

unfoldable pub Sorted : List Method → Type 0
Sorted [] = Unit {0}
Sorted (m ∷ ms) = Below m ms × Sorted ms

less_trans : (a b c : Method) → less b a ≡ false → less c b ≡ false → less c a ≡ false
unfolding less
less_trans a b c h k = ground (arith, h, k)

less-asym : (a b : Method) → less a b ≡ true → less b a ≡ false
unfolding less
less-asym a b h = ground (arith, h)

Below-trans : (a b : Method) (ms : List Method) → less b a ≡ false → Below b ms → Below a ms
unfolding Below
Below-trans a b [] h k = tt
Below-trans a b (m ∷ ms) h (x, k) = (less_trans a b m h x, Below-trans a b ms h k)

insert-Below :
    (a m : Method) (ms : List Method) → less m a ≡ false → Below a ms → Below a (insert_method m ms)
unfolding Below insert_method
insert-Below a m [] h k = (h, tt)
insert-Below a m (x ∷ xs) h (y, k) = elim (Bool-cases (less x m)) [
  | inl e ↦ rw e (y, insert-Below a m xs h k)
  | inr e ↦ rw e (h, (y, k))
]

insert-Sorted : (m : Method) (ms : List Method) → Sorted ms → Sorted (insert_method m ms)
unfolding Sorted Below insert_method
insert-Sorted m [] s = (tt, tt)
insert-Sorted m (x ∷ xs) (b, s) = elim (Bool-cases (less x m)) [
  | inl e ↦ rw e (insert-Below x m xs (less-asym x m e) b, insert-Sorted m xs s)
  | inr e ↦ rw e ((e, Below-trans m x xs e b), (b, s))
]

pub sort_methods-Sorted : (ms : List Method) → Sorted (sort_methods ms)
unfolding sort_methods Sorted
sort_methods-Sorted [] = tt
sort_methods-Sorted (m ∷ ms) = insert-Sorted m (sort_methods ms) (sort_methods-Sorted ms)

-- ===== src/Server/Lookup.antt =====
-- server/server.go: `find` on the methods of a server.
use go_capnproto.Prelude.{
  ltb→lt, Option-cases, ltb, branch, true, Option, false, none, ◌≤◌, ℕ, zero, suc, ◌<◌, ◌≡◌, refl,
  sym, arith, ap, some, List, [], ◌∷◌, length, get_elem?, if◌then◌else◌, Bool-cases, inl, inr, ◌⊎◌,
  ◌∙◌,
}
use go_capnproto.Server.{
  checked, reaches_at, find, reaches, same_ids, Method, less, insert_method, sort_methods,
  sort_search,
}
use go_capnproto.Server.Find.{
  Found, Monotone, sort_search-Found, Below, Sorted, sort_methods-Sorted,
}
use mathlib.Core.Bool.{true≢false}
use mathlib.Core.Path.{subst}
use mathlib.Core.List.{Memᴰ}
use mathlib.Core.List.Memᴰ

-- Sorting keeps the methods.
insert-cases : (a m : Method) (ms : List Method) → Memᴰ a (insert_method m ms) → (a ≡ m) ⊎ Memᴰ a ms
unfolding insert_method
insert-cases a m [] h = Memᴰ.cases_cons h
insert-cases a m (x ∷ xs) h = elim (Bool-cases (less x m)) [
  | inl e ↦
      elim (Memᴰ.cases_cons
        (subst (λ b. Memᴰ a (if b then x ∷ insert_method m xs else m ∷ (x ∷ xs))) e h)) [
          | inl s ↦ inr (Memᴰ.head s)
          | inr t ↦ elim (insert-cases a m xs t) [ inl s ↦ inl s | inr u ↦ inr (Memᴰ.tail u) ]
        ]
  | inr e ↦
      Memᴰ.cases_cons (subst (λ b. Memᴰ a (if b then x ∷ insert_method m xs else m ∷ (x ∷ xs))) e h)
]

insert-here : (m : Method) (ms : List Method) → Memᴰ m (insert_method m ms)
unfolding insert_method
insert-here m [] = Memᴰ.head refl
insert-here m (x ∷ xs) = elim (Bool-cases (less x m)) [
  | inl e ↦ rw e (Memᴰ.tail (insert-here m xs))
  | inr e ↦ rw e (Memᴰ.head refl)
]

insert-keeps : (a m : Method) (ms : List Method) → Memᴰ a ms → Memᴰ a (insert_method m ms)
unfolding insert_method
insert-keeps a m [] h = Memᴰ.tail h
insert-keeps a m (x ∷ xs) h = elim (Bool-cases (less x m)) [
  | inl e ↦
      rw e (elim (Memᴰ.cases_cons h) [
        | inl s ↦ Memᴰ.head s
        | inr t ↦ Memᴰ.tail (insert-keeps a m xs t)
      ])
  | inr e ↦ rw e (Memᴰ.tail h)
]

sorted-from : (a : Method) (ms : List Method) → Memᴰ a (sort_methods ms) → Memᴰ a ms
unfolding sort_methods
sorted-from a [] h = h
sorted-from a (m ∷ ms) h = elim (insert-cases a m (sort_methods ms) h) [
  | inl s ↦ Memᴰ.head s
  | inr t ↦ Memᴰ.tail (sorted-from a ms t)
]

sorted-to : (a : Method) (ms : List Method) → Memᴰ a ms → Memᴰ a (sort_methods ms)
unfolding sort_methods
sorted-to a [] h = h
sorted-to a (m ∷ ms) h = elim (Memᴰ.cases_cons h) [
  | inl s ↦
      subst (λ b. Memᴰ b (insert_method m (sort_methods ms))) (sym s)
        (insert-here m (sort_methods ms))
  | inr t ↦ insert-keeps a m (sort_methods ms) (sorted-to a ms t)
]

at-Mem : (ms : List Method) (i : ℕ) (m : Method) → get_elem? ms i ≡ some m → Memᴰ m ms
at-Mem [] i m h = cc
at-Mem (x ∷ xs) zero m h = let same : m ≡ x = cc in Memᴰ.head same
at-Mem (x ∷ xs) (suc i) m h = Memᴰ.tail (at-Mem xs i m h)

Mem-at :
    (ms : List Method) (m : Method)
    → Memᴰ m ms
    → (i : ℕ) × (i < length ms) × (get_elem? ms i ≡ some m)
Mem-at [] m h = elim h [ ]
Mem-at (x ∷ xs) m h = elim (Memᴰ.cases_cons h) [
  | inl s ↦ (0, omega arith, ap some (sym s))
  | inr t ↦ let (i, lt, e) = Mem-at xs m t in (suc i, omega (arith, lt), e)
]

reaches_next :
    (iid mid : ℕ) (x m : Method)
    → less m x ≡ false
    → reaches iid mid x ≡ true
    → reaches iid mid m ≡ true
unfolding less reaches
reaches_next iid mid x m h k = ground (arith, h, k)

same-reaches : (iid mid : ℕ) (m : Method) → same_ids iid mid m ≡ true → reaches iid mid m ≡ true
unfolding same_ids reaches
same-reaches iid mid m h = ground (arith, h)

same_least :
    (iid mid : ℕ) (x m : Method)
    → less m x ≡ false
    → reaches iid mid x ≡ true
    → same_ids iid mid m ≡ true
    → same_ids iid mid x ≡ true
unfolding less reaches same_ids
same_least iid mid x m h k s = ground (arith, h, k, s)

Below-at :
    (x : Method) (ms : List Method) (j : ℕ) (m : Method)
    → Below x ms
    → get_elem? ms j ≡ some m
    → less m x ≡ false
unfolding Below
Below-at x [] j m b h = cc
Below-at x (y ∷ ys) zero m (b, _) h = let same : m ≡ y = cc in ap (λ z. less z x) same ∙ b
Below-at x (y ∷ ys) (suc j) m (_, b) h = Below-at x ys j m b h

less_self : (m : Method) → less m m ≡ false
unfolding less
less_self m = ground arith

Sorted-at :
    (ms : List Method) (i j : ℕ) (x m : Method)
    → Sorted ms
    → i ≤ j
    → get_elem? ms i ≡ some x
    → get_elem? ms j ≡ some m
    → less m x ≡ false
unfolding Sorted
Sorted-at [] i j x m s le hx hm = cc
Sorted-at (y ∷ ys) zero zero x m s le hx hm =
    let same : m ≡ x = cc in ap (λ z. less z x) same ∙ less_self x
Sorted-at (y ∷ ys) zero (suc j) x m (b, _) le hx hm =
    let same : y ≡ x = cc in Below-at x ys j m (subst (λ z. Below z ys) same b) hm
Sorted-at (y ∷ ys) (suc i) zero x m s le hx hm = absurd (omega arith)
Sorted-at (y ∷ ys) (suc i) (suc j) x m (_, s) le hx hm = Sorted-at ys i j x m s (omega arith) hx hm

get-beyond : (ms : List Method) (i : ℕ) → get_elem? ms i ≡ none → length ms ≤ i
get-beyond [] i h = omega arith
get-beyond (x ∷ xs) zero h = cc
get-beyond (x ∷ xs) (suc i) h = omega (arith, get-beyond xs i h)

beyond-none : (ms : List Method) (i : ℕ) → length ms ≤ i → get_elem? ms i ≡ none
beyond-none [] i h = refl
beyond-none (x ∷ xs) zero h = absurd (omega arith)
beyond-none (x ∷ xs) (suc i) h = beyond-none xs i (omega arith)

reaches-Monotone :
    (ms : List Method) (iid mid : ℕ)
    → Sorted ms
    → Monotone (λ j. reaches_at iid mid (get_elem? ms j))
unfolding Monotone
reaches-Monotone ms iid mid s i j le h = elim (Option-cases (get_elem? ms j)) [
  | inl e ↦ ap (reaches_at iid mid) e
  | inr (m, e) ↦ ap (reaches_at iid mid) e ∙ elim (Option-cases (get_elem? ms i)) [
    | inl n ↦ absurd (clash e (beyond-none ms j (omega (arith, get-beyond ms i n, le))))
    | inr (x, f) ↦
        reaches_next iid mid x m (Sorted-at ms i j x m s le f e)
          (sym (ap (reaches_at iid mid) f) ∙ h)
  ]
]
  where
    clash : {o : Option Method} {m : Method} → o ≡ some m → o ≡ none → ⊥
    clash e n = cc

methods-Found :
    (ms : List Method) (iid mid : ℕ)
    → Sorted ms
    → Found 0
        (length ms)
        (λ j. reaches_at iid mid (get_elem? ms j))
        (sort_search (length ms) 0 (length ms) (λ j. reaches_at iid mid (get_elem? ms j)))
methods-Found ms iid mid s =
    sort_search-Found (length ms) 0 (length ms) (λ j. reaches_at iid mid (get_elem? ms j))
      (reaches-Monotone ms iid mid s) (omega arith) (omega arith)

checked-some :
    (iid mid : ℕ) (o : Option Method) (m : Method)
    → checked iid mid o ≡ some m
    → (o ≡ some m) × (same_ids iid mid m ≡ true)
checked-some iid mid none m h = cc
checked-some iid mid (some x) m h =
    branch (same_ids iid mid x) h
      (λ e r. (r, subst (λ z. same_ids iid mid z ≡ true) (let same : x ≡ m = cc in same) e))
      (λ e r. cc)

-- A method that `find` returns on the methods of New is one of those that were given, and has the
-- ids that were asked for.
pub find_lem :
    (ms : List Method) (iid mid : ℕ) (m : Method)
    → find (sort_methods ms) iid mid ≡ some m
    → Memᴰ m ms × (m.interface_id ≡ iid) × (m.method_id ≡ mid)
unfolding find same_ids
find_lem ms iid mid m h =
    let sm : List Method = sort_methods ms in
    let (e, s) =
      checked-some iid mid
        (get_elem? sm
          (sort_search (length sm) 0 (length sm) (λ j. reaches_at iid mid (get_elem? sm j))))
        m h in
    (
      sorted-from m ms (
          at-Mem sm
            (sort_search (length sm) 0 (length sm) (λ j. reaches_at iid mid (get_elem? sm j))) m e),
      ground (arith, s),
      ground (arith, s),
    )

present :
    (sm : List Method) (iid mid k i : ℕ) (m : Method)
    → Sorted sm
    → k < length sm
    → get_elem? sm k ≡ some m
    → same_ids iid mid m ≡ true
    → Found 0 (length sm) (λ j. reaches_at iid mid (get_elem? sm j)) i
    → (x : Method) × (checked iid mid (get_elem? sm i) ≡ some x)
present sm iid mid k i m s lt e same f = elim (Bool-cases (ltb k i)) [
  | inl before ↦ absurd (
      true≢false (
        sym (same-reaches iid mid m same)
        ∙ sym (ap (reaches_at iid mid) e)
        ∙ f.before k (omega arith) (ltb→lt k i before)))
  | inr behind ↦ elim (Option-cases (get_elem? sm i)) [
    | inl n ↦ absurd (ground (arith, get-beyond sm i n, lt, behind))
    | inr (x, g) ↦ (
      x,
      ap (checked iid mid) g
          ∙ ap (λ b. if b then some x else none)
              (same_least iid mid x m (Sorted-at sm i k x m s (ground (arith, behind)) g e)
                (sym (ap (reaches_at iid mid) g)
                  ∙ f.behind i (omega arith) (ground (arith, behind, lt)))
                same),
    )
  ]
]

-- When a method was given to New, `find` with its ids returns a method.
pub find_present :
    (ms : List Method) (m : Method)
    → Memᴰ m ms
    → (x : Method) × (find (sort_methods ms) m.interface_id m.method_id ≡ some x)
unfolding find same_ids
find_present ms m h =
    let sm : List Method = sort_methods ms in
    let (k, lt, e) = Mem-at sm m (sorted-to m ms h) in
    present sm m.interface_id m.method_id k _ m (sort_methods-Sorted ms) lt e (ground arith)
      (methods-Found sm m.interface_id m.method_id (sort_methods-Sorted ms))

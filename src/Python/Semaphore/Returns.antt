-- ===== src/Python/Semaphore/Returns.antt =====
-- Every caller can leave.
use python_concurrency_examp.Prelude.{
  ℕ, zero, suc, ◌<◌, ◌≡◌, refl, ap, ◌⊎◌, inl, inr, true, false, none, some, List, [], ◌∷◌, ◌++◌,
  arith, sum_of, sum_of-middle, Star, Star-done,
}
use python_concurrency_examp.Python.Semaphore.{
  Semaphore, acquire, Guarded, Place, asking, inside, left, Client, client, System, start, Step,
  enters, leaves,
}
use python_concurrency_examp.Python.Semaphore.Clients.{holds, Fits, Inv, Step-Inv, run-Inv}
use python_concurrency_examp.Python.Semaphore.Results.{all_left, none_inside}

module _ {A R : Type 0} where
  abbrev IsAt : Place R → List (Client A R) → Type 0
  IsAt p cs =
      (before : List (Client A R)) × (a : A) × (after : List (Client A R)) × (cs
        ≡ before ++ client a p ∷ after)

  behind : (c : Client A R) (p : Place R) (cs : List (Client A R)) → IsAt p cs → IsAt p (c ∷ cs)
  behind c p cs (before, a, after, at) = (c ∷ before, a, after, ap (◌∷◌ c) at)

  find_inside : (cs : List (Client A R)) → (sum_of holds cs ≡ 0) ⊎ IsAt inside cs
  find_inside [] = inl refl
  find_inside (client a inside ∷ cs) = inr ([], a, cs, refl)
  find_inside (client a asking ∷ cs) = elim (find_inside cs) [
    | inl rest ↦ inl (omega (arith, rest))
    | inr i ↦ inr (behind _ inside cs i)
  ]
  find_inside (client a (left r) ∷ cs) = elim (find_inside cs) [
    | inl rest ↦ inl (omega (arith, rest))
    | inr i ↦ inr (behind _ inside cs i)
  ]

  find_asking :
      (cs : List (Client A R)) → sum_of holds cs ≡ 0 → (all_left cs ≡ true) ⊎ IsAt asking cs
  find_asking [] h = inl refl
  find_asking (client a inside ∷ cs) h = absurd (omega (arith, h))
  find_asking (client a asking ∷ cs) h = inr ([], a, cs, refl)
  find_asking (client a (left r) ∷ cs) h = elim (find_asking cs (omega (arith, h))) [
    | inl rest ↦ inl rest
    | inr i ↦ inr (behind _ asking cs i)
  ]

  -- The steps that a caller has before it.
  abbrev steps_of : Client A R → ℕ
  steps_of (client a asking) = 2
  steps_of (client a inside) = 1
  steps_of (client a (left r)) = 0

module _ {A R : Type 0} (guarded : Guarded A R) where
  abbrev Moves : System A R → Type 0
  Moves s =
      (t : System A R) × Step guarded s t × (sum_of steps_of t.clients < sum_of steps_of s.clients)

  fewer :
      (before after : List (Client A R)) (a : A) (p q : Place R) (cs : List (Client A R))
      → cs ≡ before ++ client a p ∷ after
      → steps_of (client a q) < steps_of (client a p)
      → sum_of steps_of (before ++ client a q ∷ after) < sum_of steps_of cs
  fewer before after a p q cs at less = omega (
    arith,
    less,
    ap (sum_of steps_of) at,
    sum_of-middle steps_of before after (client a p),
    sum_of-middle steps_of before after (client a q),
  )

  acquire-free :
      (s : Semaphore) (n : ℕ) → s.value ≡ suc n → acquire s ≡ some (record s { value = n })
  acquire-free s n e = ap (λ v. elim v [ zero ↦ none | suc k ↦ some (record s { value = k }) ]) e

  positive : (v : ℕ) → 0 < v → (n : ℕ) × (v ≡ suc n)
  positive zero h = absurd (omega (arith, h))
  positive (suc n) h = (n, refl)

  moves :
      (n : ℕ) (calls : List A) (s : System A R)
      → 0 < n
      → Inv guarded n calls s
      → all_left s.clients ≡ false
      → Moves s
  moves n calls s some_permit v not_yet = elim (find_inside s.clients) [
    | inr (before, a, after, at) ↦ (
      _,
      leaves before after a _ _ at refl,
      fewer before after a inside (left _) s.clients at (omega arith),
    )
    | inl nobody ↦ elim (find_asking s.clients nobody) [
      | inl over ↦ absurd (ground (arith, over, not_yet))
      | inr (before, a, after, at) ↦
          let (k, free) =
            positive s.semaphore.value (omega (arith, v.counted, nobody, some_permit)) in
          (
            _,
            enters before after a _ at (acquire-free s.semaphore k free),
            fewer before after a asking inside s.clients at (omega arith),
          )
    ]
  ]

  -- With a permit at all, every run can go on until all callers have left and all permits are free.
  pub all_can_leave :
      (m : Semaphore) (calls : List A) (s : System A R)
      → 0 < m.value
      → Fits m.value m.limit
      → Star (Step guarded) (start guarded m calls) s
      → (t : System A R) × Star (Step guarded) s t
        × Inv guarded m.value calls t
        × (all_left t.clients ≡ true)
        × (t.semaphore.value ≡ m.value)
  all_can_leave m calls s some_permit fits run =
      let (t, more, v, over) =
        Star-done (Inv guarded m.value calls) (λ u. all_left u.clients)
          (λ u. sum_of steps_of u.clients)
          (λ u v not_yet.
            (let (w, k, less) = moves m.value calls u some_permit v not_yet in
              (w, k, Step-Inv guarded m.value calls u w k v, less)))
          s (run-Inv guarded m calls s fits run) in
      (t, more, v, over, omega (arith, v.counted, none_inside t.clients over))

-- ===== src/Python/Semaphore/Results.antt =====
-- The results of the callers when all have left.
use python_concurrency_examp.Prelude.{
  ◌≡◌, refl, sym, ap, ◌∙◌, subst, inl, inr, Bool, true, false, none, some, List, [], ◌∷◌, map,
  arith, All, sum_of, Star,
}
use python_concurrency_examp.Python.{ok}
use python_concurrency_examp.Python.Semaphore.{
  Semaphore, Guarded, Place, asking, inside, left, Client, client, call_of, place_of, System, start,
  Step,
}
use python_concurrency_examp.Python.Semaphore.Clients.{holds, Fits, Follows, IsFollowing, run-Inv}

module _ {A R : Type 0} where
  abbrev pub all_left : List (Client A R) → Bool
  all_left [] = true
  all_left (client a asking ∷ cs) = false
  all_left (client a inside ∷ cs) = false
  all_left (client a (left r) ∷ cs) = all_left cs

  pub none_inside : (cs : List (Client A R)) → all_left cs ≡ true → sum_of holds cs ≡ 0
  none_inside [] h = refl
  none_inside (client a asking ∷ cs) h = ground arith
  none_inside (client a inside ∷ cs) h = ground arith
  none_inside (client a (left r) ∷ cs) h = omega (arith, none_inside cs h)

module _ {A R : Type 0} (guarded : Guarded A R) where
  -- The result of a call whose wait does not time out.
  abbrev pub expected : A → R
  expected a = elim (guarded.enter a) [ none ↦ guarded.leave a (ok tt) | some r ↦ r ]

  left_with :
      (a : A) (p : Place R)
      → guarded.timed_out a ≡ none
      → Follows guarded a p
      → elim p [ asking ↦ false | inside ↦ false | left r ↦ true ] ≡ true
      → p ≡ left (expected a)
  left_with a asking never h k = ground arith
  left_with a inside never h k = ground arith
  left_with a (left r) never (inl e) k =
      ap left (sym (ap (λ x. elim x [ none ↦ guarded.leave a (ok tt) | some r ↦ r ]) e))
  left_with a (left r) never (inr (e, inl late)) k = ground (arith, late, never)
  left_with a (left r) never (inr (e, inr body)) k =
      ap left (sym (ap (λ x. elim x [ none ↦ guarded.leave a (ok tt) | some r ↦ r ]) e ∙ body))

  abbrev pub NeverTimesOut : A → Type 0
  NeverTimesOut a = guarded.timed_out a ≡ none

  pub left-expected :
      (cs : List (Client A R))
      → all_left cs ≡ true
      → All (IsFollowing guarded) cs
      → All NeverTimesOut (map call_of cs)
      → map place_of cs ≡ map (λ a. left (expected a)) (map call_of cs)
  left-expected [] h f n = refl
  left-expected (client a asking ∷ cs) h f n = ground arith
  left-expected (client a inside ∷ cs) h f n = ground arith
  left-expected (client a (left r) ∷ cs) h f n =
      ap2 (left_with a (left r) n.0 f.0 refl) (left-expected cs h f.1 n.1)
    where
      ap2 : {p q : Place R} {ps qs : List (Place R)} → p ≡ q → ps ≡ qs → p ∷ ps ≡ q ∷ qs
      ap2 e k = cc

  -- When all callers have left, the permits are free again, and without time-outs the results are the
  -- expected ones, in the order of the calls.
  pub all-expected :
      (m : Semaphore) (calls : List A) (s : System A R)
      → Fits m.value m.limit
      → All NeverTimesOut calls
      → Star (Step guarded) (start guarded m calls) s
      → all_left s.clients ≡ true
      → (map place_of s.clients ≡ map (λ a. left (expected a)) calls)
        × (s.semaphore.value ≡ m.value)
  all-expected m calls s fits never run over =
      let v = run-Inv guarded m calls s fits run in
      (
        left-expected s.clients over v.follow (subst (All NeverTimesOut) (sym v.same_calls) never)
            ∙ ap (map (λ a. left (expected a))) v.same_calls,
        omega (arith, v.counted, none_inside s.clients over),
      )

-- ===== src/Limiter/Permits.antt =====
-- ratelimiter/limiter.py: the permits and the results of any number of threads that lease one.
use python_concurrency_examp.Prelude.{
  ℕ, ◌≤◌, ◌<◌, ◌≡◌, refl, sym, ap, ◌∙◌, subst, ◌⊎◌, inl, inr, true, some, List, [], ◌∷◌, map, arith,
  All, Star, Bool-cases,
}
use python_concurrency_examp.Prelude.Int.{ℤ, pos_part}
use python_concurrency_examp.Python.{Result, ok, err, timeout_error}
use python_concurrency_examp.Python.Semaphore.{
  release, asking, inside, left, Client, client, call_of, System, start, Step,
}
use python_concurrency_examp.Python.Semaphore.Clients.{
  active, Fits, Follows, IsFollowing, run-Inv, release-Fits,
}
use python_concurrency_examp.Python.Semaphore.Results.{all_left}
use python_concurrency_examp.Python.Semaphore.Returns.{all_can_leave}
use python_concurrency_examp.Limiter.{ApiRateLimiter, create, Leased, acquire}

create-positive :
    (n : ℤ) (limiter : ApiRateLimiter)
    → create n ≡ ok limiter
    → (0 < pos_part n)
      × (limiter.permits ≡ record { value = pos_part n; limit = some (pos_part n) })
unfolding create
create-positive n limiter made = (ground arith, ground arith)

fits :
    {n : ℕ} (limiter : ApiRateLimiter)
    → limiter.permits ≡ record { value = n; limit = some n }
    → Fits limiter.permits.value limiter.permits.limit
fits limiter e = subst (λ m. Fits m.value m.limit) (sym e) refl

-- The results that a lease can have, on a list of callers of which all have left.
abbrev pub HasResult : {T : Type 0} → Client (Leased T) (Result T) → Type 0
HasResult (client c asking) = ⊥
HasResult (client c inside) = ⊥
HasResult (client c (left r)) =
    ((c.timed ≡ true) × (r ≡ err (timeout_error "timed out waiting for API call permit")))
    ⊎ (r ≡ c.body)

module _ {T : Type 0} where
  one_result :
      (c : Leased T) (r : Result T) → Follows acquire c (left r) → HasResult (client c (left r))
  unfolding acquire
  one_result c r (inl refused) = absurd (ground (arith, refused))
  one_result c r (inr (asks, inr got)) = inr (sym got)
  one_result c r (inr (asks, inl late)) = inl (elim (Bool-cases c.timed) [
    | inl k ↦ (k, ground (arith, late, k))
    | inr k ↦ absurd (ground (arith, late, k))
  ])

  results :
      (cs : List (Client (Leased T) (Result T)))
      → all_left cs ≡ true
      → All (IsFollowing acquire) cs
      → All HasResult cs
  results [] h f = tt
  results (client c asking ∷ cs) h f = ground arith
  results (client c inside ∷ cs) h f = ground arith
  results (client c (left r) ∷ cs) h f = (one_result c r f.0, results cs h f.1)

  -- In every state that threads leasing permits reach, at most max_in_flight of them hold one, and if
  -- any holds one, its release does not raise the ValueError of the bounded semaphore.
  pub release-allowed :
      (n : ℤ) (limiter : ApiRateLimiter) (calls : List (Leased T))
      (s : System (Leased T) (Result T))
      → create n ≡ ok limiter
      → Star (Step acquire) (start acquire limiter.permits calls) s
      → 0 < active s
      → (active s ≤ pos_part n) × ((release s.semaphore).0 ≡ ok tt)
  release-allowed n limiter calls s made go held =
      let (some_permit, made_of) = create-positive n limiter made in
      let v = run-Inv acquire limiter.permits calls s (fits limiter made_of) go in
      let at : limiter.permits.value ≡ pos_part n = ap (λ m. m.value) made_of in
      (
        omega (arith, v.counted, at),
        (release-Fits limiter.permits.value s.semaphore _ _ (omega (arith, v.counted, held)) v.fits
            refl).0,
      )

  -- From every state that threads using a created limiter reach, some run ends with all threads out
  -- of the `with` block, with all permits free, and then each gave what its block returned or raised,
  -- or, with a timeout, raised TimeoutError.
  acquire-returns :
      (n : ℤ) (limiter : ApiRateLimiter) (calls : List (Leased T))
      (s : System (Leased T) (Result T))
      → create n ≡ ok limiter
      → Star (Step acquire) (start acquire limiter.permits calls) s
      → (t : System (Leased T) (Result T)) × Star (Step acquire) s t
        × (map call_of t.clients ≡ calls)
        × All HasResult t.clients
        × (t.semaphore.value ≡ pos_part n)
  acquire-returns n limiter calls s made go =
      let (some_permit, made_of) = create-positive n limiter made in
      let at : limiter.permits.value ≡ pos_part n = ap (λ m. m.value) made_of in
      let (t, more, v, over, free) =
        all_can_leave acquire limiter.permits calls s (omega (arith, some_permit, at))
          (fits limiter made_of) go in
      (t, more, v.same_calls, results t.clients over v.follow, free ∙ at)

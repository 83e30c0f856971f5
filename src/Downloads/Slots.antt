-- ===== src/Downloads/Slots.antt =====
-- downloadpool/pool.py: the slots and the results of any number of threads that call `run`.
use python_concurrency_examp.Prelude.{
  ℕ, ◌+◌, ◌<◌, ◌≤◌, ◌≡◌, sym, ap, ◌∙◌, subst, ◌⊎◌, inl, inr, true, false, none, List, [], ◌∷◌, map,
  arith, All, Star, ◌==◌, Bool-cases,
}
use python_concurrency_examp.Prelude.Int.{ℤ, pos_part}
use python_concurrency_examp.Python.{Result, ok, err, value_error, timeout_error}
use python_concurrency_examp.Python.Semaphore.{
  asking, inside, left, Client, client, call_of, System, start, Step,
}
use python_concurrency_examp.Python.Semaphore.Clients.{active, Fits, Follows, IsFollowing, run-Inv}
use python_concurrency_examp.Python.Semaphore.Results.{all_left}
use python_concurrency_examp.Python.Semaphore.Returns.{all_can_leave}
use python_concurrency_examp.Downloads.{DownloadPool, create, Call, run}

create-positive :
    (n : ℤ) (pool : DownloadPool)
    → create n ≡ ok pool
    → (0 < pos_part n) × (pool.slots ≡ record { value = pos_part n; limit = none })
unfolding create
create-positive n pool made = (ground arith, ground arith)

fits :
    {n : ℕ} (pool : DownloadPool)
    → pool.slots ≡ record { value = n; limit = none }
    → Fits pool.slots.value pool.slots.limit
fits pool e = subst (λ m. Fits m.value m.limit) (sym e) tt

-- The results that a call can have, on a list of callers of which all have left.
abbrev pub HasResult : {T : Type 0} → Client (Call T) (Result T) → Type 0
HasResult (client c asking) = ⊥
HasResult (client c inside) = ⊥
HasResult (client c (left r)) =
    ((c.download_id == "") ≡ true × (r ≡ err (value_error "download_id must not be empty")))
    ⊎ ((c.download_id == "") ≡ false
        × (((c.timed ≡ true) × (r ≡ err (timeout_error c.download_id))) ⊎ (r ≡ c.download)))

module _ {T : Type 0} where
  one_result : (c : Call T) (r : Result T) → Follows run c (left r) → HasResult (client c (left r))
  unfolding run
  one_result c r (inl refused) = elim (Bool-cases (c.download_id == "")) [
    | inl e ↦ inl (e, ground (arith, refused, e))
    | inr e ↦ absurd (ground (arith, refused, e))
  ]
  one_result c r (inr (asks, way)) = elim (Bool-cases (c.download_id == "")) [
    | inl e ↦ absurd (ground (arith, asks, e))
    | inr e ↦ inr (
      e,
      elim way [
        | inr got ↦ inr (sym got)
        | inl late ↦ inl (elim (Bool-cases c.timed) [
          | inl k ↦ (k, ground (arith, late, k))
          | inr k ↦ absurd (ground (arith, late, k))
        ])
      ],
    )
  ]

  results :
      (cs : List (Client (Call T) (Result T)))
      → all_left cs ≡ true
      → All (IsFollowing run) cs
      → All HasResult cs
  results [] h f = tt
  results (client c asking ∷ cs) h f = ground arith
  results (client c inside ∷ cs) h f = ground arith
  results (client c (left r) ∷ cs) h f = (one_result c r f.0, results cs h f.1)

  -- In every state that threads calling `run` reach, the downloads under way and the free slots
  -- add up to max_concurrent.
  run-bounded :
      (n : ℤ) (pool : DownloadPool) (calls : List (Call T)) (s : System (Call T) (Result T))
      → create n ≡ ok pool
      → Star (Step run) (start run pool.slots calls) s
      → s.semaphore.value + active s ≡ pos_part n
  run-bounded n pool calls s made go =
      let (some_slot, made_of) = create-positive n pool made in
      omega (
        arith,
        (run-Inv run pool.slots calls s (fits pool made_of) go).counted,
        ap (λ m. m.value) made_of,
      )

  -- In every state that threads calling `run` reach, at most max_concurrent downloads are under way,
  -- and from there some run ends with all threads out of `run`, with all slots free, and
  -- then an empty id has raised ValueError and any other call gave what its download returned or
  -- raised, or, with a timeout, raised TimeoutError.
  pub run-returns :
      (n : ℤ) (pool : DownloadPool) (calls : List (Call T)) (s : System (Call T) (Result T))
      → create n ≡ ok pool
      → Star (Step run) (start run pool.slots calls) s
      → (active s ≤ pos_part n)
        × ((t : System (Call T) (Result T)) × Star (Step run) s t
            × (map call_of t.clients ≡ calls)
            × All HasResult t.clients
            × (t.semaphore.value ≡ pos_part n))
  run-returns n pool calls s made go =
      let (some_slot, made_of) = create-positive n pool made in
      let at : pool.slots.value ≡ pos_part n = ap (λ m. m.value) made_of in
      let (t, more, v, over, free) =
        all_can_leave run pool.slots calls s (omega (arith, some_slot, at)) (fits pool made_of)
          go in
      (
        omega (arith, run-bounded n pool calls s made go),
        (t, more, v.same_calls, results t.clients over v.follow, free ∙ at),
      )

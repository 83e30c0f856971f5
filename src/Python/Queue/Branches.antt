-- ===== src/Python/Queue/Branches.antt =====
-- What the calls of a `queue.Queue` have done, by how they ended.
use python_concurrency_examp.Prelude.{
  ℕ, zero, suc, ◌+◌, ◌<◌, ◌≡◌, ◌⊎◌, Option, refl, sym, ap, ◌∙◌, inl, inr, if◌then◌else◌, true,
  false, List, [], ◌∷◌, arith, length, leb, Bool-cases,
}
use python_concurrency_examp.Prelude.Int.{ℤ}
use python_concurrency_examp.Python.{Exc, Result, ok, err, value_error, queue_shut_down}
use python_concurrency_examp.Python.Queue.{
  Queue, Attempt, waits, ends, is_full, add, put, get, task_done, get_within, put_within,
  bad_timeout,
}

below-capacity : (n k : ℕ) → 0 < n → elim n [ zero ↦ false | suc m ↦ leb (suc m) k ] ≡ false → k < n
below-capacity zero k some h = absurd (omega (arith, some))
below-capacity (suc n) k some h = ground (arith, h)

-- 1 for a call that raised nothing.
abbrev pub succeeded : Result (Unit {0}) → ℕ
succeeded (ok u) = 1
succeeded (err e) = 0

module _ {A : Type 0} where
  get_from : List A → Queue A → Attempt A × Queue A
  get_from xs q = elim xs [
    | [] ↦ (if q.is_shutdown then ends (err queue_shut_down) else waits, q)
    | x ∷ xs ↦ (ends (ok x), record q { items = xs })
  ]

  get-gives_from :
      (xs : List A) (q r : Queue A) (c : A)
      → get_from xs q ≡ (ends (ok c), r)
      → (xs ≡ c ∷ r.items) × (r ≡ record q { items = r.items })
  unfolding get_from
  get-gives_from [] q r c h = absurd (ground (arith, h))
  get-gives_from (x ∷ xs) q r c h =
      let same : x ≡ c = ground (arith, h) in
      let left : record q { items = xs } ≡ r = ground (arith, h) in
      (
        ap (λ y. y ∷ xs) same ∙ ap (λ k. c ∷ k.items) left,
        sym left ∙ ap (λ k. record q { items = k.items }) left,
      )

  get-gives :
      (q r : Queue A) (c : A)
      → get q ≡ (ends (ok c), r)
      → (q.items ≡ c ∷ r.items) × (r ≡ record q { items = r.items })
  unfolding get get_from
  get-gives q r c h = get-gives_from q.items q r c h

  get-waits_from : (xs : List A) (q r : Queue A) → get_from xs q ≡ (waits, r) → q ≡ r
  unfolding get_from
  get-waits_from [] q r h = ground (arith, h)
  get-waits_from (x ∷ xs) q r h = absurd (ground (arith, h))

  get-waits : (q r : Queue A) → get q ≡ (waits, r) → q ≡ r
  unfolding get get_from
  get-waits q r h = get-waits_from q.items q r h

  get-raises_from :
      (xs : List A) (q r : Queue A) (e : Exc)
      → get_from xs q ≡ (ends (err e), r)
      → (q ≡ r) × (xs ≡ []) × (q.is_shutdown ≡ true)
  unfolding get_from
  get-raises_from [] q r e h = elim (Bool-cases q.is_shutdown) [
    | inl off ↦ (ground (arith, h), refl, off)
    | inr on ↦ absurd (ground (arith, h, on))
  ]
  get-raises_from (x ∷ xs) q r e h = absurd (ground (arith, h))

  get-raises :
      (q r : Queue A) (e : Exc)
      → get q ≡ (ends (err e), r)
      → (q ≡ r) × (q.items ≡ []) × (q.is_shutdown ≡ true)
  unfolding get get_from
  get-raises q r e h = get-raises_from q.items q r e h

  put-adds :
      (x : A) (q r : Queue A)
      → 0 < q.maxsize
      → put x q ≡ (ends (ok tt), r)
      → (r ≡ add x q) × (q.is_shutdown ≡ false) × (length q.items < q.maxsize)
  unfolding put
  put-adds x q r some h =
      let room : is_full q ≡ false = ground (arith, h) in
      (ground (arith, h), ground (arith, h), below-capacity q.maxsize (length q.items) some room)

  put-waits : (x : A) (q r : Queue A) → put x q ≡ (waits, r) → q ≡ r
  unfolding put
  put-waits x q r h = ground (arith, h)

  put-raises :
      (x : A) (q r : Queue A) (e : Exc)
      → put x q ≡ (ends (err e), r)
      → (q ≡ r) × (q.is_shutdown ≡ true)
  unfolding put
  put-raises x q r e h = (ground (arith, h), ground (arith, h))

  -- With a timeout, `get` does what it does without one, or refuses the timeout.
  get_within-cases :
      (timeout : Option ℤ) (q r : Queue A) (a : Attempt A)
      → get_within timeout q ≡ (a, r)
      → (get q ≡ (a, r)) ⊎ ((a ≡ ends (err bad_timeout)) × (q ≡ r))
  unfolding get_within
  get_within-cases timeout q r a h = ground (arith, h)

  pub get_within-gives :
      (timeout : Option ℤ) (q r : Queue A) (c : A)
      → get_within timeout q ≡ (ends (ok c), r)
      → (q.items ≡ c ∷ r.items) × (r ≡ record q { items = r.items })
  get_within-gives timeout q r c h = elim (get_within-cases timeout q r (ends (ok c)) h) [
    | inl same ↦ get-gives q r c same
    | inr (bad, left) ↦ absurd (ground (arith, bad))
  ]

  pub get_within-waits :
      (timeout : Option ℤ) (q r : Queue A) → get_within timeout q ≡ (waits, r) → q ≡ r
  get_within-waits timeout q r h = elim (get_within-cases timeout q r waits h) [
    | inl same ↦ get-waits q r same
    | inr (bad, left) ↦ left
  ]

  pub get_within-raises :
      (timeout : Option ℤ) (q r : Queue A) (e : Exc)
      → get_within timeout q ≡ (ends (err e), r)
      → (q ≡ r) × ((e ≡ bad_timeout) ⊎ (q.is_shutdown ≡ true))
  get_within-raises timeout q r e h = elim (get_within-cases timeout q r (ends (err e)) h) [
    | inl same ↦ let (left, none, off) = get-raises q r e same in (left, inr off)
    | inr (bad, left) ↦ (left, inl (ground (arith, bad)))
  ]

  put_within-cases :
      (x : A) (timeout : Option ℤ) (q r : Queue A) (a : Attempt (Unit {0}))
      → put_within x timeout q ≡ (a, r)
      → (put x q ≡ (a, r)) ⊎ ((a ≡ ends (err bad_timeout)) × (q ≡ r))
  unfolding put_within
  put_within-cases x timeout q r a h = ground (arith, h)

  pub put_within-adds :
      (x : A) (timeout : Option ℤ) (q r : Queue A)
      → 0 < q.maxsize
      → put_within x timeout q ≡ (ends (ok tt), r)
      → (r ≡ add x q) × (q.is_shutdown ≡ false) × (length q.items < q.maxsize)
  put_within-adds x timeout q r some h = elim (put_within-cases x timeout q r (ends (ok tt)) h) [
    | inl same ↦ put-adds x q r some same
    | inr (bad, left) ↦ absurd (ground (arith, bad))
  ]

  pub put_within-waits :
      (x : A) (timeout : Option ℤ) (q r : Queue A) → put_within x timeout q ≡ (waits, r) → q ≡ r
  put_within-waits x timeout q r h = elim (put_within-cases x timeout q r waits h) [
    | inl same ↦ put-waits x q r same
    | inr (bad, left) ↦ left
  ]

  pub put_within-raises :
      (x : A) (timeout : Option ℤ) (q r : Queue A) (e : Exc)
      → put_within x timeout q ≡ (ends (err e), r)
      → q ≡ r
  put_within-raises x timeout q r e h = elim (put_within-cases x timeout q r (ends (err e)) h) [
    | inl same ↦ (put-raises x q r e same).0
    | inr (bad, left) ↦ left
  ]

  task_done_at : ℕ → Queue A → Result (Unit {0}) × Queue A
  task_done_at m q = elim m [
    | zero ↦ (err (value_error "task_done() called too many times"), q)
    | suc k ↦ (ok tt, record q { unfinished = k })
  ]

  task_done_at-counts :
      (m : ℕ) (q : Queue A)
      → q.unfinished ≡ m
      → ((task_done_at m q).1 ≡ record q { unfinished = (task_done_at m q).1.unfinished })
        × ((task_done_at m q).1.unfinished + succeeded (task_done_at m q).0 ≡ q.unfinished)
  unfolding task_done_at
  task_done_at-counts zero q e = (refl, omega (arith, e))
  task_done_at-counts (suc m) q e = (refl, omega (arith, e))

  -- A call of `task_done` changes only the count, by one where it raises nothing.
  pub task_done-counts :
      (q : Queue A)
      → ((task_done q).1 ≡ record q { unfinished = (task_done q).1.unfinished })
        × ((task_done q).1.unfinished + succeeded (task_done q).0 ≡ q.unfinished)
  unfolding task_done task_done_at
  task_done-counts q = task_done_at-counts q.unfinished q refl

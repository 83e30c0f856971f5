-- ===== src/Bounded/Handoff.antt =====
-- boundedqueue/workqueue.py: items go through in order, within the capacity, and `join` waits for all.
use python_concurrency_examp.Prelude.{
  ℕ, ◌≤◌, ◌≡◌, refl, List, some, sum_of, sym, ap, ◌∙◌, subst, true, [], ◌∷◌, ◌++◌, arith, All,
  length, length-zero, zero_test, Star, Star-keeps,
}
use python_concurrency_examp.Prelude.Int.{ℤ, pos_part}
use python_concurrency_examp.Python.{Result, ok, err}
use python_concurrency_examp.Python.Queue
use python_concurrency_examp.Python.Queue.{Queue, Attempt, waits, ends, add}
use python_concurrency_examp.Python.Queue.Branches.{
  get_within-waits, get_within-raises, put_within-waits, put_within-raises, succeeded,
}
use python_concurrency_examp.Bounded.{BoundedQueue, create, put, get, joined, size}
use python_concurrency_examp.Bounded.System.{
  System, Step, puts, put_times_out, put_raises, gets, get_times_out, get_raises, marks_done,
  shuts_down,
}
use python_concurrency_examp.Bounded.Invariant.{
  Inv, fresh, create-Inv, put-Inv, get-Inv, marks_done-Inv, shuts_down-Inv, unchanged,
}

succeeded-length : (rs : List (Result (Unit {0}))) → sum_of succeeded rs ≤ length rs
succeeded-length [] = omega arith
succeeded-length (ok u ∷ rs) = omega (arith, succeeded-length rs)
succeeded-length (err e ∷ rs) = omega (arith, succeeded-length rs)

succeeded-All :
    (rs : List (Result (Unit {0}))) → length rs ≤ sum_of succeeded rs → All (λ r. r ≡ ok tt) rs
succeeded-All [] h = tt
succeeded-All (ok u ∷ rs) h = (refl, succeeded-All rs (omega (arith, h)))
succeeded-All (err e ∷ rs) h = absurd (omega (arith, h, succeeded-length rs))

module _ {T : Type 0} where
  Step-Inv : (n : ℕ) (s t : System T) → Step s t → Inv n s → Inv n t
  unfolding put get
  Step-Inv n s _ (puts {w} x timeout h) v =
      let q = (Queue.put_within x timeout s.work.queue).1 in
      subst (λ k. Inv n (record s { work = k; accepted = s.accepted ++ x ∷ [] })) (ap (λ y. y.1) h)
        (put-Inv n s x timeout q (ap (λ y. (y.0, q)) h) v)
  Step-Inv n s _ (put_times_out {w} x t h) v =
      unchanged n s w
        (put_within-waits x (some t) s.work.queue w.queue (ap (λ y. (y.0, y.1.queue)) h)) v
  Step-Inv n s _ (put_raises {w} x timeout e h) v =
      unchanged n s w
        (put_within-raises x timeout s.work.queue w.queue e (ap (λ y. (y.0, y.1.queue)) h)) v
  Step-Inv n s _ (gets {w} x timeout h) v =
      get-Inv n s x timeout w.queue (ap (λ y. (y.0, y.1.queue)) h) v
  Step-Inv n s _ (get_times_out {w} t h) v =
      unchanged n s w
        (get_within-waits (some t) s.work.queue w.queue (ap (λ y. (y.0, y.1.queue)) h)) v
  Step-Inv n s _ (get_raises {w} timeout e h) v =
      unchanged n s w
        (get_within-raises timeout s.work.queue w.queue e (ap (λ y. (y.0, y.1.queue)) h)).0 v
  Step-Inv n s _ (marks_done {w} r h) v = marks_done-Inv n s r w h v
  Step-Inv n s _ (shuts_down immediate) v = shuts_down-Inv n s immediate v

  run-Inv :
      (n : ℤ) (b : BoundedQueue T) (s : System T)
      → create n ≡ ok b
      → Star Step (fresh b) s
      → Inv (pos_part n) s
  run-Inv n b s made run =
      Star-keeps (Inv (pos_part n)) (Step-Inv (pos_part n)) (create-Inv n b made) run

  -- In every state that producers, consumers and callers of `task_done` and `shutdown` reach from a
  -- created queue, the items accepted are those returned, those pending and those that an immediate
  -- shutdown discarded, in this order, and no more than capacity are pending.
  pub handoff-fifo :
      (n : ℤ) (b : BoundedQueue T) (s : System T)
      → create n ≡ ok b
      → Star Step (fresh b) s
      → (s.returned ++ (s.work.queue.items ++ s.discarded) ≡ s.accepted)
        × (size s.work ≤ pos_part n)
  unfolding size
  handoff-fifo n b s made run = let v = run-Inv n b s made run in (v.order, v.within)

  -- In every state that producers, consumers and callers of `task_done` and `shutdown` reach from a
  -- created queue, and in which `task_done` has been called at most once for each item returned so
  -- far: where `join` returns, every item accepted has been returned and marked, or discarded, and no
  -- call of `task_done` has raised.
  pub join-all_marked :
      (n : ℤ) (b : BoundedQueue T) (s : System T)
      → create n ≡ ok b
      → Star Step (fresh b) s
      → length s.marks ≤ length s.returned
      → joined s.work ≡ true
      → (s.returned ++ s.discarded ≡ s.accepted)
        × (length s.marks ≡ length s.returned)
        × All (λ r. r ≡ ok tt) s.marks
  join-all_marked n b s made run once over =
      let v = run-Inv n b s made run in
      let none_left = zero_test s.work.queue.unfinished over in
      let most = succeeded-length s.marks in
      (
        ap (λ l. s.returned ++ (l ++ s.discarded))
              (sym
                (length-zero s.work.queue.items (omega (arith, v.covered, most, once, none_left))))
            ∙ v.order,
        omega (arith, v.covered, most, once, none_left),
        succeeded-All s.marks (omega (arith, v.covered, most, once, none_left)),
      )

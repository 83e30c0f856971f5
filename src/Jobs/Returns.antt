-- ===== src/Jobs/Returns.antt =====
-- asyncjobqueue/queue.py: once `stop` has begun, it can return.
use python_concurrency_examp.Prelude.{
  ℕ, zero, suc, ◌+◌, ◌*◌, ◌<◌, ◌≡◌, refl, sym, ap, ◌∙◌, subst, inl, inr, Bool, true, false, List,
  [], ◌∷◌, ◌++◌, arith, length, length-append, Star, Star-done,
}
use python_concurrency_examp.Prelude.Int.{ℤ}
use python_concurrency_examp.Python.{Result, ok}
use python_concurrency_examp.Jobs.{
  AsyncJobQueue, Item, job, stop_token, Worker, waiting, handling, ended, create, all_ended,
}
use python_concurrency_examp.Jobs.System.{
  Stopper, none_yet, joining, gathering, returned, System, Step, drained, gathered, takes,
  takes_stop, finishes,
}
use python_concurrency_examp.Jobs.Kept.{busy, tokens_in, tokens_in-append, length-busy}
use python_concurrency_examp.Jobs.Invariant.{Phase, Inv, fresh}
use python_concurrency_examp.Jobs.Drained.{tokens, length-tokens, put_stop_tokens_lem}
use python_concurrency_examp.Jobs.Stopped.{Step-Inv, run-Inv}
use python_concurrency_examp.Jobs.Waiting.{
  find_busy, find_waiting, list-cases, first_job, first_token, first_waiting,
}

-- How much the call of `stop` has before it, with n workers.
abbrev weight : Stopper → ℕ → ℕ
weight none_yet n = 0
weight joining n = 2 * n + 2
weight gathering n = 1
weight returned n = 0

abbrev has_returned : Stopper → Bool
has_returned none_yet = false
has_returned joining = false
has_returned gathering = false
has_returned returned = true

-- A call of `stop` has gone on.
abbrev HasBegun : Stopper → Type 0
HasBegun none_yet = ⊥
HasBegun joining = Unit {0}
HasBegun gathering = Unit {0}
HasBegun returned = Unit {0}

stopper-returned : (p : Stopper) → has_returned p ≡ true → p ≡ returned
stopper-returned none_yet h = ground arith
stopper-returned joining h = ground arith
stopper-returned gathering h = ground arith
stopper-returned returned h = refl

begun-started :
    (started : Bool) (p : Stopper) → HasBegun p → (started ≡ false → p ≡ none_yet) → started ≡ true
begun-started true p h off = refl
begun-started false p h off = absurd (subst HasBegun (off refl) h)

same_length :
    {A : Type 0} (xs ys : List A) (x y : A) → length (xs ++ x ∷ ys) ≡ length (xs ++ y ∷ ys)
same_length xs ys x y = omega (arith, length-append xs (x ∷ ys), length-append xs (y ∷ ys))

module _ {T : Type 0} where
  abbrev left_to_do : System T → ℕ
  left_to_do s =
      weight s.stopper (length s.jobs.workers)
      + 2 * length s.jobs.queue
      + length (busy s.jobs.workers)

  abbrev Moves : (T → Result (Unit {0})) → System T → Type 0
  Moves handler s =
      (t : System T) × Step handler s t × HasBegun t.stopper × (left_to_do t < left_to_do s)

  finish_one :
      (handler : T → Result (Unit {0})) (s : System T) (before after : List (Worker T)) (j : T)
      → s.jobs.workers ≡ before ++ handling j ∷ after
      → HasBegun s.stopper
      → Moves handler s
  finish_one handler s before after j at begun = (
    _,
    finishes before after j at,
    begun,
    omega (
      arith,
      ap length at,
      ap (weight s.stopper) (ap length at ∙ same_length before after (handling j) waiting),
      ap (λ ws. length (busy ws)) at,
      length-busy before after (handling j),
      length-busy before after waiting,
    ),
  )

  take_one :
      (handler : T → Result (Unit {0})) (s : System T) (after : List (Worker T)) (j : T)
      (rest : List (Item T))
      → s.jobs.workers ≡ waiting ∷ after
      → s.jobs.queue ≡ job j ∷ rest
      → HasBegun s.stopper
      → Moves handler s
  take_one handler s after j rest at front begun = (
    _,
    takes [] after j rest at front,
    begun,
    omega (
      arith,
      ap (λ ws. weight s.stopper (length ws)) at,
      ap length front,
      ap (λ ws. length (busy ws)) at,
    ),
  )

  stop_one :
      (handler : T → Result (Unit {0})) (s : System T) (before after : List (Worker T))
      (rest : List (Item T))
      → s.jobs.workers ≡ before ++ waiting ∷ after
      → s.jobs.queue ≡ stop_token ∷ rest
      → HasBegun s.stopper
      → Moves handler s
  stop_one handler s before after rest at front begun = (
    _,
    takes_stop before after rest at front,
    begun,
    omega (
      arith,
      ap (weight s.stopper) (ap length at ∙ same_length before after waiting ended),
      ap length front,
      ap (λ ws. length (busy ws)) at,
      length-busy before after waiting,
      length-busy before after ended,
    ),
  )

  end_join :
      (handler : T → Result (Unit {0})) (s : System T)
      → s.stopper ≡ joining
      → s.jobs.unfinished ≡ 0
      → s.jobs.queue ≡ []
      → Moves handler s
  end_join handler s at zero_left empty = (
    _,
    drained at (ap (λ n. elim n [ zero ↦ true | suc k ↦ false ]) zero_left),
    tt,
    omega (
      arith,
      ap (λ p. weight p (length s.jobs.workers)) at,
      ap length empty,
      ap (λ k. length k.queue) (put_stop_tokens_lem s.jobs.workers s.jobs),
      ap (λ k. length (busy k.workers)) (put_stop_tokens_lem s.jobs.workers s.jobs),
      length-append s.jobs.queue (tokens s.jobs.workers),
      length-tokens s.jobs.workers,
    ),
  )

  end_gather :
      (handler : T → Result (Unit {0})) (s : System T)
      → s.stopper ≡ gathering
      → all_ended s.jobs.workers ≡ true
      → Moves handler s
  end_gather handler s at all =
      (_, gathered at all, tt, omega (arith, ap (λ p. weight p (length s.jobs.workers)) at))

  joining-Moves :
      (handler : T → Result (Unit {0})) (s : System T)
      → s.stopper ≡ joining
      → HasBegun s.stopper
      → Inv handler s
      → Moves handler s
  joining-Moves handler s at begun v = elim (find_busy s.jobs.workers) [
    | inr (before, after, j, here_it_is) ↦ finish_one handler s before after j here_it_is begun
    | inl idle ↦
        let (no_tokens, none_ended) = subst (λ p. Phase p s.jobs.queue s.jobs.workers) at v.phase in
        elim (list-cases s.jobs.queue) [
          | inl empty ↦
              end_join handler s at (omega (arith, v.counted, ap length empty, ap length idle))
                empty
          | inr (x, rest, front) ↦
              let on =
                begun-started s.jobs.started s.stopper begun (λ off. (v.not_started off).2) in
              let (after, ws) = first_waiting s.jobs.workers (v.crewed.1 on) idle none_ended in
              let no_first_token : tokens_in (x ∷ []) ≡ 0 =
                omega (arith, no_tokens, ap tokens_in front, tokens_in-append (x ∷ []) rest) in
              let (j, is_job) = first_job x (no_first_token) in
              take_one handler s after j rest ws (front ∙ ap (λ y. y ∷ rest) is_job) begun
        ]
  ]

  gathering-Moves :
      (handler : T → Result (Unit {0})) (s : System T)
      → s.stopper ≡ gathering
      → HasBegun s.stopper
      → Inv handler s
      → Moves handler s
  gathering-Moves handler s at begun v =
      let (no_jobs, idle, all) = subst (λ p. Phase p s.jobs.queue s.jobs.workers) at v.phase in
      elim (find_waiting s.jobs.workers idle) [
        | inl over ↦ end_gather handler s at over
        | inr (before, after, here_it_is, less) ↦
            let (rest, front) = first_token s.jobs.queue no_jobs (omega (arith, all, less)) in
            stop_one handler s before after rest here_it_is front begun
      ]

  begun-Moves :
      (handler : T → Result (Unit {0})) (s : System T) (p : Stopper)
      → s.stopper ≡ p
      → HasBegun p
      → has_returned p ≡ false
      → Inv handler s
      → Moves handler s
  begun-Moves handler s none_yet at begun more v = absurd begun
  begun-Moves handler s joining at begun more v =
      joining-Moves handler s at (subst HasBegun (sym at) begun) v
  begun-Moves handler s gathering at begun more v =
      gathering-Moves handler s at (subst HasBegun (sym at) begun) v
  begun-Moves handler s returned at begun more v = ground arith

  -- From every state that a run reaches and in which a call of `stop` waits for the drain, some run of
  -- the worker tasks and that call ends with the call returned.
  pub stop-returns :
      (handler : T → Result (Unit {0})) (n : ℤ) (q : AsyncJobQueue T) (s : System T)
      → create n ≡ ok q
      → Star (Step handler) (fresh q) s
      → s.stopper ≡ joining
      → (t : System T) × Star (Step handler) s t × (t.stopper ≡ returned)
  stop-returns handler n q s made run at =
      let (t, more, v, over) =
        Star-done (λ u. Inv handler u × HasBegun u.stopper) (λ u. has_returned u.stopper) left_to_do
          (λ u v not_yet.
            (let (w, k, begun, less) = begun-Moves handler u u.stopper refl v.1 not_yet v.0 in
              (w, k, (Step-Inv handler u w k v.0, begun), less)))
          s (run-Inv handler n q s made run, subst HasBegun (sym at) tt) in
      (t, more, stopper-returned t.stopper over)

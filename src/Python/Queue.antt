-- ===== src/Python/Queue.antt =====
-- `queue.Queue`: a first-in-first-out queue with a capacity, which can be shut down.
pub mod Branches
use python_concurrency_examp.Prelude.{
  ℕ, zero, suc, ◌-◌, Bool, true, false, Option, none, some, List, [], ◌∷◌, ◌++◌, if◌then◌else◌, leb,
  ltb, ◌&&◌, not, length, is_empty,
}
use python_concurrency_examp.Prelude.Int.{ℤ, pos, ltb_ℤ}
use python_concurrency_examp.Python.{
  Exc, Result, ok, err, Exec, value_error, queue_empty, queue_full, queue_shut_down,
}

-- `unfinished` counts the puts less the calls of `task_done`.
pub record Queue {ℓ} (A : Type ℓ) : Type ℓ where
  pub maxsize : ℕ
  pub items : List A
  pub unfinished : ℕ
  pub is_shutdown : Bool

-- What a blocking call does next: it waits, or it raises or returns.
pub data Attempt {ℓ} (A : Type ℓ) : Type ℓ where
  waits : Attempt A
  ends : Result A → Attempt A

abbrev pub is_negative : Option ℤ → Bool
is_negative none = false
is_negative (some t) = ltb_ℤ t (pos 0)

abbrev pub bad_timeout : Exc
bad_timeout = value_error "'timeout' must be a non-negative number"

module _ {ℓ} {A : Type ℓ} where
  abbrev pub new_queue : ℕ → Queue A
  new_queue n = record { maxsize = n; items = []; unfinished = 0; is_shutdown = false }

  -- The queue is at its capacity; 0 stands for none.
  abbrev pub is_full : Queue A → Bool
  is_full q = elim q.maxsize [ zero ↦ false | suc n ↦ leb (suc n) (length q.items) ]

  abbrev pub add : A → Queue A → Queue A
  add x q = record q { items = q.items ++ x ∷ []; unfinished = suc q.unfinished }

  -- `put`, at its start and whenever it is woken
  unfoldable pub put : A → Queue A → Attempt (Unit {0}) × Queue A
  put x q =
      if q.is_shutdown
      then (ends (err queue_shut_down), q)
      else if is_full q
      then (waits, q)
      else (ends (ok tt), add x q)

  unfoldable pub put_nowait : A → Queue A → Result (Unit {0}) × Queue A
  put_nowait x q =
      if q.is_shutdown
      then (err queue_shut_down, q)
      else if is_full q
      then (err queue_full, q)
      else (ok tt, add x q)

  -- `get`, at its start and whenever it is woken
  unfoldable pub get : Queue A → Attempt A × Queue A
  get q = elim q.items [
    | [] ↦ (if q.is_shutdown then ends (err queue_shut_down) else waits, q)
    | x ∷ xs ↦ (ends (ok x), record q { items = xs })
  ]

  -- `get(timeout=timeout)`: a negative timeout is refused before any wait, but after the test for a
  -- queue that is shut down and empty
  unfoldable pub get_within : Option ℤ → Queue A → Attempt A × Queue A
  get_within timeout q =
      if is_negative timeout && not (q.is_shutdown && is_empty q.items)
      then (ends (err bad_timeout), q)
      else get q

  -- `put(x, timeout=timeout)`: a negative timeout is refused before any wait, where there is a
  -- capacity to wait for, but after the test for a queue that is shut down
  unfoldable pub put_within : A → Option ℤ → Queue A → Attempt (Unit {0}) × Queue A
  put_within x timeout q =
      if is_negative timeout && not q.is_shutdown && ltb 0 q.maxsize
      then (ends (err bad_timeout), q)
      else put x q

  unfoldable pub task_done : Exec (Queue A) (Unit {0})
  task_done q = elim q.unfinished [
    | zero ↦ (err (value_error "task_done() called too many times"), q)
    | suc n ↦ (ok tt, record q { unfinished = n })
  ]

  -- `join` that returns
  abbrev pub joined : Queue A → Bool
  joined q = elim q.unfinished [ zero ↦ true | suc n ↦ false ]

  -- `shutdown`: at once, it takes the items out, each with its count while the count is above zero
  unfoldable pub shutdown : Bool → Queue A → Queue A
  shutdown immediate q =
      if immediate
      then record q { items = []; unfinished = q.unfinished - length q.items; is_shutdown = true }
      else record q { is_shutdown = true }

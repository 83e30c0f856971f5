-- ===== src/Python/PriorityQueue.antt =====
-- The priority queues of the standard library, as the examples use them: entries are tuples of a
-- priority, a sequence number and a value, and no two of them have the same first two parts.
pub mod Least
pub mod Drain
use python_concurrency_examp.Prelude.{
  ℕ, zero, suc, ◌+◌, ◌-◌, Bool, true, false, Option, none, some, List, [], ◌∷◌, ◌++◌, if◌then◌else◌,
  ltb, length,
}
use python_concurrency_examp.Prelude.Int.{ℤ, ltb_ℤ}
use python_concurrency_examp.Python.{Exec, ok, err, value_error}

-- An entry of the queue.
pub record Entry {ℓ} (A : Type ℓ) : Type ℓ where
  pub priority : ℤ
  pub sequence : ℕ
  pub value : A

-- `unfinished` counts the puts less the calls of `task_done`.
pub record PriorityQueue {ℓ} (A : Type ℓ) : Type ℓ where
  pub entries : List (Entry A)
  pub unfinished : ℕ

module _ {ℓ} {A : Type ℓ} where
  -- `a < b` for the tuples, of which the sequence numbers differ
  unfoldable pub comes_before : Entry A → Entry A → Bool
  comes_before a b =
      if ltb_ℤ a.priority b.priority
      then true
      else if ltb_ℤ b.priority a.priority
      then false
      else ltb a.sequence b.sequence

  -- The least entry of `e ∷ es`, and the others.
  unfoldable pub extract : Entry A → List (Entry A) → Entry A × List (Entry A)
  extract e [] = (e, [])
  extract e (x ∷ es) =
      let rest = extract x es in if comes_before rest.0 e then (rest.0, e ∷ rest.1) else (e, x ∷ es)

  -- `put`
  abbrev pub put : Entry A → PriorityQueue A → PriorityQueue A
  put e q = record q { entries = q.entries ++ e ∷ []; unfinished = suc q.unfinished }

  unfoldable pub take_least : List (Entry A) → Option (Entry A × List (Entry A))
  take_least [] = none
  take_least (e ∷ es) = some (extract e es)

  -- `get(block=False)`, or `none` for its exception Empty
  unfoldable pub get_nowait : PriorityQueue A → Option (Entry A) × PriorityQueue A
  unfolding take_least
  get_nowait q = elim (take_least q.entries) [
    | none ↦ (none, q)
    | some (e, es) ↦ (some e, record q { entries = es })
  ]

  unfoldable pub task_done : Exec (PriorityQueue A) (Unit {0})
  task_done q = elim q.unfinished [
    | zero ↦ (err (value_error "task_done() called too many times"), q)
    | suc n ↦ (ok tt, record q { unfinished = n })
  ]

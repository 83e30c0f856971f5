-- ===== src/Connections/System.antt =====
-- The threads that lease connections, in `with pool.checkout(timeout): body`.
use python_concurrency_examp.Prelude.{◌≡◌, Option, some, List, [], ◌∷◌, ◌++◌}
use python_concurrency_examp.Prelude.Int.{ℤ}
use python_concurrency_examp.Python.{Exc, Result, ok, err, queue_empty}
use python_concurrency_examp.Python.Queue.{waits, ends}
use python_concurrency_examp.Connections.{ConnectionPool, begin_checkout, end_checkout}

-- The pool, the connections on lease, what the checkouts that got no connection raised, and what
-- putting back each connection gave.
pub record System (T : Type 0) : Type 0 where
  pub pool : ConnectionPool T
  pub leased : List T
  pub raised : List Exc
  pub given_back : List (Result (Unit {0}))

pub data Step {T : Type 0} (s : System T) : System T → Type 0 where
  leases :
      {p : ConnectionPool T} (timeout : Option ℤ) (c : T)
      → begin_checkout timeout s.pool ≡ (ends (ok c), p)
      → Step s (record s { pool = p; leased = s.leased ++ c ∷ [] })
  -- the timeout of a `get` that waits
  times_out :
      {p : ConnectionPool T} (t : ℤ)
      → begin_checkout (some t) s.pool ≡ (waits, p)
      → Step s (record s { pool = p; raised = s.raised ++ queue_empty ∷ [] })
  -- a `get` that raises at once
  fails :
      {p : ConnectionPool T} (timeout : Option ℤ) (e : Exc)
      → begin_checkout timeout s.pool ≡ (ends (err e), p)
      → Step s (record s { pool = p; raised = s.raised ++ e ∷ [] })
  gives_back :
      {p : ConnectionPool T} (before after : List T) (c : T) (r : Result (Unit {0}))
      → s.leased ≡ before ++ c ∷ after
      → end_checkout c s.pool ≡ (r, p)
      → Step s
          (record s { pool = p; leased = before ++ after; given_back = s.given_back ++ r ∷ [] })

-- ===== src/Connections.antt =====
-- connectionpool/pool.py: a fixed set of connections that threads lease.
pub mod System
pub mod Invariant
pub mod Leases
mod Tests
use python_concurrency_examp.Prelude.{
  ℕ, Option, Bool, true, false, List, [], ◌∷◌, ◌++◌, is_empty, length,
}
use python_concurrency_examp.Python.{Result, ok, err, value_error, check}
use python_concurrency_examp.Prelude.Int.{ℤ}
use python_concurrency_examp.Python.Queue.{Queue, new_queue, Attempt, get_within, put_nowait}

pub record ConnectionPool (T : Type 0) : Type 0 where
  pub available : Queue T

module _ {T : Type 0} where
  -- the loop `for connection in connection_list`, up to an exception
  abbrev pub put_all : List T → Queue T → Result (Queue T)
  put_all [] q = ok q
  put_all (c ∷ cs) q =
      let (r, more) = put_nowait c q in
      let rest = put_all cs more in elim r [ ok u ↦ rest | err e ↦ err e ]

  -- `__init__`
  pub create : List T → Result (ConnectionPool T)
  create connection_list =
      check (is_empty connection_list) (value_error "connections must not be empty")
        (elim (put_all connection_list (new_queue (length connection_list))) [
          | ok q ↦ ok (record { available = q })
          | err e ↦ err e
        ])

  -- `checkout` up to its `yield`: the `get`, which may wait
  unfoldable pub begin_checkout : Option ℤ → ConnectionPool T → Attempt T × ConnectionPool T
  begin_checkout timeout p =
      let (r, q) = get_within timeout p.available in (r, record { available = q })

  -- the `finally` of `checkout`
  unfoldable pub end_checkout : T → ConnectionPool T → Result (Unit {0}) × ConnectionPool T
  end_checkout connection p =
      let (r, q) = put_nowait connection p.available in (r, record { available = q })

  pub available_count : ConnectionPool T → ℕ
  available_count p = length p.available.items

-- ===== src/Connections/Tests.antt =====
-- A pool of two connections, one of them on lease.
use python_concurrency_examp.Prelude.{
  ℕ, ◌+◌, ◌≡◌, refl, some, none, false, [], ◌∷◌, ◌++◌, All, length, Star, here, next,
}
use mathlib.Core.List.{Perm}
use python_concurrency_examp.Python.{ok, queue_empty}
use python_concurrency_examp.Python.Queue.{get, get_within, put_nowait, bad_timeout}
use python_concurrency_examp.Prelude.Int.{pos, negsuc}
use python_concurrency_examp.Connections.{
  ConnectionPool, create, begin_checkout, end_checkout, available_count,
}
use python_concurrency_examp.Connections.System.{System, Step, leases, times_out, fails, gives_back}
use python_concurrency_examp.Connections.Invariant.{IsTimeout, Succeeds, fresh}
use python_concurrency_examp.Connections.Leases.{checkout-keeps}

abbrev two : ConnectionPool ℕ
two = record {
  available = record { maxsize = 2; items = 10 ∷ 20 ∷ []; unfinished = 2; is_shutdown = false };
}

two-made : create (10 ∷ 20 ∷ []) ≡ ok two
unfolding create put_nowait
two-made = refl

-- Both leased, a third caller timed out, a fourth gave a negative timeout, and the first connection
-- is back.
abbrev one_out : System ℕ
one_out = record {
  pool = record {
    available = record { maxsize = 2; items = 10 ∷ []; unfinished = 3; is_shutdown = false };
  };
  leased = 20 ∷ [];
  raised = queue_empty ∷ bad_timeout ∷ [];
  given_back = ok tt ∷ [];
}

to_one_out : Star Step (fresh two) one_out
unfolding begin_checkout end_checkout get_within get put_nowait
to_one_out =
    next
      (next
        (next (next (next here (leases none 10 refl)) (leases (some (pos 2)) 20 refl))
          (times_out (pos 0) refl))
        (fails (some (negsuc 0)) bad_timeout refl))
      (gives_back [] (20 ∷ []) 10 _ refl refl)

checkout-keeps_example :
    Perm (one_out.leased ++ one_out.pool.available.items) (10 ∷ 20 ∷ [])
    × (length one_out.leased + available_count one_out.pool ≡ 2)
    × All Succeeds one_out.given_back
    × All IsTimeout one_out.raised
checkout-keeps_example = checkout-keeps (10 ∷ 20 ∷ []) two one_out refl two-made to_one_out

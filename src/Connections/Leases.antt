-- ===== src/Connections/Leases.antt =====
-- connectionpool/pool.py: every connection is on lease or available, and giving back never fails.
use python_concurrency_examp.Prelude.{
  ◌+◌, ◌≡◌, refl, some, inl, inr, false, List, ◌++◌, All, length, Star, Star-keeps, is_empty,
}
use mathlib.Core.List.{Perm}
use python_concurrency_examp.Python.{ok, queue_empty}
use python_concurrency_examp.Connections.{ConnectionPool, create, available_count}
use python_concurrency_examp.Connections.System.{System, Step, leases, times_out, fails, gives_back}
use python_concurrency_examp.Connections.Invariant.{
  IsTimeout, Succeeds, Inv, fresh, create-Inv, leases-Inv, wait_changes_nothing,
  failure_changes_nothing, raises-Inv, gives_back-Inv,
}

module _ {T : Type 0} where
  Step-Inv :
      (connections : List T) (s t : System T) → Step s t → Inv connections s → Inv connections t
  Step-Inv connections s _ (leases {p} timeout c h) v = leases-Inv connections s p timeout c h v
  Step-Inv connections s _ (times_out {p} t h) v =
      raises-Inv connections s p queue_empty (wait_changes_nothing (some t) s.pool p h) (inl refl) v
  Step-Inv connections s _ (fails {p} timeout e h) v =
      let (same, bad) = failure_changes_nothing timeout s.pool p e h v.on in
      raises-Inv connections s p e same (inr bad) v
  Step-Inv connections s _ (gives_back {p} before after c r at h) v =
      gives_back-Inv connections s p before after c r at h v

  -- In every state that threads leasing from a pool of a non-empty list reach, with any timeouts, the
  -- connections on lease and the available ones are those of the list, each as often,
  -- `available_count` is what the leases leave, giving back a connection has never raised, and a
  -- checkout has raised nothing but the `Empty` of a timeout or the ValueError of a negative one.
  pub checkout-keeps :
      (connections : List T) (pool : ConnectionPool T) (s : System T)
      → is_empty connections ≡ false
      → create connections ≡ ok pool
      → Star Step (fresh pool) s
      → Perm (s.leased ++ s.pool.available.items) connections
        × (length s.leased + available_count s.pool ≡ length connections)
        × All Succeeds s.given_back
        × All IsTimeout s.raised
  unfolding available_count
  checkout-keeps connections pool s nonempty made run =
      let v =
        Star-keeps (Inv connections) (Step-Inv connections)
          (create-Inv connections pool nonempty made) run in
      (v.kept, v.counted, v.given_back, v.raised)

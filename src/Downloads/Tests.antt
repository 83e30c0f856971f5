-- ===== src/Downloads/Tests.antt =====
-- Two threads that call `run` of a pool with one slot.
use python_concurrency_examp.Prelude.{
  ◌≤◌, ℕ, ◌≡◌, refl, true, false, none, [], ◌∷◌, map, All, Star, here, next,
}
use python_concurrency_examp.Prelude.Int.{pos}
use python_concurrency_examp.Python.{Result, ok, err, value_error, app_error}
use python_concurrency_examp.Python.Semaphore.{
  release, asking, inside, left, client, call_of, System, start, Step, enters, leaves,
}
use python_concurrency_examp.Python.Semaphore.Clients.{active}
use python_concurrency_examp.Downloads.{DownloadPool, create, Call, run}
use python_concurrency_examp.Downloads.Slots.{HasResult, run-returns}

abbrev one_slot : DownloadPool
one_slot = record { slots = record { value = 1; limit = none } }

one_slot-made : create (pos 1) ≡ ok one_slot
unfolding create
one_slot-made = refl

abbrev good : Call ℕ
good = record { download_id = "report"; download = ok 7; timed = true }

abbrev bad : Call ℕ
bad = record { download_id = "ledger"; download = err (app_error 1); timed = false }

abbrev nameless : Call ℕ
nameless = record { download_id = ""; download = ok 1; timed = false }

-- `bad` has failed in its download, `good` is in its own.
abbrev second_in : System (Call ℕ) (Result ℕ)
second_in = record {
  semaphore = record { value = 0; limit = none };
  clients =
      client good inside
      ∷ client bad (left (err (app_error 1)))
      ∷ client nameless (left (err (value_error "download_id must not be empty")))
      ∷ [];
}

to_second_in : Star (Step run) (start run one_slot.slots (good ∷ bad ∷ nameless ∷ [])) second_in
unfolding run release
to_second_in =
    next
      (next (next here (enters (client good asking ∷ []) (client nameless _ ∷ []) bad _ refl refl))
        (leaves (client good asking ∷ []) (client nameless _ ∷ []) bad _ _ refl refl))
      (enters [] _ good _ refl refl)

run-returns_example :
    (active second_in ≤ 1)
    × ((t : System (Call ℕ) (Result ℕ)) × Star (Step run) second_in t
        × (map call_of t.clients ≡ good ∷ bad ∷ nameless ∷ [])
        × All HasResult t.clients
        × (t.semaphore.value ≡ 1))
run-returns_example =
    run-returns (pos 1) one_slot (good ∷ bad ∷ nameless ∷ []) second_in one_slot-made to_second_in

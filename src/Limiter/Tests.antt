-- ===== src/Limiter/Tests.antt =====
-- Two threads that lease the one permit of a limiter.
use python_concurrency_examp.Prelude.{
  ℕ, ◌≤◌, ◌≡◌, refl, true, false, some, [], ◌∷◌, arith, Star, here, next,
}
use python_concurrency_examp.Prelude.Int.{pos}
use python_concurrency_examp.Python.{Result, ok, err, app_error}
use python_concurrency_examp.Python.Semaphore.{
  release, asking, inside, client, System, start, Step, enters,
}
use python_concurrency_examp.Python.Semaphore.Clients.{active}
use python_concurrency_examp.Limiter.{ApiRateLimiter, create, Leased, acquire}
use python_concurrency_examp.Limiter.Permits.{release-allowed}

abbrev one_permit : ApiRateLimiter
one_permit = record { permits = record { value = 1; limit = some 1 } }

one_permit-made : create (pos 1) ≡ ok one_permit
unfolding create
one_permit-made = refl

abbrev failing : Leased ℕ
failing = record { body = err (app_error 1); timed = true }

abbrev patient : Leased ℕ
patient = record { body = ok 7; timed = false }

abbrev first_in : System (Leased ℕ) (Result ℕ)
first_in = record {
  semaphore = record { value = 0; limit = some 1 };
  clients = client failing inside ∷ client patient asking ∷ [];
}

to_first_in :
    Star (Step acquire) (start acquire one_permit.permits (failing ∷ patient ∷ [])) first_in
unfolding acquire
to_first_in = next here (enters [] (client patient asking ∷ []) failing _ refl refl)

release-allowed_example : (active first_in ≤ 1) × ((release first_in.semaphore).0 ≡ ok tt)
release-allowed_example =
    release-allowed (pos 1) one_permit (failing ∷ patient ∷ []) first_in one_permit-made to_first_in
      (omega arith)

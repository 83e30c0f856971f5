-- ===== src/Payment.antt =====
-- paymentwebhook/processor.py: webhook deliveries behind a lock. Each method body is one atomic
-- step, so what many workers do is a list of deliveries in the order in which they take the lock.
pub mod Idempotence
pub mod Totals
mod Tests
use python_concurrency_examp.Prelude.{
  ℕ, String, Bool, true, false, List, [], ◌∷◌, ◌==◌, if◌then◌else◌, length,
}
use python_concurrency_examp.Prelude.Int.{ℤ, pos, ◌+ℤ◌, leb_ℤ}
use python_concurrency_examp.Python.{value_error, Exec, pure, gets, raise_if, modify, ◌>>=◌, ◌>>◌}
use python_concurrency_examp.Python.StrSet.{StrSet, mem, add}

pub record PaymentSummary : Type 0 where
  pub processed_events : ℕ
  pub total_cents : ℤ

pub record PaymentWebhookProcessor : Type 0 where
  pub processed_event_ids : StrSet
  pub total_cents : ℤ

-- `__init__`
abbrev pub create : PaymentWebhookProcessor
create = record { processed_event_ids = []; total_cents = pos 0 }

pub process : String → ℤ → Exec PaymentWebhookProcessor Bool
process event_id amount_cents = do
  raise_if (event_id == "") (value_error "event_id must not be empty")
  raise_if (leb_ℤ amount_cents (pos 0)) (value_error "amount_cents must be greater than zero")
  seen ← gets (λ p. mem event_id p.processed_event_ids)
  if seen then pure false else do
    modify (λ p. record p {
      processed_event_ids = add event_id p.processed_event_ids;
      total_cents = p.total_cents +ℤ amount_cents;
    })
    pure true

pub summary : Exec PaymentWebhookProcessor PaymentSummary
summary =
    gets
      (λ p. record { processed_events = length p.processed_event_ids; total_cents = p.total_cents })

pub processed_event_ids : Exec PaymentWebhookProcessor StrSet
processed_event_ids = gets (λ p. p.processed_event_ids)

-- The deliveries of all workers: an event ID and an amount each.
abbrev pub Delivery : Type 0
Delivery = String × ℤ

pub run : List Delivery → PaymentWebhookProcessor → PaymentWebhookProcessor
run [] p = p
run ((event_id, amount_cents) ∷ ds) p = run ds (process event_id amount_cents p).1

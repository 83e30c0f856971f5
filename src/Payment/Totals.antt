-- ===== src/Payment/Totals.antt =====
-- The totals against an independent reading of the deliveries.
use python_concurrency_examp.Prelude.{
  suc, ◌+◌, ◌⊎◌, String, ◌≡◌, refl, ap, sym, subst, ◌∙◌, Bool, true, false, List, [], ◌∷◌, arith,
  ◌==◌, eq_iff, if◌then◌else◌, length, inl, inr,
}
use python_concurrency_examp.Prelude.Int.{ℤ, pos, ◌+ℤ◌, leb_ℤ, int_laws, +ℤ_assoc, add_zero_left}
use python_concurrency_examp.Python.{ok}
use python_concurrency_examp.Python.StrSet.{StrSet, mem, add, mem-add}
use python_concurrency_examp.Payment.{
  PaymentWebhookProcessor, create, process, summary, Delivery, run,
}

-- A delivery that passes the checks.
abbrev pub valid : Delivery → Bool
valid (k, a) = if k == "" then false else if leb_ℤ a (pos 0) then false else true

-- All deliveries but those of one event.
abbrev without : String → List Delivery → List Delivery
without k [] = []
without k ((j, a) ∷ ds) = if j == k then without k ds else (j, a) ∷ without k ds

-- The first valid delivery of each event, in the order of delivery.
abbrev pub firsts : List Delivery → List Delivery
firsts [] = []
firsts ((k, a) ∷ ds) = if valid (k, a) then (k, a) ∷ without k (firsts ds) else firsts ds

abbrev pub amounts : List Delivery → ℤ
amounts [] = pos 0
amounts ((k, a) ∷ ds) = a +ℤ amounts ds

-- The deliveries of events that a processor has not seen.
abbrev unseen : StrSet → List Delivery → List Delivery
unseen s [] = []
unseen s ((k, a) ∷ ds) = if mem k s then unseen s ds else (k, a) ∷ unseen s ds

unseen-add :
    (k : String) (s : StrSet) (ds : List Delivery) → unseen (add k s) ds ≡ unseen s (without k ds)
unseen-add k s [] = refl
unseen-add k s ((j, a) ∷ ds) =
    ground (arith, unseen-add k s ds, mem-add k j s, eq_iff k j, eq_iff j k)

unseen-without :
    (k : String) (s : StrSet) (ds : List Delivery)
    → mem k s ≡ true
    → unseen s (without k ds) ≡ unseen s ds
unseen-without k s [] h = refl
unseen-without k s ((j, a) ∷ ds) h = ground (arith, unseen-without k s ds h, eq_iff j k)

unseen-nil : (ds : List Delivery) → unseen [] ds ≡ ds
unfolding mem
unseen-nil [] = refl
unseen-nil (d ∷ ds) = ap (◌∷◌ d) (unseen-nil ds)

-- What one delivery does: it is not valid or was seen, or it is applied.
process-cases :
    (k : String) (a : ℤ) (p : PaymentWebhookProcessor)
    → ((process k a p).1 ≡ p) × ((valid (k, a) ≡ false) ⊎ (mem k p.processed_event_ids ≡ true))
      ⊎ (valid (k, a) ≡ true)
        × (mem k p.processed_event_ids ≡ false)
        × ((process k a p).1 ≡ record {
          processed_event_ids = add k p.processed_event_ids;
          total_cents = p.total_cents +ℤ a;
        })
unfolding process
process-cases k a p = ground arith

length-add : (k : String) (s : StrSet) → mem k s ≡ false → length (add k s) ≡ suc (length s)
unfolding add
length-add k s new = ground arith

abbrev Adds : List Delivery → PaymentWebhookProcessor → PaymentWebhookProcessor → Type 0
Adds ds p q =
    (q.total_cents ≡ p.total_cents +ℤ amounts ds)
    × (length q.processed_event_ids ≡ length p.processed_event_ids + length ds)

-- One delivery before the others, with the processor that it leaves.
head-Adds :
    (k : String) (a : ℤ) (ds : List Delivery) (p : PaymentWebhookProcessor)
    → ((q : PaymentWebhookProcessor) → Adds (unseen q.processed_event_ids (firsts ds)) q (run ds q))
    → Adds (unseen p.processed_event_ids (firsts ((k, a) ∷ ds))) p (run ds (process k a p).1)
head-Adds k a ds p ih = elim (process-cases k a p) [
  | inl (same, inl bad) ↦
      subst (λ q. Adds (unseen p.processed_event_ids (firsts ((k, a) ∷ ds))) p (run ds q))
        (sym same) (rw bad (ih p))
  | inl (same, inr seen) ↦
      subst (λ q. Adds (unseen p.processed_event_ids (firsts ((k, a) ∷ ds))) p (run ds q))
        (sym same) (ground (arith, ih p, unseen-without k p.processed_event_ids (firsts ds) seen))
  | inr (good, new, e) ↦
      let rest = unseen p.processed_event_ids (without k (firsts ds)) in
      let p' : PaymentWebhookProcessor = record {
        processed_event_ids = add k p.processed_event_ids;
        total_cents = p.total_cents +ℤ a;
      } in
      let later : Adds rest p' (run ds p') =
        rw (← unseen-add k p.processed_event_ids (firsts ds)) (ih p') in
      subst (λ q. Adds (unseen p.processed_event_ids (firsts ((k, a) ∷ ds))) p (run ds q)) (sym e)
        (rw (good, new)
          (
            later.0 ∙ +ℤ_assoc p.total_cents a (amounts rest),
            omega (arith, later.1, length-add k p.processed_event_ids new),
          ))
]

run-Adds :
    (ds : List Delivery) (p : PaymentWebhookProcessor)
    → Adds (unseen p.processed_event_ids (firsts ds)) p (run ds p)
unfolding run
run-Adds [] p = (omega int_laws, omega arith)
run-Adds ((k, a) ∷ ds) p = head-Adds k a ds p (run-Adds ds)

-- After any deliveries, in whatever order the workers take them, the summary counts and adds up
-- the first valid delivery of each event and nothing else.
pub run-summary :
    (ds : List Delivery)
    → (summary (run ds create)).0
      ≡ ok (record { processed_events = length (firsts ds); total_cents = amounts (firsts ds) })
unfolding summary
run-summary ds =
    let (total, count) = run-Adds ds create in
    let all = unseen-nil (firsts ds) in
    ground (
      arith,
      total,
      count,
      ap amounts all,
      ap length all,
      add_zero_left (amounts (firsts ds)),
      add_zero_left (amounts (unseen [] (firsts ds))),
    )

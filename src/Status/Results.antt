-- ===== src/Status/Results.antt =====
-- The results of the payments after any calls.
use python_concurrency_examp.Prelude.{
  String, ◌≡◌, ◌≢◌, refl, sym, ◌∙◌, subst, ◌⊎◌, inl, inr, true, false, Option, some, none, List, [],
  ◌∷◌, arith, if◌then◌else◌, ◌==◌, eq_iff, is_some, Option-cases, Bool-cases,
}
use python_concurrency_examp.Prelude.Int.{ℤ}
use python_concurrency_examp.Python.{ok}
use python_concurrency_examp.Python.Dict.{lookup, insert, lookup-insert}
use python_concurrency_examp.Status.{
  AsyncPaymentStatus, PaymentResult, PaymentState, PaymentOutcome, succeeded, failed, create,
  pending, complete, found_state, state_for, mark_succeeded, mark_failed, result_for, found_result,
  begin_wait, negative, Call, succeeds, fails, waits, reads, step, run,
}

-- The result of a payment, if it has one.
abbrev pub known : String → AsyncPaymentStatus → Option PaymentResult
known k s = elim (lookup k s.states) [ none ↦ none | some st ↦ st.result ]

-- The state object of payment `k`: its event is set when it has a result, which names the payment.
abbrev pub IsSettled : String → PaymentState → Type 0
IsSettled k st =
    (st.event ≡ is_some st.result) × ((r : PaymentResult) → st.result ≡ some r → r.payment_id ≡ k)

abbrev pub IsSound : AsyncPaymentStatus → Type 0
IsSound s = (k : String) (st : PaymentState) → lookup k s.states ≡ some st → IsSettled k st

-- A call leaves every state object alone, or gives a payment without a result another state.
abbrev Moves : AsyncPaymentStatus → AsyncPaymentStatus → Type 0
Moves s t =
    ((j : String) → lookup j t.states ≡ lookup j s.states)
    ⊎ ((k : String) × (st : PaymentState) × (known k s ≡ none)
        × IsSettled k st
        × ((j : String) → lookup j t.states ≡ (if k == j then some st else lookup j s.states)))

done : String → PaymentOutcome → Option String → PaymentState
done k o r = record {
  event = true;
  result = some (record { payment_id = k; outcome = o; reason = r });
}

completed :
    (k : String) (r : PaymentResult) (s : AsyncPaymentStatus)
    → r.payment_id ≡ k
    → known k s ≡ none
    → Moves s (complete k r s)
completed k r s named free = inr (
  k,
  record { event = true; result = some r },
  free,
  (refl, λ q e. cc),
  λ j. lookup-insert k j _ s.states,
)

opened :
    (k : String) (s : AsyncPaymentStatus)
    → lookup k s.states ≡ none
    → Moves s (record s { states = insert k pending s.states })
opened k s free =
    inr (k, pending, ground arith, (refl, λ q e. cc), λ j. lookup-insert k j _ s.states)

-- The completion of a payment that has just got its state object.
completed_new :
    (k : String) (r : PaymentResult) (s : AsyncPaymentStatus)
    → r.payment_id ≡ k
    → known k s ≡ none
    → Moves s (complete k r (record s { states = insert k pending s.states }))
completed_new k r s named free = inr (
  k,
  record { event = true; result = some r },
  free,
  (refl, λ q e. cc),
  λ j. ground (
    arith,
    lookup-insert k j (record { event = true; result = some r }) (insert k pending s.states),
    lookup-insert k j pending s.states,
  ),
)

-- What both `mark_` methods do with a valid payment ID.
marked-Moves :
    (k : String) (r : PaymentResult) (s t : AsyncPaymentStatus)
    → r.payment_id ≡ k
    → (lookup k s.states ≡ none
        → t ≡ complete k r (record s { states = insert k pending s.states }))
    → ((st : PaymentState) → lookup k s.states ≡ some st → st.result ≡ none → t ≡ complete k r s)
    → ((st : PaymentState) → lookup k s.states ≡ some st → is_some st.result ≡ true → t ≡ s)
    → Moves s t
marked-Moves k r s t named new waiting kept = elim (Option-cases (lookup k s.states)) [
  | inl free ↦ subst (Moves s) (sym (new free)) (completed_new k r s named (ground arith))
  | inr (st, e) ↦ elim (Option-cases st.result) [
    | inl free ↦ subst (Moves s) (sym (waiting st e free)) (completed k r s named (ground arith))
    | inr (q, e') ↦ subst (Moves s) (sym (kept st e (ground arith))) (inl (λ j. refl))
  ]
]

mark_succeeded-Moves : (k : String) (s : AsyncPaymentStatus) → Moves s (mark_succeeded k s).1
unfolding mark_succeeded state_for found_state
mark_succeeded-Moves k s = elim (Bool-cases (k == "")) [
  | inl empty ↦ inl (λ j. ground arith)
  | inr named ↦
      marked-Moves k (record { payment_id = k; outcome = succeeded; reason = none }) s
        (mark_succeeded k s).1 refl (λ free. ground arith) (λ st e free. ground arith)
        (λ st e free. ground arith)
]

mark_failed-Moves :
    (k reason : String) (s : AsyncPaymentStatus) → Moves s (mark_failed k reason s).1
unfolding mark_failed state_for found_state
mark_failed-Moves k reason s = elim (Bool-cases (k == "")) [
  | inl empty ↦ inl (λ j. ground arith)
  | inr named ↦ elim (Bool-cases (reason == "")) [
    | inl empty ↦ inl (λ j. ground arith)
    | inr given ↦
        marked-Moves k (record { payment_id = k; outcome = failed; reason = some reason }) s
          (mark_failed k reason s).1 refl (λ free. ground arith) (λ st e free. ground arith)
          (λ st e free. ground arith)
  ]
]

pub begin_wait-Moves :
    (k : String) (t : Option ℤ) (s : AsyncPaymentStatus) → Moves s (begin_wait k t s).1
unfolding begin_wait state_for found_state
begin_wait-Moves k t s = elim (Bool-cases (k == "")) [
  | inl empty ↦ inl (λ j. ground arith)
  | inr named ↦ elim (Bool-cases (negative t)) [
    | inl below ↦ inl (λ j. ground arith)
    | inr valid ↦ elim (Option-cases (lookup k s.states)) [
      | inl free ↦ subst (Moves s) (ground arith) (opened k s free)
      | inr (st, e) ↦ inl (λ j. ground arith)
    ]
  ]
]

pub step-Moves : (c : Call) (s : AsyncPaymentStatus) → Moves s (step c s)
unfolding step result_for
step-Moves (succeeds k) s = mark_succeeded-Moves k s
step-Moves (fails k reason) s = mark_failed-Moves k reason s
step-Moves (waits k) s = begin_wait-Moves k none s
step-Moves (reads k) s = inl (λ j. ground arith)

pub Moves-IsSound : (s t : AsyncPaymentStatus) → Moves s t → IsSound s → IsSound t
Moves-IsSound s t (inl same) h k st e = h k st (sym (same k) ∙ e)
Moves-IsSound s t (inr (k, st, free, good, new)) h j st' e = elim (Bool-cases (k == j)) [
  | inl hit ↦
      let at_k : k ≡ j = (eq_iff k j).0 hit in
      let same : st ≡ st' = ground (arith, new j) in
      subst (λ q. IsSettled j q) same (subst (λ i. IsSettled i st) at_k good)
  | inr miss ↦ h j st' (ground (arith, new j))
]

-- A payment keeps its result.
pub Moves-known :
    (s t : AsyncPaymentStatus) (j : String) (r : PaymentResult)
    → Moves s t
    → known j s ≡ some r
    → known j t ≡ some r
Moves-known s t j r (inl same) e = ground (arith, same j)
Moves-known s t j r (inr (k, st, free, good, new)) e = elim (Bool-cases (k == j)) [
  | inl hit ↦ let at_k : k ≡ j = (eq_iff k j).0 hit in absurd (cc)
  | inr miss ↦ ground (arith, new j)
]

run-IsSound : (cs : List Call) (s : AsyncPaymentStatus) → IsSound s → IsSound (run cs s)
unfolding run
run-IsSound [] s h = h
run-IsSound (c ∷ cs) s h = run-IsSound cs (step c s) (Moves-IsSound s (step c s) (step-Moves c s) h)

pub run-known :
    (cs : List Call) (s : AsyncPaymentStatus) (k : String) (r : PaymentResult)
    → known k s ≡ some r
    → known k (run cs s) ≡ some r
unfolding run
run-known [] s k r e = e
run-known (c ∷ cs) s k r e =
    run-known cs (step c s) k r (Moves-known s (step c s) k r (step-Moves c s) e)

-- After any calls on a new tracker, the event of a payment is set exactly when the payment has a
-- result, and that result names the payment.
pub create-run-IsSound : (cs : List Call) → IsSound (run cs create)
unfolding lookup
create-run-IsSound cs = run-IsSound cs create (λ k st e. cc)

pub result_for-known :
    (k : String) (s : AsyncPaymentStatus) (r : PaymentResult)
    → (result_for k s).0 ≡ ok (some r)
    → (k == "" ≡ false) × (known k s ≡ some r)
unfolding result_for found_result
result_for-known k s r e = (ground arith, ground arith)

pub known-result_for :
    (k : String) (s : AsyncPaymentStatus) (r : PaymentResult)
    → k == "" ≡ false
    → known k s ≡ some r
    → (result_for k s).0 ≡ ok (some r)
unfolding result_for found_result
known-result_for k s r named e = ground arith

-- Once a payment has a result, it keeps this result whatever is called, and every later call of
-- `mark_succeeded`, or of `mark_failed` with a reason, for it returns False and changes nothing.
result_for-first :
    (k reason : String) (r : PaymentResult) (cs : List Call) (s : AsyncPaymentStatus)
    → (result_for k s).0 ≡ ok (some r)
    → reason ≢ ""
    → ((result_for k (run cs s)).0 ≡ ok (some r))
      × (mark_succeeded k (run cs s) ≡ (ok false, run cs s))
      × (mark_failed k reason (run cs s) ≡ (ok false, run cs s))
unfolding mark_succeeded mark_failed state_for found_state
result_for-first k reason r cs s e given =
    let (named, here) = result_for-known k s r e in
    let later = run-known cs s k r here in
    (known-result_for k (run cs s) r named later, ground arith, ground (arith, eq_iff reason ""))

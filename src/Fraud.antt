-- ===== src/Fraud.antt =====
-- fraudscorebatch/scoring.py: the risk score of a transaction, and the batch in input order.
pub mod Score
pub mod Batch
mod Tests
use python_concurrency_examp.Prelude.{
  ℕ, ◌/◌, String, Bool, true, false, not, ◌||◌, Option, none, some, List, [], ◌∷◌, ◌==◌,
  if◌then◌else◌, is_empty, length, nat_eq,
}
use python_concurrency_examp.Prelude.Int.{ℤ, pos, negsuc, ◌+ℤ◌, ◌*ℤ◌, ltb_ℤ, leb_ℤ}
use python_concurrency_examp.Python.{Result, ok, err, value_error, check}
use python_concurrency_examp.Python.StrSet.{StrSet, mem}
use python_concurrency_examp.Python.Text.{codes}

pub data FraudDecision : Type 0 where
  approve review decline : FraudDecision

abbrev pub low_risk_countries : StrSet
low_risk_countries = "CA" ∷ "GB" ∷ "US" ∷ []

pub record Transaction : Type 0 where
  pub transaction_id : String
  pub amount_cents : ℤ
  pub country : String
  pub previous_chargebacks : ℤ
  pub account_age_days : ℤ

-- `__post_init__`: a Transaction exists only if these checks pass
pub create_transaction : Transaction → Result Transaction
create_transaction t =
    check (t.transaction_id == "") (value_error "transaction_id must not be empty") (
      check (ltb_ℤ t.amount_cents (pos 0)) (value_error "amount_cents must not be negative") (
        check (t.country == "") (value_error "country must not be empty") (
          check (ltb_ℤ t.previous_chargebacks (pos 0))
            (value_error "previous_chargebacks must not be negative")
            (check (ltb_ℤ t.account_age_days (pos 0))
              (value_error "account_age_days must not be negative") (ok t)))))

pub record FraudScore : Type 0 where
  pub transaction_id : String
  pub score : ℤ
  pub decision : FraudDecision

-- What `_validate_country_code` asks of Python's Unicode tables: `str.isalpha` and `str.upper`.
pub record Unicode : Type 0 where
  pub is_alpha : String → Bool
  pub upper : String → String

-- `n // d` for a positive `d`: the floor, also below zero
floor_div : ℤ → ℕ → ℤ
floor_div (ℤ.pos n) d = pos (n / d)
floor_div (ℤ.negsuc n) d = negsuc (n / d)

-- `min(a, b)`
min_ℤ : ℤ → ℤ → ℤ
min_ℤ a b = if ltb_ℤ b a then b else a

-- `_decision_for`
pub decision_for : ℤ → FraudDecision
decision_for score =
    if leb_ℤ (pos 70) score then decline else if leb_ℤ (pos 40) score then review else approve

-- The statements of `score_transaction` that add up the score, over the amount, the chargebacks
-- and the two tests.
score_of : ℤ → ℤ → Bool → Bool → ℤ
score_of amount_cents previous_chargebacks is_low_risk is_young =
    let by_amount = min_ℤ (floor_div amount_cents 10000) (pos 35) in
    let with_chargebacks = by_amount +ℤ min_ℤ (previous_chargebacks *ℤ pos 25) (pos 50) in
    let with_country = if not is_low_risk then with_chargebacks +ℤ pos 20 else with_chargebacks in
    let with_age = if is_young then with_country +ℤ pos 15 else with_country in
    min_ℤ with_age (pos 100)

pub risk_score : Transaction → ℤ
risk_score t =
    score_of t.amount_cents t.previous_chargebacks (mem t.country low_risk_countries)
      (ltb_ℤ t.account_age_days (pos 30))

module _ (u : Unicode) where
  -- the test on which `_validate_country_code` raises
  pub bad_country_code : String → Bool
  bad_country_code country =
      not (nat_eq (length (codes country)) 2)
      || not (u.is_alpha country)
      || not (country == u.upper country)

  pub score_transaction : Transaction → Result FraudScore
  unfolding bad_country_code
  score_transaction t =
      check (bad_country_code t.country)
        (value_error "country must be a two-letter uppercase country code")
        (ok (record {
          transaction_id = t.transaction_id;
          score = risk_score t;
          decision = decision_for (risk_score t);
        }))

  -- `tuple(executor.map(score_transaction, batch))`: results in input order; the first exception
  -- in that order is raised
  map_scores : List Transaction → Result (List FraudScore)
  map_scores [] = ok []
  map_scores (t ∷ ts) =
      let rest = map_scores ts in
      elim (score_transaction t) [
        | err e ↦ err e
        | ok s ↦ elim rest [ err e ↦ err e | ok ss ↦ ok (s ∷ ss) ]
      ]

  pub score_all : List Transaction → Result (List FraudScore)
  unfolding map_scores
  score_all transactions =
      check (is_empty transactions) (value_error "transactions must not be empty")
        (map_scores transactions)

-- `FraudScoreBatch.__init__`
pub create : Option ℤ → Result (Option ℤ)
create none = ok none
create (some max_workers) =
    check (leb_ℤ max_workers (pos 0)) (value_error "max_workers must be greater than zero")
      (ok (some max_workers))

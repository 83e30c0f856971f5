-- ===== src/Fraud/Tests.antt =====
-- Scores of concrete transactions, and the theorems at inputs that meet their hypotheses.
use python_concurrency_examp.Prelude.{◌≡◌, refl, ◌↔◌, [], ◌∷◌, arith, ◌==◌, if◌then◌else◌}
use python_concurrency_examp.Prelude.Int.{pos, ◌+ℤ◌, ◌*ℤ◌, ◌≤ℤ◌, ◌<ℤ◌}
use python_concurrency_examp.Python.{ok}
use python_concurrency_examp.Python.StrSet.{mem}
use python_concurrency_examp.Fraud.{
  Unicode, Transaction, approve, decline, floor_div, min_ℤ, create_transaction, decision_for,
  score_of, risk_score,
}
use python_concurrency_examp.Fraud.Score.{IsValid, risk_score_bounds}

-- Stand-ins for the Unicode tables that know four country codes.
abbrev letters : Unicode
letters = record {
  is_alpha = λ s. mem s ("US" ∷ "FR" ∷ "us" ∷ []);
  upper = λ s. if s == "us" then "US" else s;
}

abbrev regular : Transaction
regular = record {
  transaction_id = "t1";
  amount_cents = pos 123456;
  country = "US";
  previous_chargebacks = pos 0;
  account_age_days = pos 400;
}

abbrev risky : Transaction
risky = record {
  transaction_id = "t2";
  amount_cents = pos 990000;
  country = "US";
  previous_chargebacks = pos 3;
  account_age_days = pos 2;
}

risky_score : (risk_score risky ≡ pos 100) × (decision_for (risk_score risky) ≡ decline)
unfolding risk_score decision_for score_of floor_div min_ℤ mem ◌+ℤ◌ ◌*ℤ◌
risky_score = (refl, refl)

regular_made : create_transaction regular ≡ ok regular
unfolding create_transaction
regular_made = refl

regular-IsValid : IsValid regular
regular-IsValid = omega arith

risky-IsValid : IsValid risky
risky-IsValid = omega arith

risk_score_bounds_example :
    (pos 0 ≤ℤ risk_score regular)
    × (risk_score regular ≤ℤ pos 100)
    × ((decision_for (risk_score regular) ≡ decline) ↔ (pos 70 ≤ℤ risk_score regular))
    × ((decision_for (risk_score regular) ≡ approve) ↔ (risk_score regular <ℤ pos 40))
risk_score_bounds_example = risk_score_bounds regular regular regular_made

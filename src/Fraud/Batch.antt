-- ===== src/Fraud/Batch.antt =====
-- The batch in the process pool, against scoring the transactions one after another.
use python_concurrency_examp.Prelude.{
  ◌≡◌, refl, Bool, false, List, [], ◌∷◌, map, any, is_empty, arith, if◌then◌else◌,
}
use python_concurrency_examp.Python.{ok, err, value_error}
use python_concurrency_examp.Fraud.{
  Unicode, Transaction, FraudScore, decision_for, risk_score, bad_country_code, score_transaction,
  map_scores, score_all,
}

-- The score of a transaction whose country code is accepted.
abbrev pub scored : Transaction → FraudScore
scored t = record {
  transaction_id = t.transaction_id;
  score = risk_score t;
  decision = decision_for (risk_score t);
}

module _ (u : Unicode) where
  abbrev pub refused : Transaction → Bool
  refused t = bad_country_code u t.country

  map_scores_lem :
      (ts : List Transaction)
      → map_scores u ts ≡ (
          if any refused ts
          then err (value_error "country must be a two-letter uppercase country code")
          else ok (map scored ts))
  unfolding map_scores score_transaction
  map_scores_lem [] = refl
  map_scores_lem (t ∷ ts) = ground (arith, map_scores_lem ts)

  -- A batch that is not empty is scored in input order, one score for each transaction, if every
  -- country code is accepted; a single bad code fails the whole batch with its ValueError.
  score_all_lem :
      (ts : List Transaction)
      → is_empty ts ≡ false
      → score_all u ts ≡ (
          if any refused ts
          then err (value_error "country must be a two-letter uppercase country code")
          else ok (map scored ts))
  unfolding score_all
  score_all_lem ts some_there = ground (arith, map_scores_lem ts)

-- ===== src/Fraud/Score.antt =====
-- The range of the score, what raises it, and the decision that it leads to.
use python_concurrency_examp.Prelude.{
  ℕ, ◌≤◌, ◌*◌, ◌≡◌, refl, ◌↔◌, Bool, true, false, arith, if◌then◌else◌, ◌/◌, ◌+◌, min, ap, ◌∙◌,
}
use mathlib.Core.Path.{ap₂}
use mathlib.Core.Bool.{false≢true}
use python_concurrency_examp.Prelude.Int.{ℤ, pos, pos_part, ◌+ℤ◌, ◌*ℤ◌, ◌≤ℤ◌, ◌<ℤ◌, ltb_ℤ, int_laws}
use python_concurrency_examp.Python.{ok}
use python_concurrency_examp.Python.StrSet.{mem}
use python_concurrency_examp.Fraud.{
  approve, decline, low_risk_countries, Transaction, create_transaction, floor_div, min_ℤ,
  decision_for, score_of, risk_score,
}

-- What `__post_init__` guarantees of the numbers.
pub record IsValid (t : Transaction) : Type 0 where
  pub amount : pos 0 ≤ℤ t.amount_cents
  pub chargebacks : pos 0 ≤ℤ t.previous_chargebacks
  pub age : pos 0 ≤ℤ t.account_age_days

pub create_transaction-IsValid :
    (t t' : Transaction) → create_transaction t ≡ ok t' → (t' ≡ t) × IsValid t
unfolding create_transaction
create_transaction-IsValid t t' h =
    (ground arith, record { amount = ground arith; chargebacks = ground arith; age = ground arith })

pos-eq : (a : ℤ) → pos 0 ≤ℤ a → a ≡ pos (pos_part a)
pos-eq a h = ground arith

floor_div-pos : (n d : ℕ) → floor_div (pos n) d ≡ pos (n / d)
unfolding floor_div
floor_div-pos n d = refl

min_ℤ-pos : (a b : ℕ) → min_ℤ (pos a) (pos b) ≡ pos (min a b)
unfolding min_ℤ
min_ℤ-pos a b = ground arith

+ℤ-pos : (a b : ℕ) → pos a +ℤ pos b ≡ pos (a + b)
+ℤ-pos a b = omega int_laws

*ℤ-pos : (a b : ℕ) → pos a *ℤ pos b ≡ pos (a * b)
unfolding ◌*ℤ◌
*ℤ-pos a b = ground arith

ruleset pos_laws = (floor_div-pos, min_ℤ-pos, +ℤ-pos, *ℤ-pos)

-- The points of a transaction as natural numbers, item by item.
abbrev pub points : ℕ → ℕ → Bool → Bool → ℕ
points cents chargebacks known young =
    min
      (min (cents / 10000) 35
        + min (chargebacks * 25) 50
        + (if known then 0 else 20)
        + (if young then 15 else 0))
      100

abbrev pub is_known : Transaction → Bool
is_known t = mem t.country low_risk_countries

abbrev pub is_young : Transaction → Bool
is_young t = ltb_ℤ t.account_age_days (pos 30)

score_of-pos :
    (a c : ℕ) (known young : Bool)
    → score_of (pos a) (pos c) known young ≡ pos (points a c known young)
unfolding score_of
score_of-pos a c true true = simp pos_laws (ap pos (omega arith))
score_of-pos a c true false = simp pos_laws (ap pos (omega arith))
score_of-pos a c false true = simp pos_laws (ap pos (omega arith))
score_of-pos a c false false = simp pos_laws (ap pos (omega arith))

-- The score of a valid transaction, as its points.
risk_score_lem :
    (t : Transaction)
    → IsValid t
    → risk_score t
      ≡ pos (
          points
            (pos_part t.amount_cents)
            (pos_part t.previous_chargebacks)
            (is_known t)
            (is_young t))
unfolding risk_score
risk_score_lem t v =
    ap₂ (λ a c. score_of a c (is_known t) (is_young t)) (pos-eq t.amount_cents v.amount)
      (pos-eq t.previous_chargebacks v.chargebacks)
    ∙ score_of-pos (pos_part t.amount_cents) (pos_part t.previous_chargebacks) (is_known t)
        (is_young t)

-- The score of a transaction that passes its checks is between 0 and 100, and the decision is
-- decline from 70 on, review from 40 on, and approve below.
pub risk_score_bounds :
    (t t' : Transaction)
    → create_transaction t ≡ ok t'
    → (pos 0 ≤ℤ risk_score t')
      × (risk_score t' ≤ℤ pos 100)
      × ((decision_for (risk_score t') ≡ decline) ↔ (pos 70 ≤ℤ risk_score t'))
      × ((decision_for (risk_score t') ≡ approve) ↔ (risk_score t' <ℤ pos 40))
unfolding decision_for
risk_score_bounds t t' made =
    let (same, v) = create_transaction-IsValid t t' made in
    let e = ap risk_score same ∙ risk_score_lem t v in
    rw e (omega arith, omega arith, ground arith, ground arith)

pos_part_mono : (a b : ℤ) → pos 0 ≤ℤ a → a ≤ℤ b → pos_part a ≤ pos_part b
pos_part_mono a b h k = ground arith

points_mono :
    (a b c d : ℕ) (known young young' : Bool)
    → a ≤ b
    → c ≤ d
    → (young ≡ true → young' ≡ true)
    → points a c known young ≤ points b d known young'
points_mono a b c d true true true h k y = omega arith
points_mono a b c d true true false h k y = absurd (false≢true (y refl))
points_mono a b c d true false true h k y = omega arith
points_mono a b c d true false false h k y = omega arith
points_mono a b c d false true true h k y = omega arith
points_mono a b c d false true false h k y = absurd (false≢true (y refl))
points_mono a b c d false false true h k y = omega arith
points_mono a b c d false false false h k y = omega arith

points_clean : (a : ℕ) → points a 0 true false ≤ 35
points_clean a = omega arith

-- Scores do not fall when the amount or the chargebacks grow or the account gets younger, for
-- customers of one country.
risk_score_mono :
    (t u : Transaction)
    → IsValid t
    → IsValid u
    → t.country ≡ u.country
    → t.amount_cents ≤ℤ u.amount_cents
    → t.previous_chargebacks ≤ℤ u.previous_chargebacks
    → u.account_age_days ≤ℤ t.account_age_days
    → risk_score t ≤ℤ risk_score u
risk_score_mono t u v w country amount chargebacks age =
    let same_known : is_known t ≡ is_known u = ap (λ c. mem c low_risk_countries) country in
    let e =
      risk_score_lem t v
      ∙ ap
          (λ k.
            pos (points (pos_part t.amount_cents) (pos_part t.previous_chargebacks) k (is_young t)))
          same_known in
    rw (e, risk_score_lem u w)
      (omega (
        arith,
        points_mono (pos_part t.amount_cents) (pos_part u.amount_cents)
            (pos_part t.previous_chargebacks) (pos_part u.previous_chargebacks) (is_known u)
            (is_young t) (is_young u) (pos_part_mono _ _ v.amount amount)
            (pos_part_mono _ _ v.chargebacks chargebacks) (λ y. ground arith),
      ))

-- A customer of a low-risk country with no chargebacks and an account of thirty days or more is
-- approved, whatever the amount.
established-approve :
    (t : Transaction)
    → IsValid t
    → mem t.country low_risk_countries ≡ true
    → t.previous_chargebacks ≡ pos 0
    → pos 30 ≤ℤ t.account_age_days
    → decision_for (risk_score t) ≡ approve
unfolding decision_for
established-approve t v known clean old =
    let young : is_young t ≡ false = ground arith in
    let e =
      risk_score_lem t v
      ∙ ap pos
          (ap₂ (points (pos_part t.amount_cents) (pos_part t.previous_chargebacks)) known young)
      ∙ ap (λ c. pos (points (pos_part t.amount_cents) (pos_part c) true false)) clean in
    rw e (ground (arith, points_clean (pos_part t.amount_cents)))

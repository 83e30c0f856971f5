-- ===== src/Inventory/Conservation.antt =====
-- What any interleaving of callers does to the stock.
use python_concurrency_examp.Prelude.{
  String, ◌≡◌, ap, ◌∙◌, inl, inr, Bool, true, false, some, List, [], ◌∷◌, arith, ◌==◌, eq_iff,
  if◌then◌else◌, Option-cases, any,
}
use python_concurrency_examp.Prelude.Int.{
  ℤ, pos, ◌+ℤ◌, ◌-ℤ◌, ◌≤ℤ◌, ltb_ℤ, int_laws, sub_zero, -ℤ_parts,
}
use python_concurrency_examp.Python.{Result, ok, err}
use python_concurrency_examp.Python.Dict.{Dict, lookup, lookup-insert, values}
use python_concurrency_examp.Inventory.{
  InventoryReservation, create, reserve, available, snapshot, stock_for, Call, reserves, reads,
  snapshots, step, run,
}

abbrev granted_by : Result Bool → ℤ → ℤ
granted_by (ok true) q = q
granted_by (ok false) q = pos 0
granted_by (err e) q = pos 0

-- What one call grants of product `p`, as its caller sees it: the quantity if it returned True.
abbrev taken : String → Call → InventoryReservation → ℤ
taken p (reserves j q) s = if j == p then granted_by (reserve j q s).0 q else pos 0
taken p (reads j) s = pos 0
taken p snapshots s = pos 0

-- The sum of all quantities of `p` that a history of calls was granted.
abbrev pub granted : String → List Call → InventoryReservation → ℤ
granted p [] s = pos 0
granted p (c ∷ cs) s = taken p c s +ℤ granted p cs (step c s)

module _ (p : String) (v : ℤ) where
  -- One reservation, of `p` or of another product.
  reserve-taken :
      (j : String) (q : ℤ) (s : InventoryReservation)
      → lookup p s.stock ≡ some v
      → pos 0 ≤ℤ v
      → (lookup p (reserve j q s).1.stock ≡ some (v -ℤ taken p (reserves j q) s))
        × (pos 0 ≤ℤ (v -ℤ taken p (reserves j q) s))
  unfolding reserve
  reserve-taken j q s found nonneg = elim (Option-cases (lookup j s.stock)) [
    | inl unknown ↦ ground (arith, sub_zero v, eq_iff j p)
    | inr (w, e) ↦
        ground (arith, sub_zero v, eq_iff j p, lookup-insert j p (w -ℤ q) s.stock, -ℤ_parts v q)
  ]

  step-taken :
      (c : Call) (s : InventoryReservation)
      → lookup p s.stock ≡ some v
      → pos 0 ≤ℤ v
      → (lookup p (step c s).stock ≡ some (v -ℤ taken p c s)) × (pos 0 ≤ℤ (v -ℤ taken p c s))
  unfolding step available stock_for snapshot
  step-taken (reserves j q) s found nonneg = reserve-taken j q s found nonneg
  step-taken (reads j) s found nonneg = ground (arith, sub_zero v)
  step-taken snapshots s found nonneg = ground (arith, sub_zero v)

-- However many callers reserve, in whatever order, the stock of a product is what it was less
-- what they were granted, and it never drops below zero.
pub run-conserves :
    (p : String) (v : ℤ) (cs : List Call) (s : InventoryReservation)
    → lookup p s.stock ≡ some v
    → pos 0 ≤ℤ v
    → (lookup p (run cs s).stock ≡ some (v -ℤ granted p cs s)) × (granted p cs s ≤ℤ v)
unfolding run
run-conserves p v [] s found nonneg = ground (arith, sub_zero v)
run-conserves p v (c ∷ cs) s found nonneg =
    let (found', nonneg') = step-taken p v c s found nonneg in
    let w = v -ℤ taken p c s in
    let (rest, bound) = run-conserves p w cs (step c s) found' nonneg' in
    (rest ∙ ap some (omega int_laws), omega int_laws)

-- The checks of the constructor: every stock count that it accepts is zero or more.
values-nonneg :
    (p : String) (v : ℤ) (d : Dict ℤ)
    → any (λ q. ltb_ℤ q (pos 0)) (values d) ≡ false
    → lookup p d ≡ some v
    → pos 0 ≤ℤ v
unfolding lookup
values-nonneg p v [] h e = cc
values-nonneg p v ((j, w) ∷ d) h e = ground (arith, values-nonneg p v d)

create-nonneg :
    (p : String) (v : ℤ) (d : Dict ℤ) (s : InventoryReservation)
    → create d ≡ ok s
    → lookup p d ≡ some v
    → (pos 0 ≤ℤ v) × (lookup p s.stock ≡ some v)
unfolding create
create-nonneg p v d s h e = ground (arith, values-nonneg p v d)

-- From a created inventory, after any calls by any callers: the stock of a product is what it was
-- given less what was granted of it, and no more was granted than it was given.
pub create-run-conserves :
    (p : String) (v : ℤ) (d : Dict ℤ) (s : InventoryReservation) (cs : List Call)
    → create d ≡ ok s
    → lookup p d ≡ some v
    → (lookup p (run cs s).stock ≡ some (v -ℤ granted p cs s)) × (granted p cs s ≤ℤ v)
create-run-conserves p v d s cs made given =
    let (nonneg, found) = create-nonneg p v d s made given in run-conserves p v cs s found nonneg

-- ===== src/Inventory/Stock.antt =====
-- What one reservation does to the stock.
use python_concurrency_examp.Prelude.{
  String, ◌≡◌, ◌≢◌, ◌↔◌, inl, inr, true, false, some, arith, ◌==◌, if◌then◌else◌, Option-cases,
}
use python_concurrency_examp.Prelude.Int.{ℤ, pos, ◌-ℤ◌, ◌≤ℤ◌, ◌<ℤ◌}
use python_concurrency_examp.Python.{ok}
use python_concurrency_examp.Python.Dict.{lookup, lookup-insert}
use python_concurrency_examp.Inventory.{InventoryReservation, reserve}

-- The condition under which a reservation is granted.
abbrev pub Granted : String → ℤ → InventoryReservation → Type 0
Granted p q s =
    (pos 0 <ℤ q) × ((p == "") ≡ false) × (v : ℤ) × (lookup p s.stock ≡ some v) × (q ≤ℤ v)

-- A reservation is granted only if there is enough stock, and then lowers that stock alone.
pub reserve_granted :
    (p j : String) (q : ℤ) (s : InventoryReservation)
    → (reserve p q s).0 ≡ ok true
    → (v : ℤ) × (lookup p s.stock ≡ some v)
      × (pos 0 <ℤ q)
      × (q ≤ℤ v)
      × (lookup j (reserve p q s).1.stock ≡ (if p == j then some (v -ℤ q) else lookup j s.stock))
unfolding reserve
reserve_granted p j q s h = elim (Option-cases (lookup p s.stock)) [
  | inl none_there ↦ absurd (ground arith)
  | inr (v, e) ↦
      (v, e, ground arith, ground arith, ground (arith, lookup-insert p j (v -ℤ q) s.stock))
]

-- Any other outcome leaves the inventory as it was.
pub reserve_refused :
    (p : String) (q : ℤ) (s : InventoryReservation)
    → (reserve p q s).0 ≢ ok true
    → (reserve p q s).1 ≡ s
unfolding reserve
reserve_refused p q s h = ground arith

reserve_complete :
    (p : String) (q : ℤ) (s : InventoryReservation) → Granted p q s → (reserve p q s).0 ≡ ok true
unfolding reserve
reserve_complete p q s (positive, named, v, found, enough) = ground arith

-- The name was given: an empty product ID is refused before the stock is looked up.
reserve_named :
    (p : String) (q : ℤ) (s : InventoryReservation)
    → (reserve p q s).0 ≡ ok true
    → (p == "") ≡ false
unfolding reserve
reserve_named p q s h = ground arith

-- `reserve` returns True exactly when the quantity is positive, the product ID is not empty and
-- known, and at least that much is in stock.
reserve-true_iff :
    (p : String) (q : ℤ) (s : InventoryReservation) → ((reserve p q s).0 ≡ ok true) ↔ Granted p q s
reserve-true_iff p q s = (
  λ h.
      (let (v, found, positive, enough, _) = reserve_granted p p q s h in
        (positive, reserve_named p q s h, v, found, enough)),
  reserve_complete p q s,
)

-- ===== src/Inventory.antt =====
-- inventoryreservation/inventory.py: stock counts behind a lock. Each method body is one atomic
-- step, so what many threads do is a list of calls in the order in which they take the lock.
mod Stock
pub mod Conservation
mod Tests
use python_concurrency_examp.Prelude.{
  String, Bool, true, false, List, [], ◌∷◌, ◌==◌, if◌then◌else◌, any, is_empty,
}
use python_concurrency_examp.Prelude.Int.{ℤ, pos, ◌+ℤ◌, ◌-ℤ◌, ltb_ℤ, leb_ℤ}
use python_concurrency_examp.Python.{
  Result, ok, err, value_error, unknown_product_error, Exec, pure, gets, or_raise, raise_if, modify,
  ◌>>=◌, ◌>>◌, check,
}
use python_concurrency_examp.Python.Dict.{Dict, lookup, insert, keys, values}

pub record InventoryReservation : Type 0 where
  pub stock : Dict ℤ

-- `__init__`
pub create : Dict ℤ → Result InventoryReservation
create stock = check (is_empty stock) (value_error "stock must not be empty") (
    check (any (λ product_id. product_id == "") (keys stock))
      (value_error "product IDs must not be empty")
      (check (any (λ quantity. ltb_ℤ quantity (pos 0)) (values stock))
        (value_error "stock quantities must not be negative") (ok (record { stock = stock }))))

-- `_stock_for`
stock_for : String → Exec InventoryReservation ℤ
stock_for product_id = do
  raise_if (product_id == "") (value_error "product ID must not be empty")
  found ← gets (λ s. lookup product_id s.stock)
  or_raise found (unknown_product_error product_id)

pub reserve : String → ℤ → Exec InventoryReservation Bool
unfolding stock_for
reserve product_id quantity = do
  raise_if (leb_ℤ quantity (pos 0)) (value_error "quantity must be greater than zero")
  available ← stock_for product_id
  if ltb_ℤ available quantity then pure false else do
    modify (λ s. record s { stock = insert product_id (available -ℤ quantity) s.stock })
    pure true

pub available : String → Exec InventoryReservation ℤ
available product_id = stock_for product_id

pub snapshot : Exec InventoryReservation (Dict ℤ)
snapshot = gets (λ s. s.stock)

-- The calls that the threads make.
pub data Call : Type 0 where
  reserves : String → ℤ → Call
  reads : String → Call
  snapshots : Call

pub step : Call → InventoryReservation → InventoryReservation
step (reserves product_id quantity) s = (reserve product_id quantity s).1
step (reads product_id) s = (available product_id s).1
step snapshots s = (snapshot s).1

pub run : List Call → InventoryReservation → InventoryReservation
unfolding step available snapshot
run [] s = s
run (c ∷ cs) s = run cs (step c s)

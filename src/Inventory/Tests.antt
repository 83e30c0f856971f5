-- ===== src/Inventory/Tests.antt =====
-- Runs of the inventory on concrete stock, and its theorems at inputs that meet their hypotheses.
use python_concurrency_examp.Prelude.{◌≡◌, refl, some, List, [], ◌∷◌}
use python_concurrency_examp.Prelude.Int.{pos, negsuc, ◌-ℤ◌, ◌≤ℤ◌}
use python_concurrency_examp.Python.{err, value_error, unknown_product_error}
use python_concurrency_examp.Python.Dict.{lookup, insert}
use python_concurrency_examp.Inventory.{
  InventoryReservation, create, reserve, Call, reserves, reads, run,
}
use python_concurrency_examp.Inventory.Conservation.{granted, create-run-conserves}

abbrev shelf : InventoryReservation
shelf = record { stock = ("sku-1", pos 5) ∷ ("sku-2", pos 1) ∷ [] }

-- The third reservation finds too little, and the read of an unknown product raises.
abbrev checkout : List Call
checkout =
    reserves "sku-1" (pos 3) ∷ reserves "sku-2" (pos 1) ∷ reserves "sku-1" (pos 3) ∷ reads "x" ∷ []

checkout_runs : (run checkout shelf).stock ≡ ("sku-1", pos 2) ∷ ("sku-2", pos 0) ∷ []
unfolding run reserve lookup insert ◌-ℤ◌
checkout_runs = refl

bad_quantity :
    (reserve "sku-1" (negsuc 0) shelf).0 ≡ err (value_error "quantity must be greater than zero")
unfolding reserve
bad_quantity = refl

unknown_product : (reserve "sku-9" (pos 1) shelf).0 ≡ err (unknown_product_error "sku-9")
unfolding reserve lookup
unknown_product = refl

create_negative :
    create (("sku-1", negsuc 2) ∷ []) ≡ err (value_error "stock quantities must not be negative")
unfolding create
create_negative = refl

create-run-conserves_example :
    (lookup "sku-1" (run checkout shelf).stock ≡ some (pos 5 -ℤ granted "sku-1" checkout shelf))
    × (granted "sku-1" checkout shelf ≤ℤ pos 5)
unfolding create lookup
create-run-conserves_example =
    create-run-conserves "sku-1" (pos 5) shelf.stock shelf checkout refl refl

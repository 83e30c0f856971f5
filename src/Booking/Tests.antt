-- ===== src/Booking/Tests.antt =====
-- Runs of the booking service, and its theorems at inputs that meet their hypotheses.
use python_concurrency_examp.Prelude.{◌≡◌, ◌≢◌, refl, true, some, All, arith, eq_iff, List, [], ◌∷◌}
use python_concurrency_examp.Python.{ok}
use python_concurrency_examp.Python.Dict.{lookup, insert, erase}
use python_concurrency_examp.Python.StrSet.{mem}
use python_concurrency_examp.Booking.{
  AsyncSeatBooking, create, book, cancel, booking_for_seat, Call, books, cancels, run,
}
use python_concurrency_examp.Booking.Ownership.{IsConsistent, create-run-IsConsistent}
use python_concurrency_examp.Booking.Seats.{book-exclusive}

abbrev hall : AsyncSeatBooking
hall = record { seat_ids = "A1" ∷ "A2" ∷ []; bookings_by_id = []; booking_ids_by_seat = [] }

-- Two customers want A1, and the first gives it back.
abbrev rush : List Call
rush = books "b1" "ann" "A1" ∷ books "b2" "bob" "A1" ∷ cancels "b1" ∷ books "b3" "bob" "A1" ∷ []

created : create ("A1" ∷ "A2" ∷ []) ≡ ok hall
unfolding create
created = refl

rush_runs : (run rush hall).booking_ids_by_seat ≡ ("A1", "b3") ∷ []
unfolding run book cancel lookup insert erase mem
rush_runs = refl

abbrev sold : AsyncSeatBooking
sold = run (books "b1" "ann" "A1" ∷ []) hall

create-run-IsConsistent_example : IsConsistent (run rush hall)
create-run-IsConsistent_example = create-run-IsConsistent ("A1" ∷ "A2" ∷ []) hall rush created

-- Two bookings are made and one is given back before "ann" books A1, which another caller then wants.
abbrev early : List Call
early = books "b1" "bob" "A1" ∷ books "b2" "bob" "A2" ∷ cancels "b1" ∷ []

abbrev late : List Call
late = books "b4" "bob" "A1" ∷ cancels "b4" ∷ cancels "b2" ∷ []

book_wins : (book "b3" "ann" "A1" (run early hall)).0 ≡ ok true
unfolding run book cancel lookup insert erase mem
book_wins = refl

others_only : All (λ k. k ≢ cancels "b3") late
others_only = ground (arith, eq_iff "b4" "b3", eq_iff "b2" "b3")

book-exclusive_example :
    let s = run late (book "b3" "ann" "A1" (run early hall)).1 in
    ((booking_for_seat "A1" s).0
      ≡ ok (some (record { booking_id = "b3"; customer_id = "ann"; seat_id = "A1" })))
    × ((book "b4" "bob" "A1" s).0 ≢ ok true)
    × ((book "b3" "bob" "A2" s).0 ≢ ok true)
book-exclusive_example =
    book-exclusive ("A1" ∷ "A2" ∷ []) hall early late "b3" "ann" "A1" "b4" "bob" "A2" created
      book_wins others_only

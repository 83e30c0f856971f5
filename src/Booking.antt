-- ===== src/Booking.antt =====
-- asyncseatbooking/booking.py: seats and bookings behind an asyncio.Lock. Each method body is one
-- atomic step, so what many tasks do is a list of calls in the order in which they take the lock.
mod Ownership
pub mod Seats
mod Tests
use python_concurrency_examp.Prelude.{
  String, Bool, true, false, not, Option, none, some, List, [], ◌∷◌, ◌==◌, if◌then◌else◌, any,
  is_empty, is_some,
}
use python_concurrency_examp.Python.{
  Result, ok, err, value_error, missing_key_error, Exec, pure, raise, gets, or_raise, raise_if,
  modify, ◌>>=◌, ◌>>◌, check,
}
use python_concurrency_examp.Python.Dict.{Dict, lookup, contains, insert, erase, keys}
use python_concurrency_examp.Python.StrSet.{StrSet, mem, from_list, difference}

pub record SeatBooking : Type 0 where
  pub booking_id : String
  pub customer_id : String
  pub seat_id : String

pub record AsyncSeatBooking : Type 0 where
  pub seat_ids : StrSet
  pub bookings_by_id : Dict SeatBooking
  pub booking_ids_by_seat : Dict String

-- `__init__`; the argument is a set already
pub create : StrSet → Result AsyncSeatBooking
create seat_ids = check (is_empty seat_ids) (value_error "seat_ids must not be empty") (
    check (any (λ seat_id. seat_id == "") seat_ids)
      (value_error "seat_ids must not contain empty values")
      (ok (record { seat_ids = seat_ids; bookings_by_id = []; booking_ids_by_seat = [] })))

-- `del self._booking_ids_by_seat[seat_id]`
delete_seat : String → Exec AsyncSeatBooking (Unit {0})
delete_seat seat_id s =
    if contains seat_id s.booking_ids_by_seat
    then (ok tt, record s { booking_ids_by_seat = erase seat_id s.booking_ids_by_seat })
    else (err (missing_key_error seat_id), s)

pub book : String → String → String → Exec AsyncSeatBooking Bool
book booking_id customer_id seat_id = do
  raise_if (booking_id == "") (value_error "booking_id must not be empty")
  raise_if (customer_id == "") (value_error "customer_id must not be empty")
  raise_if (not (← gets (λ s. mem seat_id s.seat_ids))) (value_error "seat_id must be a known seat")
  used ← gets (λ s. contains booking_id s.bookings_by_id)
  taken ← gets (λ s. contains seat_id s.booking_ids_by_seat)
  if used then pure false else if taken then pure false else do
    modify (λ s. record s {
      bookings_by_id =
          insert booking_id
            (record { booking_id = booking_id; customer_id = customer_id; seat_id = seat_id })
            s.bookings_by_id;
      booking_ids_by_seat = insert seat_id booking_id s.booking_ids_by_seat;
    })
    pure true

-- The rest of `cancel` after `pop(booking_id, None)`, which has removed the booking.
release_booking : Option SeatBooking → Exec AsyncSeatBooking Bool
unfolding delete_seat
release_booking none = pure false
release_booking (some booking) = do delete_seat booking.seat_id; pure true

pub cancel : String → Exec AsyncSeatBooking Bool
unfolding release_booking
cancel booking_id = do
  raise_if (booking_id == "") (value_error "booking_id must not be empty")
  booking ← gets (λ s. lookup booking_id s.bookings_by_id)
  modify (λ s. record s { bookings_by_id = erase booking_id s.bookings_by_id })
  release_booking booking

-- `self._bookings_by_id[booking_id]`, where the seat is booked
booking_of : Option String → Exec AsyncSeatBooking (Option SeatBooking)
booking_of none = pure none
booking_of (some booking_id) = do
  found ← gets (λ s. lookup booking_id s.bookings_by_id)
  booking ← or_raise found (missing_key_error booking_id)
  pure (some booking)

pub booking_for_seat : String → Exec AsyncSeatBooking (Option SeatBooking)
unfolding booking_of
booking_for_seat seat_id = do
  raise_if (not (← gets (λ s. mem seat_id s.seat_ids))) (value_error "seat_id must be a known seat")
  booking_id ← gets (λ s. lookup seat_id s.booking_ids_by_seat)
  booking_of booking_id

pub booked_seats : Exec AsyncSeatBooking StrSet
booked_seats = gets (λ s. from_list (keys s.booking_ids_by_seat))

pub available_seats : Exec AsyncSeatBooking StrSet
available_seats = gets (λ s. difference s.seat_ids (keys s.booking_ids_by_seat))

-- The calls that change the state, in the order in which their tasks take the lock.
pub data Call : Type 0 where
  books : String → String → String → Call
  cancels : String → Call

step : Call → AsyncSeatBooking → AsyncSeatBooking
step (books booking_id customer_id seat_id) s = (book booking_id customer_id seat_id s).1
step (cancels booking_id) s = (cancel booking_id s).1

pub run : List Call → AsyncSeatBooking → AsyncSeatBooking
unfolding step
run [] s = s
run (c ∷ cs) s = run cs (step c s)

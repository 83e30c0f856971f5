-- ===== src/Booking/Seats.antt =====
-- What callers see of the seats.
use python_concurrency_examp.Prelude.{
  String, ◌≡◌, ◌≢◌, ◌⊎◌, inl, inr, true, false, not, some, none, arith, eq_refl, eq_iff, ap, All,
  List, [], ◌∷◌, Option-cases, is_some,
}
use python_concurrency_examp.Python.{ok}
use python_concurrency_examp.Python.Dict.{
  lookup, keys, lookup-insert_self, lookup-insert, lookup-erase, mem-keys,
}
use python_concurrency_examp.Python.StrSet.{StrSet, mem, mem-from_list, mem-difference}
use python_concurrency_examp.Booking.{
  SeatBooking, AsyncSeatBooking, create, Call, books, cancels, run, book, cancel, booking_for_seat,
  booked_seats, available_seats,
}
use python_concurrency_examp.Booking.Ownership.{
  IsConsistent, booking, book-cases, assigned, cancel-cases, book-IsConsistent, cancel-IsConsistent,
  create-run-IsConsistent,
}

book-assigned :
    (b c seat : String) (s : AsyncSeatBooking)
    → (book b c seat s).0 ≡ ok true
    → (mem seat s.seat_ids ≡ true) × ((book b c seat s).1 ≡ assigned b c seat s)
book-assigned b c seat s won = elim (book-cases b c seat s) [
  | inl (lost, _) ↦ absurd (lost won)
  | inr (known, _, _, e) ↦ (known, ground arith)
]

-- The booking stands, in a state that is consistent.
record Stands (b c seat : String) (s : AsyncSeatBooking) : Type 0 where
  consistent : IsConsistent s
  stored : lookup b s.bookings_by_id ≡ some (booking b c seat)

module _ (b c seat : String) where
  book-Stands :
      (j d t : String) (s : AsyncSeatBooking) → Stands b c seat s → Stands b c seat (book j d t s).1
  book-Stands j d t s v = elim (book-cases j d t s) [
    | inl (lost, same) ↦ rw same v
    | inr (known, new, free, e) ↦ record {
      consistent = book-IsConsistent j d t s v.consistent;
      stored = rw e (
          ground
            (arith, new, v.stored, lookup-insert j b (booking j d t) s.bookings_by_id, eq_iff j b));
    }
  ]

  cancel-Stands :
      (j : String) (s : AsyncSeatBooking)
      → cancels j ≢ cancels b
      → Stands b c seat s
      → Stands b c seat (cancel j s).1
  cancel-Stands j s other v = elim (cancel-cases j s v.consistent) [
    | inl (lost, same) ↦ rw same v
    | inr (k, found, e) ↦ record {
      consistent = cancel-IsConsistent j s v.consistent;
      stored = rw e (
          ground (
            arith,
            v.stored,
            λ (h : j ≡ b). other (ap cancels h),
            lookup-erase j b s.bookings_by_id v.consistent.by_id,
            eq_iff j b,
          ));
    }
  ]

  run-Stands :
      (cs : List Call) (s : AsyncSeatBooking)
      → All (λ k. k ≢ cancels b) cs
      → Stands b c seat s
      → Stands b c seat (run cs s)
  unfolding run
  run-Stands [] s others v = v
  run-Stands (books j d t ∷ cs) s others v = run-Stands cs _ others.1 (book-Stands j d t s v)
  run-Stands (cancels j ∷ cs) s others v = run-Stands cs _ others.1 (cancel-Stands j s others.0 v)

  book-won-Stands :
      (s : AsyncSeatBooking)
      → IsConsistent s
      → (book b c seat s).0 ≡ ok true
      → Stands b c seat (book b c seat s).1
  book-won-Stands s v won = record {
    consistent = book-IsConsistent b c seat s v;
    stored =
        rw (book-assigned b c seat s won).1
          (lookup-insert_self b (booking b c seat) s.bookings_by_id);
  }

  Stands-exclusive :
      (s : AsyncSeatBooking) (b' c' seat' : String)
      → Stands b c seat s
      → ((booking_for_seat seat s).0 ≡ ok (some (booking b c seat)))
        × ((book b' c' seat s).0 ≢ ok true)
        × ((book b c' seat' s).0 ≢ ok true)
  unfolding booking_for_seat
  Stands-exclusive s b' c' seat' v =
      let (same, known, seated) = v.consistent.owned b (booking b c seat) v.stored in
      (
        ground (arith, known, seated, v.stored),
        ground (arith, seated, book-cases b' c' seat s),
        ground (arith, v.stored, book-cases b c' seat' s),
      )

-- After any calls on a created service, a `book` that returned True, and any later calls of `book` and
-- `cancel` among which none cancels that booking ID, the seat still shows that booking, and neither
-- the seat nor the booking ID can be booked by anybody.
pub book-exclusive :
    (seats : StrSet) (new : AsyncSeatBooking) (before later : List Call)
    (b c seat b' c' seat' : String)
    → create seats ≡ ok new
    → (book b c seat (run before new)).0 ≡ ok true
    → All (λ k. k ≢ cancels b) later
    → let s = run later (book b c seat (run before new)).1 in
      ((booking_for_seat seat s).0
        ≡ ok (some (record { booking_id = b; customer_id = c; seat_id = seat })))
      × ((book b' c' seat s).0 ≢ ok true)
      × ((book b c' seat' s).0 ≢ ok true)
book-exclusive seats new before later b c seat b' c' seat' made won others =
    let v = create-run-IsConsistent seats new before made in
    Stands-exclusive b c seat (run later (book b c seat (run before new)).1) b' c' seat'
      (run-Stands b c seat later _ others (book-won-Stands b c seat (run before new) v won))

-- In a consistent state `booking_for_seat` does not raise KeyError: for a known seat it returns
-- None or a booking that is for this seat.
booking_for_seat-total :
    (seat : String) (s : AsyncSeatBooking)
    → IsConsistent s
    → mem seat s.seat_ids ≡ true
    → ((booking_for_seat seat s).0 ≡ ok none)
      ⊎ ((k : SeatBooking) × ((booking_for_seat seat s).0 ≡ ok (some k))
          × (k.seat_id ≡ seat)
          × (lookup k.booking_id s.bookings_by_id ≡ some k))
unfolding booking_for_seat
booking_for_seat-total seat s v known = elim (Option-cases (lookup seat s.booking_ids_by_seat)) [
  | inl free ↦ inl (ground arith)
  | inr (b, taken) ↦
      let (k, found, its) = v.named seat b taken in
      inr (k, ground arith, its, ground (arith, v.owned b k found))
]

-- A cancellation that returns True frees the seat of the booking that it removed.
cancel-frees :
    (b : String) (s : AsyncSeatBooking)
    → IsConsistent s
    → (cancel b s).0 ≡ ok true
    → (k : SeatBooking) × (lookup b s.bookings_by_id ≡ some k)
      × ((booking_for_seat k.seat_id (cancel b s).1).0 ≡ ok none)
      × (lookup b (cancel b s).1.bookings_by_id ≡ none)
unfolding booking_for_seat
cancel-frees b s v won = elim (cancel-cases b s v) [
  | inl (lost, _) ↦ absurd (lost won)
  | inr (k, found, e) ↦ (
    k,
    found,
    rw e (
        ground (
          arith,
          v.owned b k found,
          lookup-erase k.seat_id k.seat_id s.booking_ids_by_seat v.by_seat,
          eq_refl k.seat_id,
        )),
    rw e (ground (arith, lookup-erase b b s.bookings_by_id v.by_id, eq_refl b)),
  )
]

-- The two snapshots split the known seats: a seat is available exactly when it is known and not
-- booked, and it is booked exactly when `booking_ids_by_seat` has it.
seats-partition :
    (seat : String) (s : AsyncSeatBooking) (booked available : StrSet)
    → (booked_seats s).0 ≡ ok booked
    → (available_seats s).0 ≡ ok available
    → (mem seat booked ≡ is_some (lookup seat s.booking_ids_by_seat))
      × (mem seat s.seat_ids ≡ true → mem seat available ≡ not (mem seat booked))
      × (mem seat s.seat_ids ≡ false → mem seat available ≡ false)
unfolding booked_seats available_seats
seats-partition seat s booked available eb ea = ground (
  arith,
  mem-from_list seat (keys s.booking_ids_by_seat),
  mem-keys seat s.booking_ids_by_seat,
  mem-difference seat s.seat_ids (keys s.booking_ids_by_seat),
)

-- ===== src/Booking/Ownership.antt =====
-- The two dicts of the booking service as one relation between bookings and seats.
use python_concurrency_examp.Prelude.{
  String, ◌≡◌, ◌≢◌, refl, subst, ◌⊎◌, inl, inr, true, some, none, List, [], ◌∷◌, arith, ◌==◌,
  eq_iff, Option-cases, Bool-cases,
}
use python_concurrency_examp.Python.{ok}
use python_concurrency_examp.Python.Dict.{
  Dict, lookup, insert, erase, IsDict, lookup-insert, lookup-erase, insert-IsDict, erase-IsDict,
}
use python_concurrency_examp.Python.StrSet.{mem}
use python_concurrency_examp.Booking.{
  SeatBooking, AsyncSeatBooking, create, book, cancel, Call, books, cancels, run,
}

-- Each dict has no key twice; a booking stands under its own ID, is for a known seat, and its seat
-- names it; and a seat names a booking that is for this seat.
pub record IsConsistent (s : AsyncSeatBooking) : Type 0 where
  pub by_id : IsDict s.bookings_by_id
  pub by_seat : IsDict s.booking_ids_by_seat
  pub owned :
      (b : String) (k : SeatBooking)
      → lookup b s.bookings_by_id ≡ some k
      → (k.booking_id ≡ b)
        × (mem k.seat_id s.seat_ids ≡ true)
        × (lookup k.seat_id s.booking_ids_by_seat ≡ some b)
  pub named :
      (seat b : String)
      → lookup seat s.booking_ids_by_seat ≡ some b
      → (k : SeatBooking) × (lookup b s.bookings_by_id ≡ some k) × (k.seat_id ≡ seat)

-- No seat and no booking yet.
empty-IsConsistent :
    (seats : List String)
    → IsConsistent (record { seat_ids = seats; bookings_by_id = []; booking_ids_by_seat = [] })
unfolding lookup
empty-IsConsistent seats = record {
  by_id = tt;
  by_seat = tt;
  owned = λ b k e. cc;
  named = λ t b e. cc;
}

pub create-IsConsistent :
    (seats : List String) (s : AsyncSeatBooking) → create seats ≡ ok s → IsConsistent s
unfolding create
create-IsConsistent seats s h = subst IsConsistent (ground arith) (empty-IsConsistent seats)

abbrev pub booking : String → String → String → SeatBooking
booking b c seat = record { booking_id = b; customer_id = c; seat_id = seat }

abbrev pub assigned : String → String → String → AsyncSeatBooking → AsyncSeatBooking
assigned b c seat s = record s {
  bookings_by_id = insert b (booking b c seat) s.bookings_by_id;
  booking_ids_by_seat = insert seat b s.booking_ids_by_seat;
}

-- A call of `book` leaves the state alone, or finds the ID and the seat free and assigns them.
pub book-cases :
    (b c seat : String) (s : AsyncSeatBooking)
    → (((book b c seat s).0 ≢ ok true) × ((book b c seat s).1 ≡ s))
      ⊎ ((mem seat s.seat_ids ≡ true)
          × (lookup b s.bookings_by_id ≡ none)
          × (lookup seat s.booking_ids_by_seat ≡ none)
          × ((book b c seat s) ≡ (ok true, assigned b c seat s)))
unfolding book
book-cases b c seat s = ground arith

module _ (b c seat : String) (s : AsyncSeatBooking) (v : IsConsistent s) where
  assigned-owned :
      lookup b s.bookings_by_id ≡ none
      → lookup seat s.booking_ids_by_seat ≡ none
      → mem seat s.seat_ids ≡ true
      → (j : String) (k : SeatBooking) → lookup j (assigned b c seat s).bookings_by_id ≡ some k
      → (k.booking_id ≡ j)
        × (mem k.seat_id s.seat_ids ≡ true)
        × (lookup k.seat_id (assigned b c seat s).booking_ids_by_seat ≡ some j)
  assigned-owned new free known j k found = ground (
    arith,
    v.owned j k,
    lookup-insert b j (booking b c seat) s.bookings_by_id,
    lookup-insert seat k.seat_id b s.booking_ids_by_seat,
    eq_iff b j,
    eq_iff seat k.seat_id,
  )

  assigned-named :
      lookup b s.bookings_by_id ≡ none
      → (t j : String) → lookup t (assigned b c seat s).booking_ids_by_seat ≡ some j
      → (k : SeatBooking) × (lookup j (assigned b c seat s).bookings_by_id ≡ some k)
        × (k.seat_id ≡ t)
  assigned-named new t j found = elim (Bool-cases (seat == t)) [
    | inl same ↦ (
      booking b c seat,
      ground (
        arith,
        lookup-insert seat t b s.booking_ids_by_seat,
        lookup-insert b j (booking b c seat) s.bookings_by_id,
        eq_iff b j,
      ),
      (eq_iff seat t).0 same,
    )
    | inr other ↦
        let (k, there, its) =
          v.named t j (ground (arith, lookup-insert seat t b s.booking_ids_by_seat)) in
        (k, ground (arith, lookup-insert b j (booking b c seat) s.bookings_by_id, eq_iff b j), its)
  ]

pub book-IsConsistent :
    (b c seat : String) (s : AsyncSeatBooking) → IsConsistent s → IsConsistent (book b c seat s).1
book-IsConsistent b c seat s v = elim (book-cases b c seat s) [
  | inl (_, same) ↦ rw same v
  | inr (known, new, free, e) ↦ rw e (record {
    by_id = insert-IsDict b (booking b c seat) s.bookings_by_id v.by_id;
    by_seat = insert-IsDict seat b s.booking_ids_by_seat v.by_seat;
    owned = assigned-owned b c seat s v new free known;
    named = assigned-named b c seat s v new;
  })
]

abbrev pub removed : String → SeatBooking → AsyncSeatBooking → AsyncSeatBooking
removed b k s = record s {
  bookings_by_id = erase b s.bookings_by_id;
  booking_ids_by_seat = erase k.seat_id s.booking_ids_by_seat;
}

-- `pop` of an unknown key changes nothing.
erase-unknown {ℓ} : {V : Type ℓ} (b : String) (d : Dict V) → lookup b d ≡ none → erase b d ≡ d
unfolding lookup erase
erase-unknown b [] h = refl
erase-unknown b ((j, w) ∷ d) h = ground (arith, erase-unknown b d)

-- In a consistent state a call of `cancel` leaves the state alone, or finds the booking and
-- removes it from both dicts: the `del` cannot raise KeyError.
pub cancel-cases :
    (b : String) (s : AsyncSeatBooking)
    → IsConsistent s
    → (((cancel b s).0 ≢ ok true) × ((cancel b s).1 ≡ s))
      ⊎ ((k : SeatBooking) × (lookup b s.bookings_by_id ≡ some k)
          × (cancel b s ≡ (ok true, removed b k s)))
unfolding cancel
cancel-cases b s v = elim (Option-cases (lookup b s.bookings_by_id)) [
  | inl missing ↦ inl (
    ground (arith, erase-unknown b s.bookings_by_id),
    ground (arith, erase-unknown b s.bookings_by_id),
  )
  | inr (k, found) ↦ ground (arith, v.owned b k)
]

module _ (b : String) (k : SeatBooking) (s : AsyncSeatBooking) (v : IsConsistent s) where
  removed-owned :
      lookup b s.bookings_by_id ≡ some k
      → (j : String) (m : SeatBooking) → lookup j (removed b k s).bookings_by_id ≡ some m
      → (m.booking_id ≡ j)
        × (mem m.seat_id s.seat_ids ≡ true)
        × (lookup m.seat_id (removed b k s).booking_ids_by_seat ≡ some j)
  removed-owned there j m found = ground (
    arith,
    v.owned j m,
    v.owned b k there,
    lookup-erase b j s.bookings_by_id v.by_id,
    lookup-erase k.seat_id m.seat_id s.booking_ids_by_seat v.by_seat,
    eq_iff b j,
    eq_iff k.seat_id m.seat_id,
  )

  removed-named :
      lookup b s.bookings_by_id ≡ some k
      → (t j : String) → lookup t (removed b k s).booking_ids_by_seat ≡ some j
      → (m : SeatBooking) × (lookup j (removed b k s).bookings_by_id ≡ some m) × (m.seat_id ≡ t)
  removed-named there t j found =
      let stays = lookup-erase k.seat_id t s.booking_ids_by_seat v.by_seat in
      let (m, e, its) = v.named t j (ground (arith, stays)) in
      (
        m,
        ground (
          arith,
          stays,
          lookup-erase b j s.bookings_by_id v.by_id,
          eq_iff b j,
          eq_iff k.seat_id t,
        ),
        its,
      )

pub cancel-IsConsistent :
    (b : String) (s : AsyncSeatBooking) → IsConsistent s → IsConsistent (cancel b s).1
cancel-IsConsistent b s v = elim (cancel-cases b s v) [
  | inl (_, same) ↦ rw same v
  | inr (k, there, e) ↦ rw e (record {
    by_id = erase-IsDict b s.bookings_by_id v.by_id;
    by_seat = erase-IsDict k.seat_id s.booking_ids_by_seat v.by_seat;
    owned = removed-owned b k s v there;
    named = removed-named b k s v there;
  })
]

run-IsConsistent :
    (cs : List Call) (s : AsyncSeatBooking) → IsConsistent s → IsConsistent (run cs s)
unfolding run
run-IsConsistent [] s v = v
run-IsConsistent (books b c seat ∷ cs) s v = run-IsConsistent cs _ (book-IsConsistent b c seat s v)
run-IsConsistent (cancels b ∷ cs) s v = run-IsConsistent cs _ (cancel-IsConsistent b s v)

-- After any calls of `book` and `cancel` on a new service, in any order, the two dicts agree:
-- every booking is for a known seat that names it, and every booked seat names its booking.
pub create-run-IsConsistent :
    (seats : List String) (s : AsyncSeatBooking) (cs : List Call)
    → create seats ≡ ok s
    → IsConsistent (run cs s)
create-run-IsConsistent seats s cs made = run-IsConsistent cs s (create-IsConsistent seats s made)

-- ===== src/Bounded/Tests.antt =====
-- A queue for two items that is shut down at once with one pending.
use python_concurrency_examp.Prelude.{
  ℕ, ◌≤◌, ◌≡◌, refl, some, none, true, false, [], ◌∷◌, ◌++◌, All, arith, length, Star, here, next,
}
use python_concurrency_examp.Prelude.Int.{pos, negsuc}
use python_concurrency_examp.Python.{ok, err, queue_shut_down}
use python_concurrency_examp.Python.Queue
use python_concurrency_examp.Python.Queue.{Queue, ends, bad_timeout}
use python_concurrency_examp.Bounded.{
  BoundedQueue, create, put, get, task_done, joined, shutdown, size,
}
use python_concurrency_examp.Bounded.System.{
  System, Step, puts, put_times_out, gets, get_raises, marks_done, shuts_down,
}
use python_concurrency_examp.Bounded.Invariant.{fresh}
use python_concurrency_examp.Bounded.Handoff.{handoff-fifo, join-all_marked}

abbrev for_two : BoundedQueue ℕ
for_two = record { queue = record { maxsize = 2; items = []; unfinished = 0; is_shutdown = false } }

for_two-made : create (pos 2) ≡ ok for_two
unfolding create
for_two-made = refl

abbrev all_closed : System ℕ
all_closed = record {
  work = record { queue = record { maxsize = 2; items = []; unfinished = 0; is_shutdown = true } };
  accepted = 5 ∷ 6 ∷ [];
  returned = 5 ∷ [];
  discarded = 6 ∷ [];
  marks = ok tt ∷ [];
}

to_closed : Star Step (fresh for_two) all_closed
unfolding put get task_done shutdown Queue.put_within Queue.put Queue.get_within Queue.get
    Queue.task_done Queue.shutdown
to_closed =
    next
      (next
        (next
          (next
            (next (next (next here (puts 5 none refl)) (puts 6 (some (pos 1)) refl))
              (put_times_out 7 (pos 1) refl))
            (gets 5 none refl))
          (marks_done _ refl))
        (shuts_down true))
      (get_raises none queue_shut_down refl)

bad_timeouts :
    ((put 5 (some (negsuc 0)) for_two).0 ≡ ends (err bad_timeout))
    × ((get (some (negsuc 0)) for_two).0 ≡ ends (err bad_timeout))
    × ((get (some (negsuc 0)) all_closed.work).0 ≡ ends (err queue_shut_down))
unfolding put get Queue.put_within Queue.get_within Queue.get
bad_timeouts = (refl, refl, refl)

-- A call of `task_done` for an item that is still pending: `join` returns before a `get`.
early_mark : joined (task_done (put 5 none for_two).1).1 ≡ true
unfolding put task_done Queue.put_within Queue.put Queue.task_done
early_mark = refl

handoff-fifo_example :
    (all_closed.returned ++ (all_closed.work.queue.items ++ all_closed.discarded)
      ≡ all_closed.accepted)
    × (size all_closed.work ≤ 2)
handoff-fifo_example = handoff-fifo (pos 2) for_two all_closed for_two-made to_closed

join-all_marked_example :
    (all_closed.returned ++ all_closed.discarded ≡ all_closed.accepted)
    × (length all_closed.marks ≡ length all_closed.returned)
    × All (λ r. r ≡ ok tt) all_closed.marks
join-all_marked_example =
    join-all_marked (pos 2) for_two all_closed for_two-made to_closed (omega arith) refl

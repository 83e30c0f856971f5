-- ===== src/Support.antt =====
-- supportqueue/queue.py: support tickets in a priority queue. `submit` takes a sequence number under
-- a lock and puts the ticket afterwards, and other threads run in between.
pub mod System
pub mod Invariant
mod Distinct
pub mod Urgency
mod Tests
use python_concurrency_examp.Prelude.{
  ℕ, zero, suc, String, Bool, true, false, Option, none, some, List, [], ◌∷◌, ◌==◌, length,
  if◌then◌else◌,
}
use python_concurrency_examp.Prelude.Int.{ℤ, pos, ltb_ℤ}
use python_concurrency_examp.Python.{
  Result, ok, err, value_error, Exec, pure, gets, modify, ◌>>=◌, ◌>>◌, check,
}
use python_concurrency_examp.Python.PriorityQueue.{Entry, PriorityQueue, put, get_nowait}
use python_concurrency_examp.Python.PriorityQueue

pub record SupportTicket : Type 0 where
  pub ticket_id : String
  pub customer_id : String
  pub priority : ℤ
  pub subject : String

-- `SupportTicket(...)` with its `__post_init__`
pub create_ticket : String → String → ℤ → String → Result SupportTicket
create_ticket ticket_id customer_id priority subject =
    check (ticket_id == "") (value_error "ticket_id must not be empty") (
      check (customer_id == "") (value_error "customer_id must not be empty") (
        check (ltb_ℤ priority (pos 0)) (value_error "priority must not be negative") (
          check (subject == "") (value_error "subject must not be empty") (
            ok (record {
              ticket_id = ticket_id;
              customer_id = customer_id;
              priority = priority;
              subject = subject;
            })))))

pub record SupportQueue : Type 0 where
  pub queue : PriorityQueue SupportTicket
  pub next_sequence : ℕ

-- `__init__`
abbrev pub create : SupportQueue
create = record { queue = record { entries = []; unfinished = 0 }; next_sequence = 0 }

-- `submit` under its lock
pub next_number : SupportQueue → ℕ × SupportQueue
next_number s = (s.next_sequence, record s { next_sequence = suc s.next_sequence })

abbrev pub numbered : ℕ → SupportTicket → Entry SupportTicket
numbered sequence ticket = record {
  priority = ticket.priority;
  sequence = sequence;
  value = ticket;
}

-- the rest of `submit`
pub put_ticket : Entry SupportTicket → SupportQueue → SupportQueue
put_ticket e s = record s { queue = put e s.queue }

-- `submit`, where no other thread runs in between
pub submit : SupportTicket → SupportQueue → SupportQueue
submit ticket s = let (sequence, s') = next_number s in put_ticket (numbered sequence ticket) s'

pub claimed_ticket : Option (Entry SupportTicket) → Option SupportTicket
claimed_ticket none = none
claimed_ticket (some e) = some e.value

pub claim_next : SupportQueue → Option SupportTicket × SupportQueue
unfolding claimed_ticket
claim_next s = let (found, q) = get_nowait s.queue in (claimed_ticket found, record s { queue = q })

pub task_done : Exec SupportQueue (Unit {0})
task_done s = let (r, q) = PriorityQueue.task_done s.queue in (r, record s { queue = q })

-- Whether `join` returns, or still blocks.
pub joined : SupportQueue → Bool
joined s = elim s.queue.unfinished [ zero ↦ true | suc n ↦ false ]

pub size : SupportQueue → ℕ
size s = length s.queue.entries

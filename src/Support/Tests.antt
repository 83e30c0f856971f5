-- ===== src/Support/Tests.antt =====
-- Runs of the support queue, and its theorems at a run of two producers and an agent.
use python_concurrency_examp.Prelude.{◌≡◌, refl, String, some, [], ◌∷◌, All, get_elem?}
use mathlib.Core.List.{Perm}
use python_concurrency_examp.Prelude.Int.{ℤ, pos}
use python_concurrency_examp.Python.{err, value_error}
use python_concurrency_examp.Python.PriorityQueue.{
  Entry, get_nowait, take_least, extract, comes_before,
}
use python_concurrency_examp.Support.{
  SupportTicket, SupportQueue, create, create_ticket, next_number, numbered, put_ticket, submit,
  claim_next, claimed_ticket,
}
use python_concurrency_examp.Support.System.{System, numbers, puts, Reach, here, next, start}
use python_concurrency_examp.Support.Urgency.{GoesAfter, claim_next-urgent}

abbrev ticket : String → ℤ → SupportTicket
ticket name priority = record {
  ticket_id = name;
  customer_id = "c";
  priority = priority;
  subject = "help";
}

abbrev normal : SupportTicket
normal = ticket "t1" (pos 5)

abbrev urgent : SupportTicket
urgent = ticket "t2" (pos 1)

abbrev also_normal : SupportTicket
also_normal = ticket "t3" (pos 5)

no_subject : create_ticket "t" "c" (pos 1) "" ≡ err (value_error "subject must not be empty")
unfolding create_ticket
no_subject = refl

urgent_first :
    (claim_next (submit also_normal (submit urgent (submit normal create)))).0 ≡ some urgent
unfolding claim_next claimed_ticket submit next_number put_ticket get_nowait take_least extract
    comes_before
urgent_first = refl

abbrev filled : System
filled = record {
  support = record {
    queue = record { entries = numbered 1 urgent ∷ numbered 0 normal ∷ []; unfinished = 2 };
    next_sequence = 3;
  };
  in_flight = numbered 2 also_normal ∷ [];
  submitted = normal ∷ urgent ∷ also_normal ∷ [];
  claimed = [];
}

-- The second producer puts its ticket before the first one does.
to_filled : Reach start filled
unfolding next_number put_ticket
to_filled =
    next
      (next
        (next (next (next here (numbers normal)) (numbers urgent))
          (puts (numbered 0 normal ∷ []) [] (numbered 1 urgent) refl))
        (puts [] [] (numbered 0 normal) refl))
      (numbers also_normal)

abbrev after_claim : SupportQueue
after_claim = record {
  queue = record { entries = numbered 0 normal ∷ []; unfinished = 2 };
  next_sequence = 3;
}

claimed : claim_next filled.support ≡ (some urgent, after_claim)
unfolding claim_next claimed_ticket get_nowait take_least extract comes_before
claimed = refl

claim_next-urgent_example :
    (e : Entry SupportTicket) × (e.value ≡ urgent)
    × Perm (e ∷ after_claim.queue.entries) filled.support.queue.entries
    × (get_elem? filled.submitted e.sequence ≡ some urgent)
    × All (GoesAfter filled.submitted e urgent) after_claim.queue.entries
claim_next-urgent_example = claim_next-urgent urgent after_claim to_filled claimed

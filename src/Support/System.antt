-- ===== src/Support/System.antt =====
-- Producer and agent threads over one support queue.
use python_concurrency_examp.Prelude.{◌≡◌, none, some, List, [], ◌∷◌, ◌++◌}
use python_concurrency_examp.Python.PriorityQueue.{Entry}
use python_concurrency_examp.Support.{
  SupportTicket, SupportQueue, create, next_number, numbered, put_ticket, claim_next, task_done,
}

-- `in_flight` are the tickets with a number that are still to be put; `submitted` are all tickets in
-- the order of their numbers, and `claimed` those that agents have got, in the order of the claims.
pub record System : Type 0 where
  pub support : SupportQueue
  pub in_flight : List (Entry SupportTicket)
  pub submitted : List SupportTicket
  pub claimed : List SupportTicket

pub data Step (s : System) : System → Type 0 where
  numbers :
      (ticket : SupportTicket)
      → Step s (record s {
        support = (next_number s.support).1;
        in_flight = s.in_flight ++ numbered (next_number s.support).0 ticket ∷ [];
        submitted = s.submitted ++ ticket ∷ [];
      })
  puts :
      (before after : List (Entry SupportTicket)) (e : Entry SupportTicket)
      → s.in_flight ≡ before ++ e ∷ after
      → Step s (record s { support = put_ticket e s.support; in_flight = before ++ after })
  claims :
      {q : SupportQueue} (ticket : SupportTicket)
      → claim_next s.support ≡ (some ticket, q)
      → Step s (record s { support = q; claimed = s.claimed ++ ticket ∷ [] })
  finds_none :
      {q : SupportQueue} → claim_next s.support ≡ (none, q) → Step s (record s { support = q })
  finishes : Step s (record s { support = (task_done s.support).1 })

pub data Reach (s : System) : System → Type 0 where
  here : Reach s s
  next : {t u : System} → Reach s t → Step t u → Reach s u

abbrev pub start : System
start = record { support = create; in_flight = []; submitted = []; claimed = [] }

-- ===== src/Support/Urgency.antt =====
-- Which ticket an agent gets, and where the others are.
use python_concurrency_examp.Prelude.{
  ◌<◌, ◌≡◌, ◌≢◌, arith, ap, sym, ◌∙◌, some, List, [], ◌∷◌, ◌++◌, All, get_elem?,
}
use mathlib.Core.List.{Perm}
use mathlib.Core.Path.{subst₂}
use python_concurrency_examp.Prelude.Int.{◌≤ℤ◌}
use python_concurrency_examp.Python.PriorityQueue.{Entry}
use python_concurrency_examp.Python.PriorityQueue.Least.{NotAfter, get_nowait-least, get_nowait-All}
use python_concurrency_examp.Support.{SupportTicket, SupportQueue, claim_next}
use python_concurrency_examp.Support.System.{System, Reach, start}
use python_concurrency_examp.Support.Distinct.{Reach-distinct}
use python_concurrency_examp.Support.Invariant.{tickets, IsNumbered, claim_next-some, Reach-Inv}

-- However the threads interleave, the tickets claimed, those in the queue and those that have a
-- number and are still to be put are together exactly the tickets submitted: each ticket is claimed
-- at most once and none is lost.
Reach-conserves :
    {s : System}
    → Reach start s
    → Perm (s.claimed ++ (tickets s.support.queue.entries ++ tickets s.in_flight)) s.submitted
Reach-conserves r = (Reach-Inv r).kept

-- What an entry that stays is like: its ticket was submitted at the place of its number, is not more
-- urgent than the ticket claimed, and was submitted after it if it is as urgent.
abbrev pub GoesAfter :
    List SupportTicket → Entry SupportTicket → SupportTicket → Entry SupportTicket → Type 0
GoesAfter submitted e t x =
    (get_elem? submitted x.sequence ≡ some x.value)
    × (t.priority ≤ℤ x.value.priority)
    × (t.priority ≡ x.value.priority → e.sequence < x.sequence)

All-GoesAfter :
    (submitted : List SupportTicket) (e : Entry SupportTicket) (t : SupportTicket)
    → e.value ≡ t
    → IsNumbered submitted e
    → (es : List (Entry SupportTicket)) → All (IsNumbered submitted) es
    → All (NotAfter e) es
    → All (λ x. x.sequence ≢ e.sequence) es
    → All (GoesAfter submitted e t) es
All-GoesAfter submitted e t value at [] number least other = tt
All-GoesAfter submitted e t value at (x ∷ es) number least other =
    let same : t.priority ≡ e.priority = sym (at.0 ∙ ap (λ k. k.priority) value) in
    let (not_after, not_later) = least.0 in
    (
      (
        number.0.1,
        subst₂ (λ a b. a ≤ℤ b) (sym same) number.0.0 not_after,
        λ equal.
            let bound = not_later (sym same ∙ equal ∙ sym number.0.0) in
            omega (arith, bound, other.0),
      ),
      All-GoesAfter submitted e t value at es number.1 least.1 other.1,
    )

-- However the threads interleave, the ticket that `claim_next` returns is that of one entry, which the
-- call takes out of the queue, and no other; it was submitted at the place of the entry's number. Each
-- entry left is for a ticket submitted at the place of its number, which is not more urgent, and was
-- submitted later if it is as urgent.
pub claim_next-urgent :
    {s : System} (t : SupportTicket) (q : SupportQueue)
    → Reach start s
    → claim_next s.support ≡ (some t, q)
    → (e : Entry SupportTicket) × (e.value ≡ t)
      × Perm (e ∷ q.queue.entries) s.support.queue.entries
      × (get_elem? s.submitted e.sequence ≡ some t)
      × All (GoesAfter s.submitted e t) q.queue.entries
claim_next-urgent {s} t q r h =
    let v = Reach-Inv r in
    let (e, got, value, number) = claim_next-some s.support q t h in
    let es = s.support.queue.entries in
    let n = s.support.queue.unfinished in
    let (perm, least) = get_nowait-least es n e q.queue got in
    let (at_e, rest) = get_nowait-All (IsNumbered s.submitted) es n e q.queue got v.waiting in
    let others = Reach-distinct e q.queue.entries r perm in
    (
      e,
      value,
      perm,
      at_e.1 ∙ ap some value,
      All-GoesAfter s.submitted e t value at_e q.queue.entries rest least others,
    )

-- ===== src/Support/Invariant.antt =====
-- Where each ticket is while producers and agents interleave.
use python_concurrency_examp.Prelude.{
  ◌≡◌, refl, ap, sym, ◌∙◌, subst, inl, inr, none, some, List, [], ◌∷◌, ◌++◌, append_assoc, map, All,
  All-append, length, length-append, get_elem?, get_elem?-append, get_elem?-last, arith,
  Option-cases, zero_or_suc,
}
use mathlib.Core.List.{Perm, perm_middle}
use mathlib.Core.List.Perm
use mathlib.Core.Path.{ap₂}
use python_concurrency_examp.Python.PriorityQueue.{Entry, PriorityQueue, get_nowait, put}
use python_concurrency_examp.Python.PriorityQueue
use python_concurrency_examp.Python.PriorityQueue.Least.{
  get_nowait-least, get_nowait-All, get_nowait-none,
}
use python_concurrency_examp.Support.{
  SupportTicket, SupportQueue, next_number, numbered, put_ticket, claim_next, claimed_ticket,
  task_done,
}
use python_concurrency_examp.Support.System.{
  System, Step, numbers, puts, claims, finds_none, finishes, Reach, here, next, start,
}

abbrev pub tickets : List (Entry SupportTicket) → List SupportTicket
tickets es = map (λ e. e.value) es

-- The number of an entry is the place of its ticket among the tickets submitted.
abbrev pub IsNumbered : List SupportTicket → Entry SupportTicket → Type 0
IsNumbered submitted e =
    (e.priority ≡ e.value.priority) × (get_elem? submitted e.sequence ≡ some e.value)

pub record Inv (s : System) : Type 0 where
  pub sequence : s.support.next_sequence ≡ length s.submitted
  pub waiting : All (IsNumbered s.submitted) s.support.queue.entries
  pub on_the_way : All (IsNumbered s.submitted) s.in_flight
  pub kept :
      Perm (s.claimed ++ (tickets s.support.queue.entries ++ tickets s.in_flight)) s.submitted

All-IsNumbered :
    (submitted : List SupportTicket) (t : SupportTicket) (es : List (Entry SupportTicket))
    → All (IsNumbered submitted) es
    → All (IsNumbered (submitted ++ t ∷ [])) es
All-IsNumbered submitted t [] h = tt
All-IsNumbered submitted t (e ∷ es) h = (
  (h.0.0, get_elem?-append submitted (t ∷ []) e.sequence e.value h.0.1),
  All-IsNumbered submitted t es h.1,
)

tickets-append :
    (xs ys : List (Entry SupportTicket)) → tickets (xs ++ ys) ≡ tickets xs ++ tickets ys
tickets-append [] ys = refl
tickets-append (x ∷ xs) ys = ap (◌∷◌ x.value) (tickets-append xs ys)

All-middle :
    (P : Entry SupportTicket → Type 0) (xs ys : List (Entry SupportTicket))
    (e : Entry SupportTicket)
    → All P (xs ++ e ∷ ys)
    → P e × All P (xs ++ ys)
All-middle P [] ys e h = h
All-middle P (x ∷ xs) ys e h = let (at, rest) = All-middle P xs ys e h.1 in (at, (h.0, rest))

-- What `claim_next` takes from the priority queue.
pub claim_next-some :
    (s q : SupportQueue) (t : SupportTicket)
    → claim_next s ≡ (some t, q)
    → (e : Entry SupportTicket) × (get_nowait s.queue ≡ (some e, q.queue))
      × (e.value ≡ t)
      × (q.next_sequence ≡ s.next_sequence)
unfolding claim_next claimed_ticket
claim_next-some s q t h = elim (Option-cases (get_nowait s.queue).0) [
  | inl empty ↦ absurd (ground arith)
  | inr (e, found) ↦ (
    e,
    ap₂ (λ o p. (o, p)) found (ap (λ p. p.1.queue) h),
    ground (arith, ap (λ p. p.0) h),
    ap (λ p. p.1.next_sequence) (sym h),
  )
]

pub claim_next-none : (s q : SupportQueue) → claim_next s ≡ (none, q) → q ≡ s
unfolding claim_next claimed_ticket
claim_next-none s q h = elim (Option-cases (get_nowait s.queue).0) [
  | inl empty ↦
      let same = get_nowait-none s.queue.entries s.queue.unfinished empty in
      sym (ap (λ p. p.1) h) ∙ ap (λ k. record s { queue = k }) same
  | inr (e, found) ↦ absurd (ground (arith, ap (λ p. p.0) h))
]

numbers-Inv :
    (s : System) (t : SupportTicket)
    → Inv s
    → Inv (record s {
      support = (next_number s.support).1;
      in_flight = s.in_flight ++ numbered (next_number s.support).0 t ∷ [];
      submitted = s.submitted ++ t ∷ [];
    })
unfolding next_number
numbers-Inv s t v = record {
  sequence = ground (arith, v.sequence, length-append s.submitted (t ∷ []));
  waiting = All-IsNumbered s.submitted t s.support.queue.entries v.waiting;
  on_the_way =
      All-append (IsNumbered (s.submitted ++ t ∷ [])) s.in_flight _
        (All-IsNumbered s.submitted t s.in_flight v.on_the_way)
        (
          (refl, ap (get_elem? (s.submitted ++ t ∷ [])) v.sequence ∙ get_elem?-last s.submitted t),
          tt,
        );
  kept =
      let e = numbered s.support.next_sequence t in
      let waiting = tickets s.support.queue.entries in
      subst (λ l. Perm l (s.submitted ++ t ∷ []))
        (append_assoc s.claimed (waiting ++ tickets s.in_flight) (t ∷ [])
          ∙ ap (◌++◌ s.claimed) (
              append_assoc waiting (tickets s.in_flight) (t ∷ [])
              ∙ ap (◌++◌ waiting) (sym (tickets-append s.in_flight (e ∷ [])))))
        (Perm.append_right (t ∷ []) v.kept);
}

eq-Perm : {xs ys : List SupportTicket} → xs ≡ ys → Perm xs ys
eq-Perm {xs} e = subst (Perm xs) e (Perm.refl xs)

tickets-put :
    (es xs ys : List (Entry SupportTicket)) (e : Entry SupportTicket)
    → Perm (tickets (es ++ e ∷ []) ++ tickets (xs ++ ys)) (tickets es ++ tickets (xs ++ e ∷ ys))
tickets-put es xs ys e =
    let rest = tickets (xs ++ ys) in
    let joined =
      ap (λ l. l ++ rest) (tickets-append es (e ∷ []))
      ∙ append_assoc (tickets es) (e.value ∷ []) rest in
    let split = ap (λ l. tickets es ++ (e.value ∷ l)) (tickets-append xs ys) in
    let merged = ap (◌++◌ (tickets es)) (sym (tickets-append xs (e ∷ ys))) in
    Perm.trans (eq-Perm (joined ∙ split)) (
      Perm.trans (Perm.append_left (tickets es) (Perm.symm (perm_middle (tickets xs) (tickets ys))))
        (eq-Perm merged))

puts-Inv :
    (s : System) (before after : List (Entry SupportTicket)) (e : Entry SupportTicket)
    → s.in_flight ≡ before ++ e ∷ after
    → Inv s
    → Inv (record s { support = put_ticket e s.support; in_flight = before ++ after })
unfolding put_ticket
puts-Inv s before after e h v =
    let waiting = tickets s.support.queue.entries in
    let (at_e, rest) =
      All-middle (IsNumbered s.submitted) before after e
        (subst (All (IsNumbered s.submitted)) h v.on_the_way) in
    record {
      sequence = v.sequence;
      waiting =
          All-append (IsNumbered s.submitted) s.support.queue.entries (e ∷ []) v.waiting (at_e, tt);
      on_the_way = rest;
      kept =
          Perm.trans
            (Perm.append_left s.claimed (tickets-put s.support.queue.entries before after e))
            (subst (λ l. Perm (s.claimed ++ (waiting ++ tickets l)) s.submitted) h v.kept);
    }

claims-Inv :
    (s : System) (t : SupportTicket) (q : SupportQueue)
    → claim_next s.support ≡ (some t, q)
    → Inv s
    → Inv (record s { support = q; claimed = s.claimed ++ t ∷ [] })
claims-Inv s t q h v =
    let (e, got, value, number) = claim_next-some s.support q t h in
    let (perm, least) =
      get_nowait-least s.support.queue.entries s.support.queue.unfinished e q.queue got in
    let (at_e, rest) =
      get_nowait-All (IsNumbered s.submitted) s.support.queue.entries s.support.queue.unfinished e
        q.queue got v.waiting in
    record {
      sequence = number ∙ v.sequence;
      waiting = rest;
      on_the_way = v.on_the_way;
      kept =
          let left = tickets q.queue.entries ++ tickets s.in_flight in
          let to_front =
            append_assoc s.claimed (t ∷ []) left ∙ ap (λ u. s.claimed ++ (u ∷ left)) (sym value) in
          let taken = Perm.append_right (tickets s.in_flight) (Perm.map (λ k. k.value) perm) in
          Perm.trans (eq-Perm to_front) (Perm.trans (Perm.append_left s.claimed taken) v.kept);
    }

pub task_done-entries :
    (s : SupportQueue)
    → ((task_done s).1.queue.entries ≡ s.queue.entries)
      × ((task_done s).1.next_sequence ≡ s.next_sequence)
unfolding task_done PriorityQueue.task_done
task_done-entries s = elim (zero_or_suc s.queue.unfinished) [
  | inl none_left ↦ (ground arith, ground arith)
  | inr (n, e) ↦ (ground arith, ground arith)
]

Step-Inv : {s t : System} → Step s t → Inv s → Inv t
Step-Inv {s} (numbers t) v = numbers-Inv s t v
Step-Inv {s} (puts before after e h) v = puts-Inv s before after e h v
Step-Inv {s} (claims {q} t h) v = claims-Inv s t q h v
Step-Inv {s} (finds_none {q} h) v =
    subst (λ k. Inv (record s { support = k })) (sym (claim_next-none s.support q h)) v
Step-Inv {s} finishes v =
    let (same, number) = task_done-entries s.support in
    record {
      sequence = number ∙ v.sequence;
      waiting = subst (All (IsNumbered s.submitted)) (sym same) v.waiting;
      on_the_way = v.on_the_way;
      kept =
          subst (λ es. Perm (s.claimed ++ (tickets es ++ tickets s.in_flight)) s.submitted)
            (sym same) v.kept;
    }

pub Reach-Inv : {s : System} → Reach start s → Inv s
Reach-Inv here = record { sequence = refl; waiting = tt; on_the_way = tt; kept = Perm.refl [] }
Reach-Inv (next r k) = Step-Inv k (Reach-Inv r)

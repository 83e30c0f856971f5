-- ===== src/Support/Distinct.antt =====
-- No two tickets have the same sequence number.
use python_concurrency_examp.Prelude.{
  ℕ, ◌+◌, ◌≤◌, ◌≡◌, ◌≢◌, refl, ap, sym, ◌∙◌, subst, some, List, [], ◌∷◌, ◌++◌, All, arith, sum_of,
  sum_of-append, sum_of-middle, nat_eq, if◌then◌else◌,
}
use mathlib.Core.List.{Perm, Permᴰ}
use mathlib.Core.Logic.{∥∥₁_elim}
use native.Mathlib.Nat.{ℕ_set}
use python_concurrency_examp.Python.PriorityQueue.{Entry}
use python_concurrency_examp.Python.PriorityQueue.Least.{get_nowait-least}
use python_concurrency_examp.Support.{
  SupportTicket, SupportQueue, next_number, numbered, put_ticket, claim_next, task_done,
}
use python_concurrency_examp.Support.System.{
  System, Step, numbers, puts, claims, finds_none, finishes, Reach, here, next, start,
}
use python_concurrency_examp.Support.Invariant.{claim_next-some, claim_next-none, task_done-entries}

-- 1 for an entry with the number k.
abbrev has_number : ℕ → Entry SupportTicket → ℕ
has_number k e = if nat_eq e.sequence k then 1 else 0

-- How many entries have the number k.
abbrev uses : ℕ → List (Entry SupportTicket) → ℕ
uses k es = sum_of (has_number k) es

Permᴰ-uses : (k : ℕ) {xs ys : List (Entry SupportTicket)} → Permᴰ xs ys → uses k xs ≡ uses k ys
Permᴰ-uses k Permᴰ.nil = refl
Permᴰ-uses k (Permᴰ.cons same p) = omega (arith, ap (has_number k) same, Permᴰ-uses k p)
Permᴰ-uses k (Permᴰ.swap same same') =
    omega (arith, ap (has_number k) same, ap (has_number k) same')
Permᴰ-uses k (Permᴰ.trans p q) = Permᴰ-uses k p ∙ Permᴰ-uses k q

Perm-uses : (k : ℕ) {xs ys : List (Entry SupportTicket)} → Perm xs ys → uses k xs ≡ uses k ys
Perm-uses k p = ∥∥₁_elim p (ℕ_set _ _) (Permᴰ-uses k)

-- Every number is there once at most, and the numbers that are still to be given are not there.
record Inv (s : System) : Type 0 where
  once : (k : ℕ) → uses k s.support.queue.entries + uses k s.in_flight ≤ 1
  unused :
      (k : ℕ)
      → s.support.next_sequence ≤ k
      → uses k s.support.queue.entries + uses k s.in_flight ≡ 0

numbers-Inv :
    (s : System) (t : SupportTicket)
    → Inv s
    → Inv (record s {
      support = (next_number s.support).1;
      in_flight = s.in_flight ++ numbered (next_number s.support).0 t ∷ [];
      submitted = s.submitted ++ t ∷ [];
    })
unfolding next_number
numbers-Inv s t v = record {
  once = λ k. ground (
    arith,
    v.once k,
    v.unused k,
    sum_of-append (has_number k) s.in_flight (numbered s.support.next_sequence t ∷ []),
  );
  unused = λ k h. ground (
    arith,
    v.unused k,
    sum_of-append (has_number k) s.in_flight (numbered s.support.next_sequence t ∷ []),
  );
}

puts-Inv :
    (s : System) (before after : List (Entry SupportTicket)) (e : Entry SupportTicket)
    → s.in_flight ≡ before ++ e ∷ after
    → Inv s
    → Inv (record s { support = put_ticket e s.support; in_flight = before ++ after })
unfolding put_ticket
puts-Inv s before after e h v =
    let same : (k : ℕ)
        → uses k (s.support.queue.entries ++ e ∷ []) + uses k (before ++ after)
          ≡ uses k s.support.queue.entries + uses k s.in_flight =
      λ k. omega (
        arith,
        ap (uses k) h,
        sum_of-append (has_number k) s.support.queue.entries (e ∷ []),
        sum_of-middle (has_number k) before after e,
      ) in
    record {
      once = λ k. omega (arith, same k, v.once k);
      unused = λ k later. omega (arith, same k, v.unused k later);
    }

-- What a claim takes out is counted once.
claimed_uses :
    (s q : SupportQueue) (t : SupportTicket)
    → claim_next s ≡ (some t, q)
    → (e : Entry SupportTicket) × (q.next_sequence ≡ s.next_sequence)
      × ((k : ℕ) → has_number k e + uses k q.queue.entries ≡ uses k s.queue.entries)
claimed_uses s q t h =
    let (e, got, value, number) = claim_next-some s q t h in
    let (perm, least) = get_nowait-least s.queue.entries s.queue.unfinished e q.queue got in
    (e, number, λ k. Perm-uses k perm)

claims-Inv :
    (s : System) (t : SupportTicket) (q : SupportQueue)
    → claim_next s.support ≡ (some t, q)
    → Inv s
    → Inv (record s { support = q; claimed = s.claimed ++ t ∷ [] })
claims-Inv s t q h v =
    let (e, number, count) = claimed_uses s.support q t h in
    record {
      once = λ k. omega (arith, count k, v.once k);
      unused = λ k later. omega (arith, count k, v.unused k (omega (arith, number, later)));
    }

finishes-Inv : (s : System) → Inv s → Inv (record s { support = (task_done s.support).1 })
finishes-Inv s v =
    let (same, number) = task_done-entries s.support in
    record {
      once = λ k. omega (arith, ap (uses k) same, v.once k);
      unused =
          λ k later. omega (arith, ap (uses k) same, v.unused k (omega (arith, number, later)));
    }

Step-Inv : {s t : System} → Step s t → Inv s → Inv t
Step-Inv {s} (numbers t) v = numbers-Inv s t v
Step-Inv {s} (puts before after e h) v = puts-Inv s before after e h v
Step-Inv {s} (claims {q} t h) v = claims-Inv s t q h v
Step-Inv {s} (finds_none {q} h) v =
    subst (λ k. Inv (record s { support = k })) (sym (claim_next-none s.support q h)) v
Step-Inv {s} finishes v = finishes-Inv s v

Reach-Inv : {s : System} → Reach start s → Inv s
Reach-Inv here = record { once = λ k. omega arith; unused = λ k h. omega arith }
Reach-Inv (next r k) = Step-Inv k (Reach-Inv r)

unused-All :
    (k : ℕ) (es : List (Entry SupportTicket)) → uses k es ≡ 0 → All (λ x. x.sequence ≢ k) es
unused-All k [] h = tt
unused-All k (e ∷ es) h = (ground (arith, h), unused-All k es (omega (arith, h)))

-- The other entries of a queue have other numbers than the one taken out.
pub Reach-distinct :
    {s : System} (e : Entry SupportTicket) (es : List (Entry SupportTicket))
    → Reach start s
    → Perm (e ∷ es) s.support.queue.entries
    → All (λ x. x.sequence ≢ e.sequence) es
Reach-distinct e es r perm =
    unused-All e.sequence es
      (ground (arith, Perm-uses e.sequence perm, (Reach-Inv r).once e.sequence))

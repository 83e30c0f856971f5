-- ===== src/Shipping/System.antt =====
-- asyncshippingqueue/queue.py: tasks that submit and dispatch, and the shipments that each call takes.
use python_concurrency_examp.Prelude.{
  ℕ, zero, suc, ◌≡◌, refl, ap, sym, ◌∙◌, subst, Bool, true, false, Option, none, some, List, [],
  ◌∷◌, ◌++◌, append_assoc, map, map-append, All, Star, Star-keeps, if◌then◌else◌,
}
use mathlib.Core.List.{Perm}
use mathlib.Core.List.Perm
use python_concurrency_examp.Prelude.Int.{ℤ, pos, leb_ℤ}
use python_concurrency_examp.Python.{Result, ok, err, value_error}
use python_concurrency_examp.Python.PriorityQueue.{
  Entry, PriorityQueue, extract, take_least, get_nowait,
}
use python_concurrency_examp.Python.PriorityQueue
use python_concurrency_examp.Python.PriorityQueue.Least.{NotAfter, get_nowait-least}
use python_concurrency_examp.Python.Queue.{Attempt, waits, ends}
use python_concurrency_examp.Shipping.{
  ShipmentJob, AsyncShippingQueue, create, numbered, submit, await_get, wait_for_get, negative,
  dispatch_next, task_done,
}

pub record System : Type 0 where
  pub shipping : AsyncShippingQueue
  pub submitted : List ShipmentJob
  pub dispatched : List ShipmentJob

-- A call of `dispatch_next` that gives no shipment, for now or for good.
abbrev pub GivesNone : Attempt (Option ShipmentJob) → Type 0
GivesNone waits = Unit {0}
GivesNone (ends (err e)) = Unit {0}
GivesNone (ends (ok none)) = Unit {0}
GivesNone (ends (ok (some j))) = ⊥

pub data Step (s : System) : System → Type 0 where
  submits :
      (j : ShipmentJob)
      → Step s (record s { shipping = submit j s.shipping; submitted = s.submitted ++ j ∷ [] })
  dispatches :
      {q : AsyncShippingQueue} (timeout : Option ℤ) (j : ShipmentJob)
      → dispatch_next timeout s.shipping ≡ (ends (ok (some j)), q)
      → Step s (record s { shipping = q; dispatched = s.dispatched ++ j ∷ [] })
  gets_none :
      {q : AsyncShippingQueue} (timeout : Option ℤ) (a : Attempt (Option ShipmentJob))
      → GivesNone a
      → dispatch_next timeout s.shipping ≡ (a, q)
      → Step s (record s { shipping = q })
  marks_done :
      {r : Result (Unit {0})} {q : AsyncShippingQueue}
      → task_done s.shipping ≡ (r, q)
      → Step s (record s { shipping = q })

-- What an attempt to get a shipment took out of the queue.
abbrev pub Took : Attempt (Option ShipmentJob) → AsyncShippingQueue → AsyncShippingQueue → Type 0
Took waits s t = s ≡ t
Took (ends (err e)) s t = s ≡ t
Took (ends (ok none)) s t = s ≡ t
Took (ends (ok (some j))) s t =
    (e : Entry ShipmentJob) × (e.value ≡ j)
    × Perm (e ∷ t.queue.entries) s.queue.entries
    × All (NotAfter e) t.queue.entries

await_get-Took :
    (es : List (Entry ShipmentJob)) (m k : ℕ)
    → (let s : AsyncShippingQueue = record {
      queue = record { entries = es; unfinished = m };
      next_sequence = k;
    } in
        Took (await_get s).0 s (await_get s).1)
unfolding await_get get_nowait take_least
await_get-Took [] m k = refl
await_get-Took (e ∷ es) m k =
    let (perm, first) =
      get_nowait-least (e ∷ es) m (extract e es).0
        (record { entries = (extract e es).1; unfinished = m }) refl in
    ((extract e es).0, refl, perm, first)

either_way :
    (c : Bool) (s : AsyncShippingQueue) (x y : Attempt (Option ShipmentJob) × AsyncShippingQueue)
    → Took x.0 s x.1
    → Took y.0 s y.1
    → Took (if c then x else y).0 s (if c then x else y).1
either_way true s x y h k = h
either_way false s x y h k = k

-- With any timeout, `dispatch_next` takes nothing but the shipment that it returns, which is one that
-- may go before all that stay.
pub dispatch_next-Took :
    (timeout : Option ℤ) (s : AsyncShippingQueue)
    → Took (dispatch_next timeout s).0 s (dispatch_next timeout s).1
unfolding dispatch_next wait_for_get
dispatch_next-Took none s = await_get-Took s.queue.entries s.queue.unfinished s.next_sequence
dispatch_next-Took (some t) s =
    either_way (negative (some t)) s (ends (err (value_error "timeout must not be negative")), s) _
      refl
      (either_way (leb_ℤ t (pos 0)) s (ends (ok none), s) (await_get s) refl
        (await_get-Took s.queue.entries s.queue.unfinished s.next_sequence))

abbrev jobs_of : AsyncShippingQueue → List ShipmentJob
jobs_of s = map (λ e. e.value) s.queue.entries

-- No shipment is lost or there twice.
abbrev IsConserved : System → Type 0
IsConserved s = Perm (s.dispatched ++ jobs_of s.shipping) s.submitted

dispatches-IsConserved :
    (s : System) (q : AsyncShippingQueue) (j : ShipmentJob)
    → Took (ends (ok (some j))) s.shipping q
    → IsConserved s
    → IsConserved (record s { shipping = q; dispatched = s.dispatched ++ j ∷ [] })
dispatches-IsConserved s q j (e, same, perm, first) kept =
    Perm.trans
      (subst (λ l. Perm l (s.dispatched ++ e.value ∷ jobs_of q))
        (ap (λ k. s.dispatched ++ k ∷ jobs_of q) same
          ∙ sym (append_assoc s.dispatched (j ∷ []) (jobs_of q)))
        (Perm.refl (s.dispatched ++ e.value ∷ jobs_of q)))
      (Perm.trans (Perm.append_left s.dispatched (Perm.map (λ x. x.value) perm)) kept)

Took-none :
    (a : Attempt (Option ShipmentJob)) (s t : AsyncShippingQueue) → GivesNone a → Took a s t → s ≡ t
Took-none waits s t g h = h
Took-none (ends (err e)) s t g h = h
Took-none (ends (ok none)) s t g h = h
Took-none (ends (ok (some j))) s t g h = absurd g

task_done_at-entries :
    (es : List (Entry ShipmentJob)) (m : ℕ)
    → (PriorityQueue.task_done (record { entries = es; unfinished = m })).1.entries ≡ es
unfolding PriorityQueue.task_done
task_done_at-entries es zero = refl
task_done_at-entries es (suc m) = refl

task_done-jobs_of : (s : AsyncShippingQueue) → jobs_of s ≡ jobs_of (task_done s).1
unfolding task_done
task_done-jobs_of s =
    ap (map (λ e. e.value)) (sym (task_done_at-entries s.queue.entries s.queue.unfinished))

Step-IsConserved : (s t : System) → Step s t → IsConserved s → IsConserved t
unfolding submit
Step-IsConserved s _ (submits j) kept =
    subst (λ l. Perm l (s.submitted ++ j ∷ []))
      (append_assoc s.dispatched (jobs_of s.shipping) (j ∷ [])
        ∙ ap (λ l. s.dispatched ++ l)
            (sym (
              map-append (λ e. e.value) s.shipping.queue.entries
                (numbered s.shipping.next_sequence j ∷ []))))
      (Perm.append_right (j ∷ []) kept)
Step-IsConserved s _ (dispatches {q} timeout j h) kept =
    dispatches-IsConserved s q j
      (subst (λ x. Took x.0 s.shipping x.1) h (dispatch_next-Took timeout s.shipping)) kept
Step-IsConserved s _ (gets_none {q} timeout a none_given h) kept =
    subst (λ k. IsConserved (record s { shipping = k }))
      (Took-none a s.shipping q none_given
        (subst (λ x. Took x.0 s.shipping x.1) h (dispatch_next-Took timeout s.shipping)))
      kept
Step-IsConserved s _ (marks_done {r} {q} h) kept =
    subst (λ l. Perm (s.dispatched ++ l) s.submitted)
      (task_done-jobs_of s.shipping ∙ ap (λ x. jobs_of x.1) h) kept

abbrev pub fresh : System
fresh = record { shipping = create; submitted = []; dispatched = [] }

-- In every state that tasks submitting, dispatching with any timeouts and marking shipments reach
-- from a new queue, the shipments dispatched and those in the queue are the ones submitted, each as
-- often.
run-conserves :
    (s : System) → Star Step fresh s → Perm (s.dispatched ++ jobs_of s.shipping) s.submitted
run-conserves s run = Star-keeps IsConserved Step-IsConserved (Perm.refl []) run

gives_one :
    (job : ShipmentJob) (es : List (Entry ShipmentJob)) (m k : ℕ)
    → (j : ShipmentJob) × (q : AsyncShippingQueue) × (dispatch_next none (
          submit job
            (record { queue = record { entries = es; unfinished = m }; next_sequence = k }))
        ≡ (ends (ok (some j)), q))
unfolding dispatch_next wait_for_get await_get submit get_nowait take_least
gives_one job [] m k = (_, _, refl)
gives_one job (e ∷ es) m k = (_, _, refl)

-- With a timeout of 0, `dispatch_next` returns None and leaves the queue even right after a `submit`,
-- where without a timeout it returns a shipment at once.
pub dispatch_next-zero :
    (job : ShipmentJob) (s : AsyncShippingQueue)
    → (dispatch_next (some (pos 0)) (submit job s) ≡ (ends (ok none), submit job s))
      × ((j : ShipmentJob) × (q : AsyncShippingQueue) × (dispatch_next none (submit job s)
            ≡ (ends (ok (some j)), q)))
unfolding dispatch_next wait_for_get await_get submit get_nowait
dispatch_next-zero job s = (refl, gives_one job s.queue.entries s.queue.unfinished s.next_sequence)

-- ===== src/Bounded/Invariant.antt =====
-- What every operation of the queue keeps.
use python_concurrency_examp.Prelude.{
  ℕ, ◌+◌, ◌≤◌, ◌<◌, ◌≡◌, refl, sym, ap, ◌∙◌, subst, ◌⊎◌, Option, sum_of, sum_of-append, inl, inr,
  Bool, true, false, [], ◌∷◌, ◌++◌, append-nil, append_assoc, arith, length, length-append,
  if◌then◌else◌,
}
use python_concurrency_examp.Prelude.Int.{ℤ, pos_part}
use python_concurrency_examp.Python.{Result, ok}
use python_concurrency_examp.Python.Queue
use python_concurrency_examp.Python.Queue.{Queue, Attempt, waits, ends, add}
use python_concurrency_examp.Python.Queue.Branches.{
  get_within-gives, put_within-adds, succeeded, task_done-counts,
}
use python_concurrency_examp.Bounded.{BoundedQueue, create, task_done, shutdown}
use python_concurrency_examp.Bounded.System.{System}

module _ {T : Type 0} where
  pub record Inv (n : ℕ) (s : System T) : Type 0 where
    pub order : s.returned ++ (s.work.queue.items ++ s.discarded) ≡ s.accepted
    pub last : (s.discarded ≡ []) ⊎ ((s.work.queue.items ≡ []) × (s.work.queue.is_shutdown ≡ true))
    pub sized : (s.work.queue.maxsize ≡ n) × (0 < n)
    pub within : length s.work.queue.items ≤ n
    pub covered :
        length s.returned + length s.work.queue.items
        ≤ s.work.queue.unfinished + sum_of succeeded s.marks

  abbrev pub fresh : BoundedQueue T → System T
  fresh b = record { work = b; accepted = []; returned = []; discarded = []; marks = [] }

  pub create-Inv : (n : ℤ) (b : BoundedQueue T) → create n ≡ ok b → Inv (pos_part n) (fresh b)
  unfolding create
  create-Inv n b made =
      let same : record { queue = Queue.new_queue (pos_part n) } ≡ b = ground (arith, made) in
      subst (λ k. Inv (pos_part n) (fresh k)) same
        (record {
          order = refl;
          last = inl refl;
          sized = (refl, ground (arith, made));
          within = omega arith;
          covered = omega arith;
        })

  all_pending :
      (s : System T)
      → s.discarded ≡ []
      → s.returned ++ (s.work.queue.items ++ s.discarded) ≡ s.accepted
      → s.returned ++ s.work.queue.items ≡ s.accepted
  all_pending s none_lost order =
      ap (λ l. s.returned ++ l)
        (sym (append-nil s.work.queue.items) ∙ ap (λ l. s.work.queue.items ++ l) (sym none_lost))
      ∙ order

  pub put-Inv :
      (n : ℕ) (s : System T) (x : T) (timeout : Option ℤ) (q : Queue T)
      → Queue.put_within x timeout s.work.queue ≡ (ends (ok tt), q)
      → Inv n s
      → Inv n (record s { work = record { queue = q }; accepted = s.accepted ++ x ∷ [] })
  put-Inv n s x timeout q h v =
      let (added, on, room) =
        put_within-adds x timeout s.work.queue q (omega (arith, v.sized.0, v.sized.1)) h in
      let none_lost : s.discarded ≡ [] = elim v.last [
        | inl none ↦ none
        | inr (a, off) ↦ absurd (ground (arith, on, off))
      ] in
      subst (λ k. Inv n (record s { work = record { queue = k }; accepted = s.accepted ++ x ∷ [] }))
        (sym added)
        (record {
          order =
              ap (λ l. s.returned ++ ((s.work.queue.items ++ x ∷ []) ++ l)) none_lost
              ∙ ap (λ l. s.returned ++ l) (append-nil (s.work.queue.items ++ x ∷ []))
              ∙ sym (append_assoc s.returned s.work.queue.items (x ∷ []))
              ∙ ap (λ l. l ++ x ∷ []) (all_pending s none_lost v.order);
          last = inl none_lost;
          sized = v.sized;
          within = omega (arith, room, v.sized.0, length-append s.work.queue.items (x ∷ []));
          covered = omega (arith, v.covered, length-append s.work.queue.items (x ∷ []));
        })

  pub get-Inv :
      (n : ℕ) (s : System T) (x : T) (timeout : Option ℤ) (q : Queue T)
      → Queue.get_within timeout s.work.queue ≡ (ends (ok x), q)
      → Inv n s
      → Inv n (record s { work = record { queue = q }; returned = s.returned ++ x ∷ [] })
  get-Inv n s x timeout q h v =
      let (front, rest) = get_within-gives timeout s.work.queue q x h in
      record {
        order =
            append_assoc s.returned (x ∷ []) (q.items ++ s.discarded)
            ∙ ap (λ l. s.returned ++ (l ++ s.discarded)) (sym front)
            ∙ v.order;
        last = elim v.last [
          | inl none ↦ inl none
          | inr (empty, off) ↦ absurd (omega (arith, ap length front, ap length empty))
        ];
        sized = (ap (λ k. k.maxsize) rest ∙ v.sized.0, v.sized.1);
        within = omega (arith, v.within, ap length front);
        covered = omega (
          arith,
          v.covered,
          ap length front,
          ap (λ k. k.unfinished) rest,
          length-append s.returned (x ∷ []),
        );
      }

  pub marks_done-Inv :
      (n : ℕ) (s : System T) (r : Result (Unit {0})) (w : BoundedQueue T)
      → task_done s.work ≡ (r, w)
      → Inv n s
      → Inv n (record s { work = w; marks = s.marks ++ r ∷ [] })
  unfolding task_done
  marks_done-Inv n s r w h v =
      let q = (Queue.task_done s.work.queue).1 in
      let (only, count) = task_done-counts s.work.queue in
      let result : (Queue.task_done s.work.queue).0 ≡ r = ap (λ x. x.0) h in
      let same : record { queue = record (s.work.queue) { unfinished = q.unfinished } } ≡ w =
        ap (λ x. record { queue = x }) (sym only) ∙ ap (λ x. x.1) h in
      subst (λ k. Inv n (record s { work = k; marks = s.marks ++ r ∷ [] })) same
        (record {
          order = v.order;
          last = v.last;
          sized = v.sized;
          within = v.within;
          covered = omega (
            arith,
            v.covered,
            count,
            ap succeeded result,
            sum_of-append succeeded s.marks (r ∷ []),
          );
        })

  pub shuts_down-Inv :
      (n : ℕ) (s : System T) (immediate : Bool)
      → Inv n s
      → Inv n (record s {
        work = shutdown immediate s.work;
        discarded = (if immediate then s.work.queue.items else []) ++ s.discarded;
      })
  unfolding shutdown Queue.shutdown
  shuts_down-Inv n s true v = record {
    order = v.order;
    last = inr (refl, refl);
    sized = v.sized;
    within = omega arith;
    covered = omega (arith, v.covered);
  }
  shuts_down-Inv n s false v = record {
    order = v.order;
    last = elim v.last [ inl none ↦ inl none | inr (empty, off) ↦ inr (empty, refl) ];
    sized = v.sized;
    within = v.within;
    covered = v.covered;
  }

  -- A call that left the inner queue as it was.
  pub unchanged :
      (n : ℕ) (s : System T) (w : BoundedQueue T)
      → s.work.queue ≡ w.queue
      → Inv n s
      → Inv n (record s { work = w })
  unchanged n s w same v = subst (λ q. Inv n (record s { work = record { queue = q } })) same v

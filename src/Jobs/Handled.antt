-- ===== src/Jobs/Handled.antt =====
-- asyncjobqueue/queue.py: the worker tasks take jobs and stop tokens, and handle the jobs.
use python_concurrency_examp.Prelude.{
  suc, ◌-◌, ◌<◌, ◌≡◌, refl, sym, ap, ◌∙◌, subst, true, List, [], ◌∷◌, ◌++◌, append-nil, arith,
  length, length-append, sum_of, sum_of-middle,
}
use mathlib.Core.Path.{subst₂}
use mathlib.Core.List.{Perm}
use mathlib.Core.List.Perm
use python_concurrency_examp.Python.{Result}
use python_concurrency_examp.Jobs.{
  Item, job, stop_token, Worker, waiting, handling, ended, all_ended, failure,
}
use python_concurrency_examp.Jobs.System.{Stopper, none_yet, joining, gathering, returned, System}
use python_concurrency_examp.Jobs.Kept.{
  busy, ends, jobs_in, tokens_in, busy-idle, length-busy, Perm-takes, Perm-finishes, errors_of,
  errors_of-append,
}
use python_concurrency_examp.Jobs.Invariant.{Phase, Inv}
use python_concurrency_examp.Jobs.Drained.{open_again}

-- A list that holds a worker is not empty.
middle-nonempty : {A : Type 0} (xs ys : List A) (x : A) → xs ++ x ∷ ys ≡ [] → ⊥
middle-nonempty [] ys x h = absurd (omega (arith, ap length h))
middle-nonempty (z ∷ xs) ys x h = absurd (omega (arith, ap length h))

middle-some : {A : Type 0} (xs ys : List A) (x : A) → 0 < length (xs ++ x ∷ ys)
middle-some xs ys x = omega (arith, length-append xs (x ∷ ys))

module _ {T : Type 0} where
  not_all_ended :
      (before after : List (Worker T)) → all_ended (before ++ waiting ∷ after) ≡ true → ⊥
  not_all_ended [] after h = ground arith
  not_all_ended (ended ∷ ws) after h = not_all_ended ws after h
  not_all_ended (waiting ∷ ws) after h = ground arith
  not_all_ended (handling j ∷ ws) after h = ground arith

  pub takes-Inv :
      (handler : T → Result (Unit {0})) (s : System T) (before after : List (Worker T)) (j : T)
      (rest : List (Item T))
      → s.jobs.workers ≡ before ++ waiting ∷ after
      → s.jobs.queue ≡ job j ∷ rest
      → Inv handler s
      → Inv handler (record s {
        jobs = record (s.jobs) { workers = before ++ handling j ∷ after; queue = rest };
      })
  takes-Inv handler s before after j rest at front v =
      let some : jobs_in s.jobs.queue ≡ [] → ⊥ =
        λ h. absurd (omega (arith, ap length h, ap (λ q. length (jobs_in q)) front)) in
      record {
        kept = Perm.trans (Perm-takes before after j (jobs_in rest) s.handled) (
            subst₂ (λ ws q. Perm (s.handled ++ (busy ws ++ jobs_in q)) s.submitted) at front
              v.kept);
        counted = omega (
          arith,
          v.counted,
          ap length front,
          ap (λ ws. length (busy ws)) at,
          length-busy before after (handling j),
          length-busy before after waiting,
        );
        errors = v.errors;
        phase =
            open_again s.stopper s.jobs.queue rest s.jobs.workers (before ++ handling j ∷ after)
              (λ h k. some h) (ap tokens_in front)
              (omega (
                arith,
                ap (sum_of ends) at,
                sum_of-middle ends before after waiting,
                sum_of-middle ends before after (handling j),
              ))
              v.phase;
        crewed = (v.crewed.0, λ h. middle-some before after _);
        not_stopping = v.not_stopping;
        not_started = λ h.
            (let (none, b, c) = v.not_started h in
              absurd (middle-nonempty before after waiting (sym at ∙ none)));
      }

  pub finishes-Inv :
      (handler : T → Result (Unit {0})) (s : System T) (before after : List (Worker T)) (j : T)
      → s.jobs.workers ≡ before ++ handling j ∷ after
      → Inv handler s
      → Inv handler (record s {
        jobs = record (s.jobs) {
          workers = before ++ waiting ∷ after;
          failures = s.jobs.failures ++ failure (handler j);
          unfinished = s.jobs.unfinished - 1;
        };
        handled = s.handled ++ j ∷ [];
      })
  finishes-Inv handler s before after j at v =
      let some : length (busy s.jobs.workers) ≡ suc (length (busy (before ++ waiting ∷ after))) =
        omega (
          arith,
          ap (λ ws. length (busy ws)) at,
          length-busy before after (handling j),
          length-busy before after waiting,
        ) in
      record {
        kept = Perm.trans (Perm-finishes before after j (jobs_in s.jobs.queue) s.handled) (
            subst (λ ws. Perm (s.handled ++ (busy ws ++ jobs_in s.jobs.queue)) s.submitted) at
              v.kept);
        counted = omega (arith, v.counted, some);
        errors =
            ap (λ l. l ++ failure (handler j)) v.errors
            ∙ sym (
                errors_of-append handler s.handled (j ∷ [])
                ∙ ap (◌++◌ (errors_of handler s.handled)) (append-nil (failure (handler j))));
        phase =
            open_again s.stopper s.jobs.queue s.jobs.queue s.jobs.workers
              (before ++ waiting ∷ after) (λ h k. absurd (omega (arith, some, ap length k))) refl
              (omega (
                arith,
                ap (sum_of ends) at,
                sum_of-middle ends before after waiting,
                sum_of-middle ends before after (handling j),
              ))
              v.phase;
        crewed = (v.crewed.0, λ h. middle-some before after _);
        not_stopping = v.not_stopping;
        not_started = λ h.
            (let (none, b, c) = v.not_started h in
              absurd (middle-nonempty before after (handling j) (sym at ∙ none)));
      }

  ended-Phase :
      (p : Stopper) (before after : List (Worker T)) (rest : List (Item T))
      → Phase p (stop_token ∷ rest) (before ++ waiting ∷ after)
      → Phase p rest (before ++ ended ∷ after)
  ended-Phase none_yet before after rest (a, b) = absurd (omega (arith, a))
  ended-Phase joining before after rest (a, b) = absurd (omega (arith, a))
  ended-Phase gathering before after rest (a, b, c) = (
    a,
    busy-idle before after ended waiting refl ∙ b,
    omega (
      arith,
      c,
      sum_of-middle ends before after waiting,
      sum_of-middle ends before after ended,
      length-append before (waiting ∷ after),
      length-append before (ended ∷ after),
    ),
  )
  ended-Phase returned before after rest (a, b, c, d) = absurd (not_all_ended before after d)

  pub takes_stop-Inv :
      (handler : T → Result (Unit {0})) (s : System T) (before after : List (Worker T))
      (rest : List (Item T))
      → s.jobs.workers ≡ before ++ waiting ∷ after
      → s.jobs.queue ≡ stop_token ∷ rest
      → Inv handler s
      → Inv handler (record s {
        jobs = record (s.jobs) {
          workers = before ++ ended ∷ after;
          queue = rest;
          unfinished = s.jobs.unfinished - 1;
        };
      })
  takes_stop-Inv handler s before after rest at front v =
      let same : busy s.jobs.workers ≡ busy (before ++ ended ∷ after) =
        ap busy at ∙ busy-idle before after waiting ended refl in
      record {
        kept = subst₂ (λ l q. Perm (s.handled ++ (l ++ jobs_in q)) s.submitted) same front v.kept;
        counted = omega (arith, v.counted, ap length front, ap length same);
        errors = v.errors;
        phase =
            ended-Phase s.stopper before after rest
              (subst₂ (λ q ws. Phase s.stopper q ws) front at v.phase);
        crewed = (v.crewed.0, λ h. middle-some before after _);
        not_stopping = v.not_stopping;
        not_started = λ h.
            (let (none, b, c) = v.not_started h in
              absurd (middle-nonempty before after waiting (sym at ∙ none)));
      }

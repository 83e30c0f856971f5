-- ===== src/Jobs/Invariant.antt =====
-- The queue however producers, workers and the stopping task interleave.
use python_concurrency_examp.Prelude.{
  ℕ, ◌+◌, ◌<◌, ◌≡◌, refl, sym, ap, ◌∙◌, subst, inl, inr, true, false, List, [], ◌∷◌, ◌++◌,
  append_assoc, arith, length, length-append, sum_of, Bool-cases,
}
use mathlib.Core.List.{Perm}
use mathlib.Core.List.Perm
use python_concurrency_examp.Prelude.Int.{ℤ, pos_part}
use python_concurrency_examp.Python.{Result, ok, err, Exc}
use python_concurrency_examp.Jobs.{
  AsyncJobQueue, Item, job, Worker, waiting, create, start, submit, begin_stop, put, all_ended,
  replicate,
}
use python_concurrency_examp.Jobs.System.{Stopper, none_yet, joining, gathering, returned, System}
use python_concurrency_examp.Jobs.Kept.{
  busy, ends, jobs_in, tokens_in, jobs_in-append, tokens_in-append, busy-replicate, ends-replicate,
  length-replicate, errors_of,
}

module _ {T : Type 0} where
  -- The stop tokens and the workers that have ended, by what the stopping task waits for.
  abbrev pub Phase : Stopper → List (Item T) → List (Worker T) → Type 0
  Phase none_yet q ws = (tokens_in q ≡ 0) × (sum_of ends ws ≡ 0)
  Phase joining q ws = (tokens_in q ≡ 0) × (sum_of ends ws ≡ 0)
  Phase gathering q ws =
      (jobs_in q ≡ []) × (busy ws ≡ []) × (tokens_in q + sum_of ends ws ≡ length ws)
  Phase returned q ws =
      (jobs_in q ≡ [])
      × (busy ws ≡ [])
      × (tokens_in q + sum_of ends ws ≡ length ws)
      × (all_ended ws ≡ true)

  pub record Inv (handler : T → Result (Unit {0})) (s : System T) : Type 0 where
    pub kept : Perm (s.handled ++ (busy s.jobs.workers ++ jobs_in s.jobs.queue)) s.submitted
    pub counted : s.jobs.unfinished ≡ length s.jobs.queue + length (busy s.jobs.workers)
    pub errors : s.jobs.failures ≡ errors_of handler s.handled
    pub phase : Phase s.stopper s.jobs.queue s.jobs.workers
    pub crewed :
        (0 < pos_part s.jobs.worker_count) × (s.jobs.started ≡ true → 0 < length s.jobs.workers)
    pub not_stopping : s.jobs.stopping ≡ false → s.stopper ≡ none_yet
    pub not_started :
        s.jobs.started ≡ false
        → (s.jobs.workers ≡ []) × (s.jobs.queue ≡ []) × (s.stopper ≡ none_yet)

  abbrev pub fresh : AsyncJobQueue T → System T
  fresh q = record { jobs = q; stopper = none_yet; submitted = []; handled = [] }

  create-positive : (n : ℤ) (q : AsyncJobQueue T) → create n ≡ ok q → 0 < pos_part n
  unfolding create
  create-positive n q made = ground arith

  pub create-Inv :
      (handler : T → Result (Unit {0})) (n : ℤ) (q : AsyncJobQueue T)
      → create n ≡ ok q
      → Inv handler (fresh q)
  unfolding create
  create-Inv handler n q made =
      let empty : AsyncJobQueue T = record {
        worker_count = n;
        queue = [];
        unfinished = 0;
        workers = [];
        started = false;
        stopping = false;
        failures = [];
      } in
      let e : empty ≡ q = ground arith in
      subst (λ k. Inv handler (fresh k)) e
        (record {
          kept = Perm.refl [];
          counted = omega arith;
          errors = refl;
          phase = (refl, refl);
          crewed = (create-positive n q made, λ h. ground arith);
          not_stopping = λ h. refl;
          not_started = λ h. (refl, refl, refl);
        })

  started-Inv :
      (handler : T → Result (Unit {0})) (s : System T) (n : ℕ)
      → 0 < n
      → s.jobs.workers ≡ []
      → s.jobs.queue ≡ []
      → s.stopper ≡ none_yet
      → Inv handler s
      → Inv handler
          (record s { jobs = record (s.jobs) { started = true; workers = replicate n waiting } })
  started-Inv handler s n some no_workers empty none v = record {
    kept =
        subst (λ l. Perm (s.handled ++ (l ++ jobs_in s.jobs.queue)) s.submitted)
          (ap busy no_workers ∙ sym (busy-replicate n)) v.kept;
    counted = omega (
      arith,
      v.counted,
      ap (λ l. length (busy l)) no_workers,
      ap length (busy-replicate {T = T} n),
    );
    errors = v.errors;
    phase =
        subst (λ p. Phase p s.jobs.queue (replicate n waiting)) (sym none)
          (ap tokens_in empty, ends-replicate T n);
    crewed = (v.crewed.0, λ h. omega (arith, some, length-replicate T n));
    not_stopping = v.not_stopping;
    not_started = λ e. cc;
  }

  pub starts-Inv :
      (handler : T → Result (Unit {0})) (s : System T) (r : Result (Unit {0})) (q : AsyncJobQueue T)
      → start s.jobs ≡ (r, q)
      → Inv handler s
      → Inv handler (record s { jobs = q })
  unfolding start
  starts-Inv handler s r q h v = elim (Bool-cases s.jobs.started) [
    | inl again ↦
        let e : s.jobs ≡ q = ground arith in subst (λ k. Inv handler (record s { jobs = k })) e v
    | inr first ↦
        let (no_workers, empty, none) = v.not_started first in
        let n = pos_part s.jobs.worker_count in
        let e : record (s.jobs) { started = true; workers = replicate n waiting } ≡ q =
          ground arith in
        subst (λ k. Inv handler (record s { jobs = k })) e
          (started-Inv handler s n v.crewed.0 no_workers empty none v)
  ]

  submitted-Inv :
      (handler : T → Result (Unit {0})) (s : System T) (j : T)
      → s.jobs.started ≡ true
      → s.stopper ≡ none_yet
      → Inv handler s
      → Inv handler (record s { jobs = put (job j) s.jobs; submitted = s.submitted ++ j ∷ [] })
  submitted-Inv handler s j on none v =
      let (tokens, none_ended) = subst (λ p. Phase p s.jobs.queue s.jobs.workers) none v.phase in
      record {
        kept =
            subst (λ l. Perm l (s.submitted ++ j ∷ []))
              (append_assoc s.handled (busy s.jobs.workers ++ jobs_in s.jobs.queue) (j ∷ [])
                ∙ ap (◌++◌ s.handled) (
                    append_assoc (busy s.jobs.workers) (jobs_in s.jobs.queue) (j ∷ [])
                    ∙ ap (◌++◌ (busy s.jobs.workers))
                        (sym (jobs_in-append s.jobs.queue (job j ∷ [])))))
              (Perm.append_right (j ∷ []) v.kept);
        counted = omega (arith, v.counted, length-append s.jobs.queue (job j ∷ []));
        errors = v.errors;
        phase =
            subst (λ p. Phase p (s.jobs.queue ++ job j ∷ []) s.jobs.workers) (sym none)
              (omega (arith, tokens, tokens_in-append s.jobs.queue (job j ∷ [])), none_ended);
        crewed = v.crewed;
        not_stopping = v.not_stopping;
        not_started = λ e. cc;
      }

  pub submits-Inv :
      (handler : T → Result (Unit {0})) (s : System T) (j : T) (q : AsyncJobQueue T)
      → submit j s.jobs ≡ (ok tt, q)
      → Inv handler s
      → Inv handler (record s { jobs = q; submitted = s.submitted ++ j ∷ [] })
  unfolding submit
  submits-Inv handler s j q h v =
      let accepting : s.jobs.stopping ≡ false = ground arith in
      let on : s.jobs.started ≡ true = ground arith in
      let e : put (job j) s.jobs ≡ q = ground arith in
      subst (λ k. Inv handler (record s { jobs = k; submitted = s.submitted ++ j ∷ [] })) e
        (submitted-Inv handler s j on (v.not_stopping accepting) v)

  pub submit-refused : (j : T) (x : Exc) (p q : AsyncJobQueue T) → submit j p ≡ (err x, q) → p ≡ q
  unfolding submit
  submit-refused j x p q h = ground arith

  pub stops-Inv :
      (handler : T → Result (Unit {0})) (s : System T) (q : AsyncJobQueue T)
      → begin_stop s.jobs ≡ (true, q)
      → Inv handler s
      → Inv handler (record s { jobs = q; stopper = joining })
  unfolding begin_stop
  stops-Inv handler s q h v =
      let first : s.jobs.stopping ≡ false = ground arith in
      let on : s.jobs.started ≡ true = ground arith in
      let e : record (s.jobs) { stopping = true } ≡ q = ground arith in
      let none = v.not_stopping first in
      subst (λ k. Inv handler (record s { jobs = k; stopper = joining })) e
        (record {
          kept = v.kept;
          counted = v.counted;
          errors = v.errors;
          phase = subst (λ p. Phase p s.jobs.queue s.jobs.workers) none v.phase;
          crewed = v.crewed;
          not_stopping = λ h. cc;
          not_started = λ h. cc;
        })

  pub stop-refused : (p q : AsyncJobQueue T) → begin_stop p ≡ (false, q) → p ≡ q
  unfolding begin_stop
  stop-refused p q h = ground arith

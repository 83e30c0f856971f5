-- ===== src/Jobs/Drained.antt =====
-- asyncjobqueue/queue.py: the queue in every state that a run reaches, and what `stop` leaves.
use python_concurrency_examp.Prelude.{
  suc, ◌+◌, ◌≡◌, refl, sym, ap, ◌∙◌, subst, true, List, [], ◌∷◌, ◌++◌, append_assoc, append-nil,
  arith, length, length-append, sum_of, length-zero, zero_test,
}
use mathlib.Core.List.{Perm}
use python_concurrency_examp.Python.{Result}
use python_concurrency_examp.Jobs.{
  AsyncJobQueue, Item, stop_token, Worker, joined, put, put_stop_tokens, all_ended,
}
use python_concurrency_examp.Jobs.System.{Stopper, none_yet, joining, gathering, returned, System}
use python_concurrency_examp.Jobs.Kept.{busy, ends, jobs_in, tokens_in}
use python_concurrency_examp.Jobs.Invariant.{Phase, Inv}

module _ {T : Type 0} where
  -- What `put_stop_tokens` adds to the queue.
  abbrev pub tokens : List (Worker T) → List (Item T)
  tokens [] = []
  tokens (w ∷ ws) = stop_token ∷ tokens ws

  pub put_stop_tokens_lem :
      (ws : List (Worker T)) (q : AsyncJobQueue T)
      → put_stop_tokens ws q
        ≡ record q { queue = q.queue ++ tokens ws; unfinished = q.unfinished + length ws }
  put_stop_tokens_lem [] q =
      ap (λ l. record q { queue = l }) (sym (append-nil q.queue))
      ∙ ap (λ n. record q { queue = q.queue ++ []; unfinished = n }) (omega arith)
  put_stop_tokens_lem (w ∷ ws) q =
      put_stop_tokens_lem ws (put stop_token q)
      ∙ ap (λ l. record q { queue = l; unfinished = suc q.unfinished + length ws })
          (append_assoc q.queue (stop_token ∷ []) (tokens ws))
      ∙ ap (λ n. record q { queue = q.queue ++ stop_token ∷ tokens ws; unfinished = n })
          (omega arith)

  jobs_in-tokens : (ws : List (Worker T)) → jobs_in (tokens ws) ≡ []
  jobs_in-tokens [] = refl
  jobs_in-tokens (w ∷ ws) = jobs_in-tokens ws

  tokens_in-tokens : (ws : List (Worker T)) → tokens_in (tokens ws) ≡ length ws
  tokens_in-tokens [] = refl
  tokens_in-tokens (w ∷ ws) = omega (arith, tokens_in-tokens ws)

  pub length-tokens : (ws : List (Worker T)) → length (tokens ws) ≡ length ws
  length-tokens [] = refl
  length-tokens (w ∷ ws) = omega (arith, length-tokens ws)

  joined-zero : (q : AsyncJobQueue T) → joined q ≡ true → q.unfinished ≡ 0
  joined-zero q h = zero_test q.unfinished h

  pub drained-Inv :
      (handler : T → Result (Unit {0})) (s : System T)
      → s.stopper ≡ joining
      → joined s.jobs ≡ true
      → Inv handler s
      → Inv handler (record s { jobs = put_stop_tokens s.jobs.workers s.jobs; stopper = gathering })
  drained-Inv handler s joins over v =
      let none_left = joined-zero s.jobs over in
      let empty : s.jobs.queue ≡ [] =
        length-zero s.jobs.queue (omega (arith, v.counted, none_left)) in
      let idle : busy s.jobs.workers ≡ [] =
        length-zero (busy s.jobs.workers) (omega (arith, v.counted, none_left)) in
      let (no_tokens, none_ended) =
        subst (λ p. Phase p s.jobs.queue s.jobs.workers) joins v.phase in
      let ts = tokens s.jobs.workers in
      let no_jobs : jobs_in (s.jobs.queue ++ ts) ≡ [] =
        ap (λ l. jobs_in (l ++ ts)) empty ∙ jobs_in-tokens s.jobs.workers in
      let queued : tokens_in (s.jobs.queue ++ ts) ≡ length s.jobs.workers =
        ap (λ l. tokens_in (l ++ ts)) empty ∙ tokens_in-tokens s.jobs.workers in
      subst (λ k. Inv handler (record s { jobs = k; stopper = gathering }))
        (sym (put_stop_tokens_lem s.jobs.workers s.jobs))
        (record {
          kept =
              subst (λ l. Perm (s.handled ++ (busy s.jobs.workers ++ l)) s.submitted)
                (ap jobs_in empty ∙ sym no_jobs) v.kept;
          counted = omega (
            arith,
            v.counted,
            none_left,
            length-append s.jobs.queue ts,
            length-tokens s.jobs.workers,
          );
          errors = v.errors;
          phase = (no_jobs, idle, omega (arith, queued, none_ended));
          crewed = v.crewed;
          not_stopping = λ h. (let same = v.not_stopping h in cc);
          not_started = λ h. (let (a, b, same) = v.not_started h in cc);
        })

  pub gathered-Inv :
      (handler : T → Result (Unit {0})) (s : System T)
      → s.stopper ≡ gathering
      → all_ended s.jobs.workers ≡ true
      → Inv handler s
      → Inv handler (record s { stopper = returned })
  gathered-Inv handler s waits over v =
      let (no_jobs, idle, all) = subst (λ p. Phase p s.jobs.queue s.jobs.workers) waits v.phase in
      record {
        kept = v.kept;
        counted = v.counted;
        errors = v.errors;
        phase = (no_jobs, idle, all, over);
        crewed = v.crewed;
        not_stopping = λ h. (let same = v.not_stopping h in cc);
        not_started = λ h. (let (a, b, same) = v.not_started h in cc);
      }

  -- A step on a job comes before the end of the drain, whose phases it keeps.
  pub open_again :
      (p : Stopper) (q q' : List (Item T)) (ws ws' : List (Worker T))
      → (jobs_in q ≡ [] → busy ws ≡ [] → ⊥)
      → tokens_in q ≡ tokens_in q'
      → sum_of ends ws ≡ sum_of ends ws'
      → Phase p q ws
      → Phase p q' ws'
  open_again none_yet q q' ws ws' some et ee (a, b) = (sym et ∙ a, sym ee ∙ b)
  open_again joining q q' ws ws' some et ee (a, b) = (sym et ∙ a, sym ee ∙ b)
  open_again gathering q q' ws ws' some et ee (a, b, c) = absurd (some a b)
  open_again returned q q' ws ws' some et ee (a, b, c, d) = absurd (some a b)

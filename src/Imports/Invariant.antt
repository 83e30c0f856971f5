-- ===== src/Imports/Invariant.antt =====
-- What holds of the processes and the collector however they interleave.
use python_concurrency_examp.Prelude.{
  ℕ, ◌≡◌, refl, sym, ap, ◌∙◌, subst, false, List, [], ◌∷◌, ◌++◌, ◌==◌, map, append-nil,
  append_assoc, arith, All, All-replace, sum_of, sum_of-middle, map-append, map-replace, Star,
  Star-keeps,
}
use python_concurrency_examp.Python.{ok}
use python_concurrency_examp.Imports.{
  ImportJob, ImportJobEvent, Message, event, worker_finished, run_import_job,
}
use python_concurrency_examp.Imports.Worker.{script, run_import_job_lem}
use python_concurrency_examp.Imports.System.{
  Worker, System, start_process, start_collect, handle_message, Step, puts, gets, killed,
}
use python_concurrency_examp.Imports.Merged.{
  Merge, nothing, one_more, event_list, finishes, event_list-append, finishes-append,
}

abbrev pub job_of : Worker → ImportJob
job_of w = w.job

abbrev pub got : Worker → List ImportJobEvent
got w = event_list w.received

abbrev pub ends_got : Worker → ℕ
ends_got w = finishes w.received

-- Everything that the worker has put or will put, or would have, is its script.
abbrev pub IsWhole : Worker → Type 0
IsWhole w = w.received ++ (w.queued ++ (w.pending ++ w.lost)) ≡ script w.job

pub record Inv (jobs : List ImportJob) (ws : List Worker) (collected : List ImportJobEvent)
    (finished : ℕ) : Type 0 where
  pub jobs_kept : map job_of ws ≡ jobs
  pub whole : All IsWhole ws
  pub counted : finished ≡ sum_of ends_got ws
  pub merged : Merge (map got ws) collected

abbrev pub SystemInv : List ImportJob → System → Type 0
SystemInv jobs s = Inv jobs s.workers s.collected_events s.finished_workers

-- The job of a worker that is replaced stays, and so does what the collector has got from it.
replace-Inv :
    (jobs : List ImportJob) (before after : List Worker) (w w' : Worker) (c : List ImportJobEvent)
    (n : ℕ)
    → w'.job ≡ w.job
    → w'.received ≡ w.received
    → (IsWhole w → IsWhole w')
    → Inv jobs (before ++ w ∷ after) c n
    → Inv jobs (before ++ w' ∷ after) c n
replace-Inv jobs before after w w' c n same_job same keeps v = record {
  jobs_kept = map-replace job_of before after w w' same_job ∙ v.jobs_kept;
  whole = All-replace IsWhole before after w w' keeps v.whole;
  counted = omega (
    arith,
    v.counted,
    sum_of-middle ends_got before after w,
    sum_of-middle ends_got before after w',
    ap finishes same,
  );
  merged =
      subst (λ l. Merge l c) (sym (map-replace got before after w w' (ap event_list same)))
        v.merged;
}

puts-IsWhole :
    (w : Worker) (m : Message) (rest : List Message)
    → w.pending ≡ m ∷ rest
    → IsWhole w
    → IsWhole (record w { queued = w.queued ++ m ∷ []; pending = rest })
puts-IsWhole w m rest h v =
    ap (◌++◌ w.received) (
      append_assoc w.queued (m ∷ []) (rest ++ w.lost) ∙ ap (λ l. w.queued ++ (l ++ w.lost)) (sym h))
    ∙ v

gets-IsWhole :
    (w : Worker) (m : Message) (rest : List Message)
    → w.queued ≡ m ∷ rest
    → IsWhole w
    → IsWhole (record w { received = w.received ++ m ∷ []; queued = rest })
gets-IsWhole w m rest h v =
    append_assoc w.received (m ∷ []) (rest ++ (w.pending ++ w.lost))
    ∙ ap (λ l. w.received ++ (l ++ (w.pending ++ w.lost))) (sym h)
    ∙ v

gets-Inv :
    (jobs : List ImportJob) (before after : List Worker) (w : Worker) (m : Message)
    (rest : List Message) (s : System)
    → w.queued ≡ m ∷ rest
    → Inv jobs (before ++ w ∷ after) s.collected_events s.finished_workers
    → SystemInv jobs (
        handle_message m (record s {
          workers = before ++ record w { received = w.received ++ m ∷ []; queued = rest } ∷ after;
        }))
gets-Inv jobs before after w (event e) rest s h v =
    let w' : Worker = record w { received = w.received ++ event e ∷ []; queued = rest } in
    record {
      jobs_kept = map-replace job_of before after w w' refl ∙ v.jobs_kept;
      whole = All-replace IsWhole before after w w' (gets-IsWhole w (event e) rest h) v.whole;
      counted = omega (
        arith,
        v.counted,
        sum_of-middle ends_got before after w,
        sum_of-middle ends_got before after w',
        finishes-append w.received (event e ∷ []),
      );
      merged =
          subst (λ l. Merge l (s.collected_events ++ e ∷ []))
            (ap (λ k. map got before ++ k ∷ map got after)
                (sym (event_list-append w.received (event e ∷ [])))
              ∙ sym (map-append got before (w' ∷ after)))
            (one_more (map got before) (map got after) (got w) e (
              subst (λ l. Merge l s.collected_events) (map-append got before (w ∷ after))
                v.merged));
    }
gets-Inv jobs before after w (worker_finished j) rest s h v =
    let w' : Worker = record w { received = w.received ++ worker_finished j ∷ []; queued = rest } in
    record {
      jobs_kept = map-replace job_of before after w w' refl ∙ v.jobs_kept;
      whole =
          All-replace IsWhole before after w w' (gets-IsWhole w (worker_finished j) rest h) v.whole;
      counted = omega (
        arith,
        v.counted,
        sum_of-middle ends_got before after w,
        sum_of-middle ends_got before after w',
        finishes-append w.received (worker_finished j ∷ []),
      );
      merged =
          subst (λ l. Merge l s.collected_events)
            (sym (
              map-replace got before after w w'
                (event_list-append w.received (worker_finished j ∷ []) ∙ append-nil (got w))))
            v.merged;
    }

pub Step-Inv :
    (jobs : List ImportJob) (s t : System) → Step s t → SystemInv jobs s → SystemInv jobs t
Step-Inv jobs s t (puts before after w m rest h p) v =
    replace-Inv jobs before after w (record w { queued = w.queued ++ m ∷ []; pending = rest })
      s.collected_events s.finished_workers refl refl (puts-IsWhole w m rest p)
      (subst (λ l. Inv jobs l s.collected_events s.finished_workers) h v)
Step-Inv jobs s t (gets before after w m rest test h q) v =
    gets-Inv jobs before after w m rest s q
      (subst (λ l. Inv jobs l s.collected_events s.finished_workers) h v)
Step-Inv jobs s t (killed before after w h) v =
    replace-Inv jobs before after w (record w { pending = []; lost = w.pending ++ w.lost })
      s.collected_events s.finished_workers refl refl (λ k. k)
      (subst (λ l. Inv jobs l s.collected_events s.finished_workers) h v)

abbrev pub IsNamed : ImportJob → Type 0
IsNamed job = (job.job_id == "") ≡ false

start_process-IsWhole : (job : ImportJob) → IsNamed job → IsWhole (start_process job)
unfolding start_process
start_process-IsWhole job h =
    append-nil (run_import_job job []).1 ∙ ap (λ r. r.1) (run_import_job_lem job [] h)

start-jobs : (jobs : List ImportJob) → map job_of (map start_process jobs) ≡ jobs
unfolding start_process
start-jobs [] = refl
start-jobs (job ∷ jobs) = ap (◌∷◌ job) (start-jobs jobs)

start-IsWhole : (jobs : List ImportJob) → All IsNamed jobs → All IsWhole (map start_process jobs)
start-IsWhole [] h = tt
start-IsWhole (job ∷ jobs) h = (start_process-IsWhole job h.0, start-IsWhole jobs h.1)

start-counted : (jobs : List ImportJob) → 0 ≡ sum_of ends_got (map start_process jobs)
unfolding start_process
start-counted [] = refl
start-counted (job ∷ jobs) = omega (arith, start-counted jobs)

start-nothing : (jobs : List ImportJob) → All (λ xs. xs ≡ []) (map got (map start_process jobs))
unfolding start_process
start-nothing [] = tt
start-nothing (job ∷ jobs) = (refl, start-nothing jobs)

start-Inv : (jobs : List ImportJob) → All IsNamed jobs → Inv jobs (map start_process jobs) [] 0
start-Inv jobs h = record {
  jobs_kept = start-jobs jobs;
  whole = start-IsWhole jobs h;
  counted = start-counted jobs;
  merged = nothing (start-nothing jobs);
}

pub Reach-Inv :
    (jobs : List ImportJob) (s t : System)
    → All IsNamed jobs
    → start_collect jobs ≡ ok s
    → Star Step s t
    → SystemInv jobs t
unfolding start_collect
Reach-Inv jobs s t named made run =
    Star-keeps (SystemInv jobs) (Step-Inv jobs)
      (subst (SystemInv jobs) (ground arith) (start-Inv jobs named)) run

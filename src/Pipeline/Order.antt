-- ===== src/Pipeline/Order.antt =====
-- Every reachable pipeline: its invariant, and the results against the documents submitted.
use python_concurrency_examp.Prelude.{
  ◌≡◌, sym, ap, ◌∙◌, inl, inr, true, false, List, [], ◌∷◌, ◌++◌, append-nil, append_assoc, arith,
  subst, is_empty, Bool-cases,
}
use mathlib.Core.Bool.{false≢true}
use python_concurrency_examp.Python.{ok, err, Exc}
use python_concurrency_examp.Pipeline.{
  DocumentFailure, DocumentPipeline, Item, item, sentinel, Stage, Worker, put_first, start_workers,
  all_stopped, create, submit, close,
}
use python_concurrency_examp.Pipeline.System.{
  Work, take, advance, finish, fail, pass_on, stop, later, System, Step, accepts, refuses, closes,
  works, Reach, here, next, start,
}
use python_concurrency_examp.Pipeline.Flow.{
  outcomes, outputs, pending, Work-pending, pending-put_first, outcomes-append,
  pending-start_workers,
}
use python_concurrency_examp.Pipeline.Shutdown.{
  Open, Closing, Work-Open, Work-Closing, start_workers-Open, put_first-Open, put_first-Closing,
  all_stopped-pending,
}

module _ {A : Type 0} where
  -- One worker for each stage.
  abbrev pub Matches : List (Stage A) → List (Worker A) → Type 0
  Matches [] [] = Unit
  Matches [] (w ∷ ws) = ⊥
  Matches (f ∷ fs) [] = ⊥
  Matches (f ∷ fs) (w ∷ ws) = Matches fs ws

  pub Work-Matches :
      {fs : List (Stage A)} {ws ws' : List (Worker A)} {r : List A} {e : List (DocumentFailure A)}
      → Work fs ws ws' r e
      → Matches fs ws
      → Matches fs ws'
  Work-Matches (take a h q) m = m
  Work-Matches (advance h g) m = m
  Work-Matches (finish h g) m = m
  Work-Matches (fail h g) m = m
  Work-Matches (pass_on h) m = m
  Work-Matches (stop h) m = m
  Work-Matches (later k) m = Work-Matches k m

  start_workers-Matches : (fs : List (Stage A)) → Matches fs (start_workers fs)
  start_workers-Matches [] = tt
  start_workers-Matches (f ∷ fs) = start_workers-Matches fs

  put_first-Matches :
      (fs : List (Stage A)) (ws : List (Worker A)) (x : Item A)
      → Matches fs ws
      → Matches fs (put_first x ws)
  put_first-Matches [] [] x m = tt
  put_first-Matches [] (w ∷ ws) x m = m
  put_first-Matches (f ∷ fs) [] x m = m
  put_first-Matches (f ∷ fs) (w ∷ ws) x m = m

  -- The invariant over the stages `fs`.
  pub record Inv (fs : List (Stage A)) (s : System A) : Type 0 where
    pub some_stage : is_empty fs ≡ false
    pub matches : Matches fs s.pipeline.workers
    pub opened : s.pipeline.closed ≡ false → Open s.pipeline.workers
    pub closing : s.pipeline.closed ≡ true → Closing s.pipeline.workers
    pub flow : s.pipeline.results ++ pending fs s.pipeline.workers ≡ outcomes fs s.submitted

  create-Inv : (fs : List (Stage A)) (p : DocumentPipeline A) → create fs ≡ ok p → Inv fs (start p)
  unfolding create
  create-Inv fs p made =
      let e : p
          ≡ record { workers = start_workers fs; closed = false; results = []; failures = [] } =
        ground arith in
      subst (λ q. Inv fs (start q)) (sym e)
        (record {
          some_stage = ground arith;
          matches = start_workers-Matches fs;
          opened = λ _. start_workers-Open fs;
          closing = λ h. absurd (false≢true h);
          flow = pending-start_workers fs;
        })

  submit-accepted :
      (d : A) (p q : DocumentPipeline A)
      → submit d p ≡ (ok tt, q)
      → (p.closed ≡ false) × (q ≡ record p { workers = put_first (item d d) p.workers })
  unfolding submit
  submit-accepted d p q h = (ground arith, ground arith)

  submit-refused : (d : A) (p q : DocumentPipeline A) (e : Exc) → submit d p ≡ (err e, q) → q ≡ p
  unfolding submit
  submit-refused d p q e h = ground arith

  flow-put_first :
      (fs : List (Stage A)) (ws : List (Worker A)) (x : Item A)
      → is_empty fs ≡ false
      → Matches fs ws
      → pending fs (put_first x ws) ≡ pending fs ws ++ outputs fs (x ∷ [])
  flow-put_first [] ws x n m = cc
  flow-put_first (f ∷ fs) [] x n m = absurd m
  flow-put_first (f ∷ fs) (w ∷ ws) x n m = pending-put_first f fs w ws x

  accepted-Inv :
      (fs : List (Stage A)) (s : System A) (d : A)
      → Inv fs s
      → s.pipeline.closed ≡ false
      → Inv fs (record {
        pipeline = record (s.pipeline) { workers = put_first (item d d) s.pipeline.workers };
        submitted = s.submitted ++ d ∷ [];
      })
  accepted-Inv fs s d v still_open =
      let p = s.pipeline in
      record {
        some_stage = v.some_stage;
        matches = put_first-Matches fs p.workers (item d d) v.matches;
        opened = λ h. put_first-Open d d p.workers (v.opened h);
        closing = λ h. absurd (false≢true (sym still_open ∙ h));
        flow =
            ap (◌++◌ p.results) (flow-put_first fs p.workers (item d d) v.some_stage v.matches)
            ∙ sym (append_assoc p.results (pending fs p.workers) (outcomes fs (d ∷ [])))
            ∙ ap (λ o. o ++ outcomes fs (d ∷ [])) v.flow
            ∙ sym (outcomes-append fs s.submitted (d ∷ []));
      }

  closed-Inv :
      (fs : List (Stage A)) (s : System A)
      → Inv fs s
      → Inv fs (record s { pipeline = close s.pipeline })
  unfolding close
  closed-Inv fs s v = elim (Bool-cases s.pipeline.closed) [
    | inl already ↦ subst (λ q. Inv fs (record s { pipeline = q })) (ground arith) v
    | inr first ↦
        let p = s.pipeline in
        subst (λ q. Inv fs (record s { pipeline = q })) (ground arith) (closing_now first)
  ]
    where
      closing_now :
          s.pipeline.closed ≡ false
          → Inv fs (record s {
            pipeline = record (s.pipeline) {
              closed = true;
              workers = put_first sentinel s.pipeline.workers;
            };
          })
      closing_now first = record {
        some_stage = v.some_stage;
        matches = put_first-Matches fs s.pipeline.workers sentinel v.matches;
        opened = λ h. absurd (false≢true (sym h));
        closing = λ h. put_first-Closing s.pipeline.workers (v.opened first);
        flow =
            ap (◌++◌ s.pipeline.results) (
              flow-put_first fs s.pipeline.workers sentinel v.some_stage v.matches
              ∙ append-nil (pending fs s.pipeline.workers))
            ∙ v.flow;
      }

  pub Step-Inv : (fs : List (Stage A)) {s t : System A} → Step fs s t → Inv fs s → Inv fs t
  Step-Inv fs {s} (accepts {p} d e) v =
      let (still_open, same) = submit-accepted d s.pipeline p e in
      subst (λ q. Inv fs (record { pipeline = q; submitted = s.submitted ++ d ∷ [] })) (sym same)
        (accepted-Inv fs s d v still_open)
  Step-Inv fs {s} (refuses {p} d x e) v =
      subst (λ q. Inv fs (record s { pipeline = q })) (sym (submit-refused d s.pipeline p x e)) v
  Step-Inv fs {s} closes v = closed-Inv fs s v
  Step-Inv fs {s} (works {ws} {r} k) v = record {
    some_stage = v.some_stage;
    matches = Work-Matches k v.matches;
    opened = λ h. Work-Open k (v.opened h);
    closing = λ h. Work-Closing k (v.closing h);
    flow =
        append_assoc s.pipeline.results r (pending fs ws)
        ∙ ap (◌++◌ s.pipeline.results) (Work-pending k)
        ∙ v.flow;
  }

  pub Reach-Inv :
      (fs : List (Stage A)) (p : DocumentPipeline A) {s : System A}
      → create fs ≡ ok p
      → Reach fs (start p) s
      → Inv fs s
  Reach-Inv fs p made here = create-Inv fs p made
  Reach-Inv fs p made (next r st) = Step-Inv fs st (Reach-Inv fs p made r)

  -- However the stage workers and the callers interleave, the results recorded and then the outputs
  -- of what is still inside are the outputs of the accepted documents in the order of submission,
  -- where a document that some stage refuses has no output.
  Reach-pending :
      (fs : List (Stage A)) (p : DocumentPipeline A) {s : System A}
      → create fs ≡ ok p
      → Reach fs (start p) s
      → s.pipeline.results ++ pending fs s.pipeline.workers ≡ outcomes fs s.submitted
  Reach-pending fs p made reach = (Reach-Inv fs p made reach).flow

  -- Once the pipeline is closed and `close` finds all workers stopped, the results are the outputs
  -- of all accepted documents, in the order of submission.
  pub Reach-results :
      (fs : List (Stage A)) (p : DocumentPipeline A) {s : System A}
      → create fs ≡ ok p
      → Reach fs (start p) s
      → s.pipeline.closed ≡ true
      → all_stopped s.pipeline.workers ≡ true
      → s.pipeline.results ≡ outcomes fs s.submitted
  Reach-results fs p {s} made reach closed stopped =
      let v = Reach-Inv fs p made reach in
      sym (append-nil s.pipeline.results)
      ∙ ap (◌++◌ s.pipeline.results)
          (sym (all_stopped-pending fs s.pipeline.workers (v.closing closed) stopped))
      ∙ v.flow

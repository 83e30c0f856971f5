-- ===== src/Pipeline/System.antt =====
-- The steps of the stage workers, and of the callers that submit and close.
use python_concurrency_examp.Prelude.{◌≡◌, true, false, none, some, List, [], ◌∷◌, ◌++◌}
use python_concurrency_examp.Python.{ok, err, Exc}
use python_concurrency_examp.Pipeline.{
  DocumentFailure, Item, item, sentinel, Stage, Worker, DocumentPipeline, put, submit, close,
}

-- One step of `_run_stage` in one worker, with the results and failures that it records. `advance`
-- and `finish` are `_forward_item`, `pass_on` and `stop` are `_forward_sentinel` and the return.
pub data Work {A : Type 0}
    : List (Stage A)
      → List (Worker A)
      → List (Worker A)
      → List A
      → List (DocumentFailure A)
      → Type 0 where
  take :
      {f : Stage A} {fs : List (Stage A)} {w : Worker A} {ws : List (Worker A)} {x : Item A}
      {q : List (Item A)}
      → w.alive ≡ true
      → w.held ≡ none
      → w.queue ≡ x ∷ q
      → Work (f ∷ fs) (w ∷ ws) (record w { held = some x; queue = q } ∷ ws) [] []
  advance :
      {f g : Stage A} {fs : List (Stage A)} {w v : Worker A} {ws : List (Worker A)} {o c d : A}
      → w.held ≡ some (item o c)
      → f.run c ≡ ok d
      → Work (f ∷ g ∷ fs) (w ∷ v ∷ ws) (record w { held = none } ∷ put (item o d) v ∷ ws) [] []
  finish :
      {f : Stage A} {w : Worker A} {o c d : A}
      → w.held ≡ some (item o c)
      → f.run c ≡ ok d
      → Work (f ∷ []) (w ∷ []) (record w { held = none } ∷ []) (d ∷ []) []
  fail :
      {f : Stage A} {fs : List (Stage A)} {w : Worker A} {ws : List (Worker A)} {o c : A} {e : Exc}
      → w.held ≡ some (item o c)
      → f.run c ≡ err e
      → Work
          (f ∷ fs)
          (w ∷ ws)
          (record w { held = none } ∷ ws)
          []
          (record { document = o; stage = f.name; error = e } ∷ [])
  pass_on :
      {f g : Stage A} {fs : List (Stage A)} {w v : Worker A} {ws : List (Worker A)}
      → w.held ≡ some sentinel
      → Work
          (f ∷ g ∷ fs)
          (w ∷ v ∷ ws)
          (record w { held = none; alive = false } ∷ put sentinel v ∷ ws)
          []
          []
  stop :
      {f : Stage A} {w : Worker A}
      → w.held ≡ some sentinel
      → Work (f ∷ []) (w ∷ []) (record w { held = none; alive = false } ∷ []) [] []
  later :
      {f : Stage A} {fs : List (Stage A)} {w : Worker A} {ws ws' : List (Worker A)} {r : List A}
      {e : List (DocumentFailure A)}
      → Work fs ws ws' r e
      → Work (f ∷ fs) (w ∷ ws) (w ∷ ws') r e

-- The pipeline and the documents that it has accepted so far, in order.
pub record System (A : Type 0) : Type 0 where
  pub pipeline : DocumentPipeline A
  pub submitted : List A

pub data Step {A : Type 0} (fs : List (Stage A)) (s : System A) : System A → Type 0 where
  accepts :
      {p : DocumentPipeline A} (document : A)
      → submit document s.pipeline ≡ (ok tt, p)
      → Step fs s (record { pipeline = p; submitted = s.submitted ++ document ∷ [] })
  refuses :
      {p : DocumentPipeline A} (document : A) (e : Exc)
      → submit document s.pipeline ≡ (err e, p)
      → Step fs s (record s { pipeline = p })
  closes : Step fs s (record s { pipeline = close s.pipeline })
  works :
      {ws : List (Worker A)} {r : List A} {e : List (DocumentFailure A)}
      → Work fs s.pipeline.workers ws r e
      → Step fs s (record s {
        pipeline = record (s.pipeline) {
          workers = ws;
          results = s.pipeline.results ++ r;
          failures = s.pipeline.failures ++ e;
        };
      })

-- A step of a stage worker, with no call of `submit` or `close`.
pub data WorkerStep {A : Type 0} (fs : List (Stage A)) (s : System A) : System A → Type 0 where
  moves :
      {ws : List (Worker A)} {r : List A} {e : List (DocumentFailure A)}
      → Work fs s.pipeline.workers ws r e
      → WorkerStep fs s (record s {
        pipeline = record (s.pipeline) {
          workers = ws;
          results = s.pipeline.results ++ r;
          failures = s.pipeline.failures ++ e;
        };
      })

pub data Reach {A : Type 0} (fs : List (Stage A)) (s : System A) : System A → Type 0 where
  here : Reach fs s s
  next : {t u : System A} → Reach fs s t → Step fs t u → Reach fs s u

abbrev pub start : {A : Type 0} → DocumentPipeline A → System A
start p = record { pipeline = p; submitted = [] }

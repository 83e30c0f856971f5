-- ===== src/Pipeline/Tests.antt =====
-- A run of a pipeline of two stages, and its theorems at that run.
use python_concurrency_examp.Prelude.{
  ℕ, zero, suc, ◌+◌, ◌≡◌, ◌<◌, refl, true, false, none, some, List, [], ◌∷◌, Star,
}
use python_concurrency_examp.Python.{Result, ok, err, value_error, runtime_error}
use python_concurrency_examp.Pipeline.{
  DocumentPipeline, Item, item, sentinel, Stage, Worker, create, submit, close, start_workers,
  all_stopped,
}
use python_concurrency_examp.Pipeline.System.{
  Work, take, advance, finish, fail, pass_on, stop, later, System, WorkerStep, accepts, closes,
  works, Reach, here, next, start,
}
use python_concurrency_examp.Pipeline.Flow.{outcomes}
use python_concurrency_examp.Pipeline.Order.{Reach-results}
use python_concurrency_examp.Pipeline.Progress.{close-drains, steps_left, Work-steps_left}

-- A parser that refuses 0, and a publisher.
abbrev parse : ℕ → Result ℕ
parse zero = err (value_error "empty")
parse (suc n) = ok n

abbrev publish : ℕ → Result ℕ
publish n = ok (n + 100)

abbrev stages : List (Stage ℕ)
stages = record { name = "parse"; run = parse } ∷ record { name = "publish"; run = publish } ∷ []

abbrev stages_none : List (Stage ℕ)
stages_none = []

abbrev fresh : DocumentPipeline ℕ
fresh = record { workers = start_workers stages; closed = false; results = []; failures = [] }

created : create stages ≡ ok fresh
unfolding create
created = refl

no_stages : create stages_none ≡ err (value_error "stages must not be empty")
unfolding create
no_stages = refl

refused :
    (submit 1 (record fresh { closed = true })).0
    ≡ err (runtime_error "document pipeline is closed")
unfolding submit
refused = refl

abbrev idle : Worker ℕ
idle = record { held = none; queue = []; alive = true }

abbrev gone : Worker ℕ
gone = record { held = none; queue = []; alive = false }

-- Two documents accepted, then closed.
abbrev closed_state : System ℕ
closed_state = record {
  pipeline = record fresh {
    closed = true;
    workers = record idle { queue = item 0 0 ∷ item 5 5 ∷ sentinel ∷ [] } ∷ idle ∷ [];
  };
  submitted = 0 ∷ 5 ∷ [];
}

to_closed : Reach stages (start fresh) closed_state
unfolding submit close
to_closed = next (next (next here (accepts 0 refl)) (accepts 5 refl)) closes

-- The first document fails in the first stage, the second one goes through both.
abbrev final_state : System ℕ
final_state = record {
  pipeline = record {
    workers = gone ∷ gone ∷ [];
    closed = true;
    results = 104 ∷ [];
    failures = record { document = 0; stage = "parse"; error = value_error "empty" } ∷ [];
  };
  submitted = 0 ∷ 5 ∷ [];
}

abbrev take_next :
    {f : Stage ℕ} {fs : List (Stage ℕ)} {x : Item ℕ} {q : List (Item ℕ)} {ws : List (Worker ℕ)}
    → Work
        (f ∷ fs)
        (record idle { queue = x ∷ q } ∷ ws)
        (record idle { held = some x; queue = q } ∷ ws)
        []
        []
take_next = take refl refl refl

to_final : Reach stages (start fresh) final_state
to_final =
    next
      (next
        (next
          (next
            (next
              (next
                (next
                  (next (next (next (to_closed) (works take_next)) (works (fail refl refl)))
                    (works take_next))
                  (works (advance refl refl)))
                (works take_next))
              (works (pass_on refl)))
            (works (later take_next)))
          (works (later (finish refl refl))))
        (works (later take_next)))
      (works (later (stop refl)))

Reach-results_example : final_state.pipeline.results ≡ outcomes stages (0 ∷ 5 ∷ [])
Reach-results_example = Reach-results stages fresh created to_final refl refl

close-drains_example :
    (t : System ℕ) × Star (WorkerStep stages) closed_state t
    × (all_stopped t.pipeline.workers ≡ true)
    × (t.submitted ≡ 0 ∷ 5 ∷ [])
    × (t.pipeline.results ≡ 104 ∷ [])
close-drains_example = close-drains stages fresh created to_closed refl

Work-steps_left_example :
    steps_left stages (record idle { held = some (item 5 5) } ∷ idle ∷ [])
    < steps_left stages (record idle { queue = item 5 5 ∷ [] } ∷ idle ∷ [])
Work-steps_left_example =
    Work-steps_left {fs = stages} {ws = record idle { queue = item 5 5 ∷ [] } ∷ idle ∷ []} take_next

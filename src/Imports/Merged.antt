-- ===== src/Imports/Merged.antt =====
-- Interleavings of lists, and the suffix of a list that ends in the message of a finished worker.
use python_concurrency_examp.Prelude.{
  ℕ, suc, ◌+◌, ◌≤◌, ◌≡◌, refl, ap, List, [], ◌∷◌, ◌++◌, map, arith, All,
}
use python_concurrency_examp.Imports.{ImportJob, ImportJobEvent, Message, event, worker_finished}

-- `Merge xss ys`: the list `ys` is an interleaving of the lists `xss`, built from its end.
pub data Merge {A : Type 0} : List (List A) → List A → Type 0 where
  nothing : {xss : List (List A)} → All (λ xs. xs ≡ []) xss → Merge xss []
  one_more :
      (before after : List (List A)) (xs : List A) (x : A) {ys : List A}
      → Merge (before ++ xs ∷ after) ys
      → Merge (before ++ (xs ++ x ∷ []) ∷ after) (ys ++ x ∷ [])

abbrev pub event_list : List Message → List ImportJobEvent
event_list [] = []
event_list (event e ∷ ms) = e ∷ event_list ms
event_list (worker_finished j ∷ ms) = event_list ms

abbrev pub finishes : List Message → ℕ
finishes [] = 0
finishes (event e ∷ ms) = finishes ms
finishes (worker_finished j ∷ ms) = suc (finishes ms)

pub event_list-append :
    (xs ys : List Message) → event_list (xs ++ ys) ≡ event_list xs ++ event_list ys
event_list-append [] ys = refl
event_list-append (event e ∷ xs) ys = ap (◌∷◌ e) (event_list-append xs ys)
event_list-append (worker_finished j ∷ xs) ys = event_list-append xs ys

pub finishes-append : (xs ys : List Message) → finishes (xs ++ ys) ≡ finishes xs + finishes ys
finishes-append [] ys = omega arith
finishes-append (event e ∷ xs) ys = finishes-append xs ys
finishes-append (worker_finished j ∷ xs) ys = omega (arith, finishes-append xs ys)

-- The messages of a worker: events, and at the end that it has finished.
abbrev pub ended : List ImportJobEvent → ImportJob → List Message
ended es job = map event es ++ worker_finished job.job_id ∷ []

pub finishes-ended : (es : List ImportJobEvent) (job : ImportJob) → finishes (ended es job) ≡ 1
finishes-ended [] job = refl
finishes-ended (e ∷ es) job = finishes-ended es job

pub event_list-ended : (es : List ImportJobEvent) (job : ImportJob) → event_list (ended es job) ≡ es
event_list-ended [] job = refl
event_list-ended (e ∷ es) job = ap (◌∷◌ e) (event_list-ended es job)

-- What comes after the message that a worker has finished is nothing.
pub ended-split :
    (es : List ImportJobEvent) (job : ImportJob) (xs ys : List Message)
    → xs ++ ys ≡ ended es job
    → finishes xs ≡ 1
    → ys ≡ []
ended-split [] job [] ys h one = absurd (omega (arith, one))
ended-split [] job (x ∷ []) ys h one = cc
ended-split [] job (x ∷ y ∷ xs) ys h one = cc
ended-split (e ∷ es) job [] ys h one = absurd (omega (arith, one))
ended-split (e ∷ es) job (event x ∷ xs) ys h one = ended-split es job xs ys (cc) one
ended-split (e ∷ es) job (worker_finished j ∷ xs) ys h one = cc

pub ended-rest :
    (es : List ImportJobEvent) (job : ImportJob) (xs ys : List Message)
    → xs ++ ys ≡ ended es job
    → finishes xs ≤ 1
ended-rest es job xs ys h =
    omega (arith, finishes-append xs ys, ap finishes h, finishes-ended es job)

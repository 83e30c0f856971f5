-- ===== src/Review.antt =====
-- asyncreviewbatch/review.py: the async twin of the batch approval. Tasks of one event loop run one
-- at a time between awaits, and each `async with self._condition:` body is one atomic step.
pub mod Agreement
mod Tests
use python_concurrency_examp.Prelude.{
  ℕ, suc, String, Bool, true, false, not, Option, none, some, List, [], ◌∷◌, ◌==◌, if◌then◌else◌,
  any, is_empty,
}
use python_concurrency_examp.Prelude.Int.{ℤ, pos, ltb_ℤ, leb_ℤ}
use python_concurrency_examp.Python.{
  Result, ok, err, Exc, value_error, not_required_error, Exec, pure, gets, raise_if, modify, ◌>>=◌,
  ◌>>◌, check,
}
use python_concurrency_examp.Python.StrSet.{StrSet, mem, add, from_list, subset, difference}

pub record AsyncReviewBatch : Type 0 where
  pub required_reviewers : StrSet
  pub approved_reviewers : StrSet
  pub notifications : ℕ

-- `__init__`
pub create : List String → Result AsyncReviewBatch
create required_reviewers =
    let reviewers = from_list required_reviewers in
    check (is_empty reviewers) (value_error "required_reviewers must not be empty") (
      check (any (λ reviewer. reviewer == "") reviewers)
        (value_error "reviewer names must not be empty")
        (ok
          (record { required_reviewers = reviewers; approved_reviewers = []; notifications = 0 })))

-- `_is_approved`
unfoldable pub holds : AsyncReviewBatch → Bool
holds b = subset b.required_reviewers b.approved_reviewers

pub approve : String → Exec AsyncReviewBatch Bool
approve reviewer = do
  raise_if (reviewer == "") (value_error "reviewer name must not be empty")
  raise_if (not (← gets (λ b. mem reviewer b.required_reviewers))) (not_required_error reviewer)
  seen ← gets (λ b. mem reviewer b.approved_reviewers)
  if seen then pure false else do
    modify (λ b. record b { approved_reviewers = add reviewer b.approved_reviewers })
    modify (λ b. record b { notifications = suc b.notifications })
    pure true

pub is_approved : Exec AsyncReviewBatch Bool
is_approved = gets holds

pub approved_by : Exec AsyncReviewBatch StrSet
approved_by = gets (λ b. b.approved_reviewers)

pub remaining_reviewers : Exec AsyncReviewBatch StrSet
remaining_reviewers = gets (λ b. difference b.required_reviewers b.approved_reviewers)

-- The calls of `approve` that other tasks make while a waiter is suspended.
pub run : List String → AsyncReviewBatch → AsyncReviewBatch
run [] b = b
run (reviewer ∷ rs) b = run rs (approve reviewer b).1

-- How a wait ends: it returns, raises, or the task is still suspended.
pub data Waited : Type 0 where
  returns : Bool → Waited
  raises : Exc → Waited
  suspended : Waited

-- `await self._condition.wait_for(self._is_approved)` while other tasks call `approve`. At the end
-- of `rs` the timeout expires, if there is one, and `except TimeoutError` returns False.
sleep : Option ℤ → List String → AsyncReviewBatch → Waited × AsyncReviewBatch
sleep none [] b = (if holds b then returns true else suspended, b)
sleep (some t) [] b = (if holds b then returns true else returns false, b)
sleep timeout (reviewer ∷ rs) b =
    let woken = sleep timeout rs (approve reviewer b).1 in
    if holds b then (returns true, b) else woken

-- The `try`, with `asyncio.wait_for` where there is a timeout: with one that is not positive, it
-- cancels the inner wait before that begins, and raises TimeoutError.
await_wait_for : Option ℤ → List String → AsyncReviewBatch → Waited × AsyncReviewBatch
unfolding sleep
await_wait_for none rs b = sleep none rs b
await_wait_for (some t) rs b =
    let slept = sleep (some t) rs b in if leb_ℤ t (pos 0) then (returns false, b) else slept

negative : Option ℤ → Bool
negative none = false
negative (some t) = ltb_ℤ t (pos 0)

pub wait_until_approved : Option ℤ → List String → AsyncReviewBatch → Waited × AsyncReviewBatch
unfolding await_wait_for negative
wait_until_approved timeout rs b =
    if negative timeout
    then (raises (value_error "timeout must not be negative"), b)
    else if holds b
    then (returns true, b)
    else await_wait_for timeout rs b

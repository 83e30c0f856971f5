-- ===== src/Approval.antt =====
-- batchapproval/approval.py: required reviewers behind a condition variable. Each `with
-- self._condition:` body is one atomic step; a waiter sleeps between two of them.
pub mod Reviewers
pub mod Waiting
mod Tests
use python_concurrency_examp.Prelude.{
  ℕ, suc, String, Bool, true, false, not, Option, none, some, List, [], ◌∷◌, ◌==◌, if◌then◌else◌,
  any, is_empty,
}
use python_concurrency_examp.Python.{
  Result, ok, err, value_error, not_required_error, Exec, pure, raise, gets, raise_if, modify,
  ◌>>=◌, ◌>>◌, check,
}
use python_concurrency_examp.Python.StrSet.{StrSet, mem, add, from_list, subset, difference}

-- `notifications` counts the calls of `notify_all` on the condition.
pub record BatchApproval : Type 0 where
  pub required_reviewers : StrSet
  pub approved_reviewers : StrSet
  pub notifications : ℕ

-- `__init__`
pub create : List String → Result BatchApproval
create required_reviewers =
    let reviewers = from_list required_reviewers in
    check (is_empty reviewers) (value_error "required_reviewers must not be empty") (
      check (any (λ reviewer. reviewer == "") reviewers)
        (value_error "reviewer names must not be empty")
        (ok
          (record { required_reviewers = reviewers; approved_reviewers = []; notifications = 0 })))

-- `_is_approved`
unfoldable pub holds : BatchApproval → Bool
holds b = subset b.required_reviewers b.approved_reviewers

unfoldable pub approve : String → Exec BatchApproval Bool
approve reviewer = do
  raise_if (reviewer == "") (value_error "reviewer name must not be empty")
  raise_if (not (← gets (λ b. mem reviewer b.required_reviewers))) (not_required_error reviewer)
  seen ← gets (λ b. mem reviewer b.approved_reviewers)
  if seen then pure false else do
    modify (λ b. record b { approved_reviewers = add reviewer b.approved_reviewers })
    modify (λ b. record b { notifications = suc b.notifications })
    pure true

pub is_approved : Exec BatchApproval Bool
is_approved = gets holds

unfoldable pub approved_by : Exec BatchApproval StrSet
approved_by = gets (λ b. b.approved_reviewers)

pub remaining_reviewers : Exec BatchApproval StrSet
remaining_reviewers = gets (λ b. difference b.required_reviewers b.approved_reviewers)

-- What happens while a waiter sleeps: another thread calls `approve`.
unfoldable pub run : List String → BatchApproval → BatchApproval
run [] b = b
run (reviewer ∷ rs) b = run rs (approve reviewer b).1

-- `Condition.wait_for` as `wait_until_approved` uses it: test the predicate; while it fails, sleep
-- until the next call of `approve` notifies, and test again. At the end of `rs` the timeout
-- expires, if there is one; without one the waiter still sleeps, which is `none`.
pub wait_until_approved : Bool → List String → BatchApproval → Option Bool × BatchApproval
wait_until_approved has_timeout [] b =
    (if holds b then some true else if has_timeout then some false else none, b)
wait_until_approved has_timeout (reviewer ∷ rs) b =
    let woken = wait_until_approved has_timeout rs (approve reviewer b).1 in
    if holds b then (some true, b) else woken

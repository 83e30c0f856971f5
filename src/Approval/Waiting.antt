-- ===== src/Approval/Waiting.antt =====
-- The waiters of the batch: when they return, and when they are notified.
use python_concurrency_examp.Prelude.{
  suc, String, ◌≡◌, refl, Bool, true, false, some, none, List, [], ◌∷◌, arith, if◌then◌else◌, inl,
  inr,
}
use python_concurrency_examp.Python.StrSet.{StrSet, add, subset, subset-mem, subset-cases, mem-add}
use python_concurrency_examp.Approval.{BatchApproval, holds, approve, run, wait_until_approved}

subset-add : (r : String) (s t : StrSet) → subset s t ≡ true → subset s (add r t) ≡ true
subset-add r s t all = elim (subset-cases s (add r t)) [
  | inl covered ↦ covered
  | inr (q, there, lacks) ↦ ground (arith, mem-add r q t, subset-mem q s t all there)
]

-- An approved batch stays approved.
pub holds-approve : (r : String) (b : BatchApproval) → holds b ≡ true → holds (approve r b).1 ≡ true
unfolding holds approve
holds-approve r b h = ground (arith, subset-add r b.required_reviewers b.approved_reviewers h)

holds-run : (rs : List String) (b : BatchApproval) → holds b ≡ true → holds (run rs b) ≡ true
unfolding run
holds-run [] b h = h
holds-run (r ∷ rs) b h = holds-run rs (approve r b).1 (holds-approve r b h)

-- A call of `approve` that makes the batch approved notifies the waiters.
pub approve-notifies :
    (r : String) (b : BatchApproval)
    → holds b ≡ false
    → holds (approve r b).1 ≡ true
    → (approve r b).1.notifications ≡ suc b.notifications
unfolding holds approve
approve-notifies r b before after = ground arith

-- Whatever is approved while the waiter sleeps, `wait_until_approved` returns True exactly when the
-- batch is approved by then; if not, it returns False when a timeout was given, and else waits on.
wait_until_approved_lem :
    (has_timeout : Bool) (rs : List String) (b : BatchApproval)
    → (wait_until_approved has_timeout rs b).0
      ≡ (if holds (run rs b) then some true else if has_timeout then some false else none)
unfolding wait_until_approved run
wait_until_approved_lem has_timeout [] b = refl
wait_until_approved_lem has_timeout (r ∷ rs) b = ground (
  arith,
  holds-run rs (approve r b).1,
  holds-approve r b,
  wait_until_approved_lem has_timeout rs (approve r b).1,
)

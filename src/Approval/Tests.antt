-- ===== src/Approval/Tests.antt =====
-- Runs of the batch approval, and its theorems at inputs that meet their hypotheses.
use python_concurrency_examp.Prelude.{◌≡◌, refl, true, false, some, [], ◌∷◌}
use python_concurrency_examp.Python.{ok, err, not_required_error}
use python_concurrency_examp.Python.StrSet.{mem, add, from_list, subset}
use python_concurrency_examp.Approval.{BatchApproval, create, holds, approve, wait_until_approved}

abbrev batch : BatchApproval
batch = record {
  required_reviewers = "finance" ∷ "legal" ∷ [];
  approved_reviewers = [];
  notifications = 0;
}

created : create ("finance" ∷ "legal" ∷ "legal" ∷ []) ≡ ok batch
unfolding create from_list add mem
created = refl

stranger : (approve "sales" batch).0 ≡ err (not_required_error "sales")
unfolding approve mem
stranger = refl

waits : (wait_until_approved false ("legal" ∷ "sales" ∷ "finance" ∷ []) batch).0 ≡ some true
unfolding wait_until_approved holds approve mem add subset
waits = refl

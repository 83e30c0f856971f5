-- ===== src/Approval/Reviewers.antt =====
-- Who has approved, and when the batch is approved.
use python_concurrency_examp.Prelude.{
  String, ◌≡◌, ◌↔◌, refl, true, false, not, ◌&&◌, ◌||◌, List, [], ◌∷◌, arith, ◌==◌, eq_iff,
  is_empty, ap, sym, ◌∙◌, any, inl, inr,
}
use python_concurrency_examp.Python.{ok}
use python_concurrency_examp.Python.StrSet.{
  StrSet, mem, from_list, mem-add, mem-from_list, subset-mem, subset-cases, difference-empty,
}
use python_concurrency_examp.Approval.{
  BatchApproval, create, holds, approve, is_approved, remaining_reviewers, run,
}

-- What `approve` does, on every branch.
approve-mem :
    (r q : String) (b : BatchApproval)
    → mem q (approve r b).1.approved_reviewers
      ≡ (mem q b.approved_reviewers || (not (r == "") && mem r b.required_reviewers && r == q))
unfolding approve
approve-mem r q b = ground (arith, mem-add r q b.approved_reviewers, eq_iff r q)

required-approve :
    (r : String) (b : BatchApproval) → (approve r b).1.required_reviewers ≡ b.required_reviewers
unfolding approve
required-approve r b = ground arith

required-run :
    (rs : List String) (b : BatchApproval) → (run rs b).required_reviewers ≡ b.required_reviewers
unfolding run
required-run [] b = refl
required-run (r ∷ rs) b = required-run rs (approve r b).1 ∙ required-approve r b

-- After calls of `approve`, a required reviewer with a name has approved if she had before or is
-- among the callers.
mem-run :
    (q : String) (rs : List String) (b : BatchApproval)
    → (q == "") ≡ false
    → mem q b.required_reviewers ≡ true
    → mem q (run rs b).approved_reviewers ≡ (mem q b.approved_reviewers || mem q rs)
unfolding run mem
mem-run q [] b named req = ground arith
mem-run q (r ∷ rs) b named req = ground (
  arith,
  mem-run q rs (approve r b).1 named (rw required-approve req),
  approve-mem r q b,
  eq_iff r q,
)

-- The checks of the constructor.
create-fields :
    (names : List String) (b : BatchApproval)
    → create names ≡ ok b
    → (b.required_reviewers ≡ from_list names)
      × (b.approved_reviewers ≡ [])
      × (any (λ r. r == "") (from_list names) ≡ false)
unfolding create
create-fields names b made = ground arith

any-mem :
    (q : String) (s : StrSet) → any (λ r. r == "") s ≡ false → mem q s ≡ true → (q == "") ≡ false
unfolding mem
any-mem q [] h m = cc
any-mem q (x ∷ s) h m = ground (arith, any-mem q s, eq_iff x q)

-- A required reviewer of a created batch has approved exactly when she is among the callers.
mem-create-run :
    (names rs : List String) (b : BatchApproval) (q : String)
    → create names ≡ ok b
    → mem q names ≡ true
    → mem q (run rs b).approved_reviewers ≡ mem q rs
unfolding mem
mem-create-run names rs b q made req =
    let (fields, none_yet, named) = create-fields names b made in
    let there = mem-from_list q names ∙ req in
    ground (
      arith,
      mem-run q rs b (any-mem q (from_list names) named there) (rw fields there),
      ap (mem q) none_yet,
    )

mem-required :
    (names rs : List String) (b : BatchApproval) (q : String)
    → create names ≡ ok b
    → mem q (run rs b).required_reviewers ≡ mem q names
mem-required names rs b q made =
    ap (mem q) (required-run rs b ∙ (create-fields names b made).0) ∙ mem-from_list q names

-- A created batch is approved exactly when every required reviewer is among the callers of
-- `approve`; other callers, duplicates and the order do not matter.
create-run-is_approved_iff :
    (names rs : List String) (b : BatchApproval)
    → create names ≡ ok b
    → ((is_approved (run rs b)).0 ≡ ok true) ↔ ((q : String) → mem q names ≡ true → mem q rs ≡ true)
unfolding is_approved holds
create-run-is_approved_iff names rs b made = (
  λ approved q req.
      sym (mem-create-run names rs b q made req)
      ∙ subset-mem q (run rs b).required_reviewers (run rs b).approved_reviewers (ground arith)
          (mem-required names rs b q made ∙ req),
  λ all. elim (subset-cases (run rs b).required_reviewers (run rs b).approved_reviewers) [
    | inl covered ↦ rw covered
    | inr (q, req, lacks) ↦
        let there = sym (mem-required names rs b q made) ∙ req in
        let called = mem-create-run names rs b q made there ∙ all q there in absurd (ground arith)
  ],
)

-- The batch is approved exactly when no required reviewer remains.
pub is_approved-remaining :
    (b : BatchApproval) (rest : StrSet)
    → (remaining_reviewers b).0 ≡ ok rest
    → (is_approved b).0 ≡ ok (is_empty rest)
unfolding is_approved remaining_reviewers holds
is_approved-remaining b rest h =
    ground (arith, difference-empty b.required_reviewers b.approved_reviewers)

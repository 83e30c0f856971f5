-- ===== src/Gate/Rendezvous.antt =====
-- barrierdeployment/deployment.py: workers pass in groups of the required number.
use python_concurrency_examp.Prelude.{
  ℕ, String, ◌+◌, ◌<◌, ◌≡◌, refl, sym, ap, ◌∙◌, subst, inl, inr, Bool, false, List, [], ◌∷◌, ◌++◌,
  arith, length, length-append, Star, Star-keeps, ◌==◌, Bool-cases, if◌then◌else◌,
}
use python_concurrency_examp.Prelude.Int.{ℤ, pos_part}
use python_concurrency_examp.Python.{Exc, Result, ok, err, value_error, broken_barrier}
use python_concurrency_examp.Python.Barrier
use python_concurrency_examp.Python.Barrier.{
  State, filling, draining, resetting, broken, Barrier, Arrival, blocked, refused, waits, released,
  fill, arrive, exit, go_out, resume, is_broken,
}
use python_concurrency_examp.Gate.{DeploymentGate, create, begin_wait, end_wait, reset}
use python_concurrency_examp.Gate.System.{
  System, Step, raises, is_blocked, is_refused, joins, releases_all, goes_on, resets,
}
use python_concurrency_examp.Gate.Passing.{
  passed, groups, on_the_way, BarrierInv, arrive-blocked, arrive-refused, waits-Inv, released-Inv,
  raised-Inv, reset-Inv, resume-Inv,
}

abbrev Inv : ℕ → System → Type 0
Inv n s = BarrierInv n s.gate.barrier s.waiting s.returned s.releases

goes_on-Inv :
    (n : ℕ) (s : System) (g : DeploymentGate) (before after : List ℕ) (index : ℕ) (r : Result ℕ)
    → s.waiting ≡ before ++ index ∷ after
    → end_wait index s.gate ≡ (r, g)
    → Inv n s
    → Inv n (record s { gate = g; waiting = before ++ after; returned = s.returned ++ r ∷ [] })
unfolding end_wait
goes_on-Inv n s g before after index r at h v =
    resume-Inv n (length before + length after) s.gate.barrier g.barrier before after s.returned
      s.releases index r
      (omega (arith, v.counted, ap length at, length-append before (index ∷ after)))
      (ap (λ x. (x.0, x.1.barrier)) h)
      (subst (λ ws. BarrierInv n s.gate.barrier ws s.returned s.releases) at v)

-- What a call of `wait_until_ready` met, if not its own check.
begun :
    (step_name : String) (g d : DeploymentGate) (a : Arrival)
    → begin_wait step_name g ≡ (ok a, d)
    → arrive g.barrier ≡ (a, d.barrier)
unfolding begin_wait
begun step_name g d a h = elim (Bool-cases (step_name == "")) [
  | inl nameless ↦ absurd (ground (arith, h, nameless))
  | inr named ↦
      let at : Bool → Result Arrival × DeploymentGate = λ b.
        (if b
          then (err (value_error "step_name must not be empty"), g)
          else (ok (arrive g.barrier).0, record { barrier = (arrive g.barrier).1 })) in
      let e : at false ≡ (ok a, d) = ap at (sym named) ∙ h in
      let same : (arrive g.barrier).0 ≡ a = ground (arith, ap (λ x. x.0) e) in
      ap (λ x. (x, (arrive g.barrier).1)) same ∙ ap (λ x. (a, x.1.barrier)) e
]

raises-same :
    (step_name : String) (g d : DeploymentGate) (e : Exc)
    → begin_wait step_name g ≡ (err e, d)
    → g ≡ d
unfolding begin_wait
raises-same step_name g d e h = ground (arith, h)

Step-Inv : (n : ℕ) (s t : System) → Step s t → Inv n s → Inv n t
unfolding reset
Step-Inv n s _ (raises {g} step_name e h) v =
    subst (λ d. Inv n (record s { gate = d; returned = s.returned ++ err e ∷ [] }))
      (raises-same step_name s.gate g e h)
      (raised-Inv n s.gate.barrier s.waiting s.returned s.releases e v)
Step-Inv n s _ (is_blocked {g} step_name h) v =
    subst (λ b. BarrierInv n b s.waiting s.returned s.releases)
      (arrive-blocked s.gate.barrier g.barrier (begun step_name s.gate g blocked h)) v
Step-Inv n s _ (is_refused {g} step_name h) v =
    subst (λ b. BarrierInv n b s.waiting (s.returned ++ err broken_barrier ∷ []) s.releases)
      (arrive-refused s.gate.barrier g.barrier (begun step_name s.gate g refused h))
      (raised-Inv n s.gate.barrier s.waiting s.returned s.releases broken_barrier v)
Step-Inv n s _ (joins {g} step_name index h) v =
    waits-Inv n s.gate.barrier g.barrier s.waiting s.returned s.releases index
      (begun step_name s.gate g (waits index) h) v
Step-Inv n s _ (releases_all {g} step_name index h) v =
    released-Inv n s.gate.barrier g.barrier s.waiting s.returned s.releases index
      (begun step_name s.gate g (released index) h) v
Step-Inv n s _ (goes_on {g} before after index r at h) v =
    goes_on-Inv n s g before after index r at h v
Step-Inv n s _ resets v =
    reset-Inv n s.gate.barrier.parties s.gate.barrier.count s.gate.barrier.state s.waiting
      s.returned s.releases v

abbrev pub fresh : DeploymentGate → System
fresh g = record { gate = g; waiting = []; returned = []; releases = 0 }

create-Inv : (n : ℤ) (g : DeploymentGate) → create n ≡ ok g → Inv (pos_part n) (fresh g)
unfolding create
create-Inv n g made =
    let same : record { barrier = Barrier.new_barrier (pos_part n) } ≡ g = ground (arith, made) in
    let enough : 1 < pos_part n = ground (arith, made) in
    subst (λ d. Inv (pos_part n) (fresh d)) same
      (record {
        sized = (refl, enough);
        counted = omega arith;
        below = omega (arith, enough);
        inhabited = tt;
        grouped = omega arith;
      })

-- In every state that workers calling `wait_until_ready`, time-outs and resets reach, the workers that
-- passed and those that were released and are on their way out are whole groups of required_workers,
-- one for each release, and fewer than required_workers are inside.
pub passed-groups :
    (n : ℤ) (g : DeploymentGate) (s : System)
    → create n ≡ ok g
    → Star Step (fresh g) s
    → (passed s.returned + on_the_way s.gate.barrier.state (length s.waiting)
        ≡ groups (pos_part n) s.releases)
      × (length s.waiting < pos_part n)
passed-groups n g s made run =
    let v = Star-keeps (Inv (pos_part n)) (Step-Inv (pos_part n)) (create-Inv n g made) run in
    (
      ap (λ m. passed s.returned + on_the_way s.gate.barrier.state m) (sym v.counted) ∙ v.grouped,
      omega (arith, v.below, v.counted),
    )

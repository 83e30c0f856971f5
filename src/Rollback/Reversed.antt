-- ===== src/Rollback/Reversed.antt =====
-- deploymentrollback/rollback.py: what `drain` runs, in which order, and what it leaves.
use python_concurrency_examp.Prelude.{
  ℕ, zero, suc, ◌+◌, ◌<◌, ◌≡◌, refl, sym, ap, ◌∙◌, true, false, List, [], ◌∷◌, ◌++◌, append_assoc,
  append-nil, arith, length, length-append,
}
use python_concurrency_examp.Python.{Result, ok, err, Exec}
use python_concurrency_examp.Rollback.{
  RollbackAction, DeploymentRollback, create, register, task_done, try_finally, run_next,
  drain_loop, drain,
}

-- The actions registered one after another.
abbrev pub register_all : List RollbackAction → DeploymentRollback → DeploymentRollback
register_all [] d = d
register_all (a ∷ actions) d = register_all actions (register a d)

abbrev pub reversed : List RollbackAction → List RollbackAction
reversed [] = []
reversed (a ∷ actions) = reversed actions ++ a ∷ []

register_all-lem :
    (actions : List RollbackAction) (d : DeploymentRollback)
    → register_all actions d
      ≡ record { items = reversed actions ++ d.items; unfinished = length actions + d.unfinished }
unfolding register
register_all-lem [] d = ap (λ n. record { items = d.items; unfinished = n }) (omega arith)
register_all-lem (a ∷ actions) d =
    register_all-lem actions (register a d)
    ∙ ap (λ l. record { items = l; unfinished = length actions + suc d.unfinished })
        (sym (append_assoc (reversed actions) (a ∷ []) d.items))
    ∙ ap (λ n. record { items = (reversed actions ++ a ∷ []) ++ d.items; unfinished = n })
        (omega arith)

length-reversed : (actions : List RollbackAction) → length (reversed actions) ≡ length actions
length-reversed [] = refl
length-reversed (a ∷ actions) =
    omega (arith, length-append (reversed actions) (a ∷ []), length-reversed actions)

module _ {S : Type 0} (handler : RollbackAction → Exec S (Unit {0})) where
  -- The handler on one action after another, up to the first that raises: the count or the exception,
  -- the actions behind it, and the state.
  abbrev pub handle_each : List RollbackAction → ℕ → S → Result ℕ × List RollbackAction × S
  handle_each [] n s = (ok n, [], s)
  handle_each (a ∷ actions) n s =
      let (handled, s') = handler a s in
      let rest = handle_each actions (suc n) s' in
      elim handled [ err e ↦ (err e, actions, s') | ok u ↦ rest ]

  -- What `drain` gives for what the handler does.
  abbrev pub outcome : Result ℕ × List RollbackAction × S → Result ℕ × (DeploymentRollback × S)
  outcome (r, rest, s) = (r, (record { items = rest; unfinished = length rest }, s))

  abbrev after_handler :
      ℕ → ℕ → List RollbackAction → Result (Unit {0}) × S → Result ℕ × (DeploymentRollback × S)
  after_handler fuel n below x =
      let y : DeploymentRollback × S = (record { items = below; unfinished = length below }, x.1) in
      let rest = drain_loop handler fuel (suc n) y in
      elim (try_finally x.0 (ok tt)) [ err e ↦ (err e, y) | ok false ↦ (ok n, y) | ok true ↦ rest ]

  abbrev after_reference :
      ℕ → List RollbackAction → Result (Unit {0}) × S → Result ℕ × (DeploymentRollback × S)
  after_reference n below x =
      let rest = handle_each below (suc n) x.1 in
      outcome (elim x.0 [ err e ↦ (err e, below, x.1) | ok u ↦ rest ])

  one_round :
      (fuel n : ℕ) (a : RollbackAction) (below : List RollbackAction) (s s' : S)
      (handled : Result (Unit {0}))
      → handler a s ≡ (handled, s')
      → drain_loop handler fuel (suc n) (record { items = below; unfinished = length below }, s')
        ≡ outcome (handle_each below (suc n) s')
      → drain_loop handler
          (suc fuel)
          n
          (record { items = a ∷ below; unfinished = suc (length below) }, s)
        ≡ outcome (handle_each (a ∷ below) n s)
  unfolding drain_loop run_next task_done
  one_round fuel n a below s s' (ok u) h rest =
      ap (after_handler fuel n below) h ∙ rest ∙ sym (ap (after_reference n below) h)
  one_round fuel n a below s s' (err e) h rest =
      ap (after_handler fuel n below) h ∙ sym (ap (after_reference n below) h)

  drain_loop-lem :
      (fuel n : ℕ) (below : List RollbackAction) (s : S)
      → length below < fuel
      → drain_loop handler fuel n (record { items = below; unfinished = length below }, s)
        ≡ outcome (handle_each below n s)
  unfolding drain_loop run_next
  drain_loop-lem zero n below s h = absurd (omega (arith, h))
  drain_loop-lem (suc fuel) n [] s h = refl
  drain_loop-lem (suc fuel) n (a ∷ below) s h =
      one_round fuel n a below s (handler a s).1 (handler a s).0 refl
        (drain_loop-lem fuel (suc n) below (handler a s).1 (omega (arith, h)))

  -- After actions were registered on a new stack, `drain` is the handler on one action after another,
  -- from the last registered on: it returns their number, or lets the first exception through, and
  -- leaves exactly the actions behind that one, with the count for `join` at their number.
  pub drain-reversed :
      (actions : List RollbackAction) (s : S)
      → drain handler (register_all actions create, s)
        ≡ outcome (handle_each (reversed actions) 0 s)
  unfolding drain
  drain-reversed actions s =
      let all = reversed actions in
      let d : DeploymentRollback = record { items = all; unfinished = length all } in
      let registered : register_all actions create ≡ d =
        register_all-lem actions create
        ∙ ap (λ l. record { items = l; unfinished = length actions + 0 }) (append-nil all)
        ∙ ap (λ n. record { items = all; unfinished = n })
            (omega (arith, length-reversed actions)) in
      ap (λ k. drain_loop handler (suc (length k.items)) 0 (k, s)) registered
      ∙ drain_loop-lem (suc (length all)) 0 all s (omega arith)

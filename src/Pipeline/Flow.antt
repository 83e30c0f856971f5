-- ===== src/Pipeline/Flow.antt =====
-- The outputs that are still to come from what is inside the pipeline.
use python_concurrency_examp.Prelude.{
  ◌≡◌, refl, sym, ap, ◌∙◌, none, some, Option, List, [], ◌∷◌, ◌++◌, append_assoc, arith,
}
use mathlib.Core.Path.{ap₂}
use python_concurrency_examp.Python.{ok, err, Exc}
use python_concurrency_examp.Pipeline.{
  DocumentFailure, Item, item, sentinel, Stage, Worker, put, put_first, start_workers,
}
use python_concurrency_examp.Pipeline.System.{
  Work, take, advance, finish, fail, pass_on, stop, later,
}

module _ {A : Type 0} where
  -- The output of the stages on one document, if none of them raises.
  abbrev pub outcome : List (Stage A) → A → List A
  outcome [] c = c ∷ []
  outcome (f ∷ fs) c = elim (f.run c) [ ok d ↦ outcome fs d | err e ↦ [] ]

  abbrev pub outcomes : List (Stage A) → List A → List A
  outcomes fs [] = []
  outcomes fs (c ∷ cs) = outcome fs c ++ outcomes fs cs

  abbrev pub outputs : List (Stage A) → List (Item A) → List A
  outputs fs [] = []
  outputs fs (item o c ∷ xs) = outcome fs c ++ outputs fs xs
  outputs fs (sentinel ∷ xs) = outputs fs xs

  abbrev pub held_items : Option (Item A) → List (Item A)
  held_items none = []
  held_items (some x) = x ∷ []

  -- The outputs to come, from the last stage to the first.
  abbrev pub pending : List (Stage A) → List (Worker A) → List A
  pending [] ws = []
  pending (f ∷ fs) [] = []
  pending (f ∷ fs) (w ∷ ws) = pending fs ws ++ outputs (f ∷ fs) (held_items w.held ++ w.queue)

  outputs-append :
      (fs : List (Stage A)) (xs ys : List (Item A))
      → outputs fs (xs ++ ys) ≡ outputs fs xs ++ outputs fs ys
  outputs-append fs [] ys = refl
  outputs-append fs (item o c ∷ xs) ys =
      ap (◌++◌ (outcome fs c)) (outputs-append fs xs ys)
      ∙ sym (append_assoc (outcome fs c) (outputs fs xs) (outputs fs ys))
  outputs-append fs (sentinel ∷ xs) ys = outputs-append fs xs ys

  -- The front of a held item goes over to the outputs of its queue.
  outputs-held :
      (fs : List (Stage A)) {h : Option (Item A)} (x : Item A) (q : List (Item A))
      → h ≡ some x
      → outputs fs (held_items h ++ q) ≡ outputs fs (x ∷ []) ++ outputs fs q
  outputs-held fs x q e = ap (λ k. outputs fs (held_items k ++ q)) e ∙ outputs-append fs (x ∷ []) q

  outputs-put :
      (fs : List (Stage A)) (h q : List (Item A)) (x : Item A)
      → outputs fs (h ++ (q ++ x ∷ [])) ≡ outputs fs (h ++ q) ++ outputs fs (x ∷ [])
  outputs-put fs h q x =
      ap (outputs fs) (sym (append_assoc h q (x ∷ []))) ∙ outputs-append fs (h ++ q) (x ∷ [])

  regroup : (a b c d : List A) → (a ++ (b ++ c)) ++ d ≡ (a ++ b) ++ (c ++ d)
  regroup a b c d = simp append_assoc

  -- A put into the next queue, of what the held item stood for.
  hand_on :
      (f g : Stage A) (fs : List (Stage A)) (w v : Worker A) (ws : List (Worker A)) (x y : Item A)
      → w.held ≡ some x
      → outputs (f ∷ g ∷ fs) (x ∷ []) ≡ outputs (g ∷ fs) (y ∷ [])
      → pending (g ∷ fs) (put y v ∷ ws) ++ outputs (f ∷ g ∷ fs) w.queue
        ≡ pending (g ∷ fs) (v ∷ ws) ++ outputs (f ∷ g ∷ fs) (held_items w.held ++ w.queue)
  hand_on f g fs w v ws x y held same =
      let front = pending fs ws in
      let mine = outputs (g ∷ fs) (held_items v.held ++ v.queue) in
      let rest = outputs (f ∷ g ∷ fs) w.queue in
      ap (λ o. (front ++ o) ++ rest) (outputs-put (g ∷ fs) (held_items v.held) v.queue y)
      ∙ regroup front mine (outputs (g ∷ fs) (y ∷ [])) rest
      ∙ ap (λ o. (front ++ mine) ++ (o ++ rest)) (sym same)
      ∙ ap (◌++◌ (front ++ mine)) (sym (outputs-held (f ∷ g ∷ fs) x w.queue held))

  finished : (f : Stage A) (c d : A) → f.run c ≡ ok d → outcome (f ∷ []) c ++ [] ≡ d ∷ []
  finished f c d e = ground arith

  failed :
      (f : Stage A) (fs : List (Stage A)) (o c : A) (x : Exc)
      → f.run c ≡ err x
      → outputs (f ∷ fs) (item o c ∷ []) ≡ []
  failed f fs o c x e = ground arith

  -- No step of a worker changes the outputs recorded and to come.
  pub Work-pending :
      {fs : List (Stage A)} {ws ws' : List (Worker A)} {r : List A} {e : List (DocumentFailure A)}
      → Work fs ws ws' r e
      → r ++ pending fs ws' ≡ pending fs ws
  Work-pending (take {f} {fs} {w} {ws} a h q) =
      ap (λ k. pending fs ws ++ outputs (f ∷ fs) k) (sym (ap₂ (λ k l. held_items k ++ l) h q))
  Work-pending (advance {f} {g} {fs} {w} {v} {ws} {o} {c} {d} h e) =
      hand_on f g fs w v ws (item o c) (item o d) h (ground arith)
  Work-pending (finish {f} {w} {o} {c} {d} h e) =
      ap (λ k. k ++ outputs (f ∷ []) w.queue) (sym (finished f c d e))
      ∙ sym (outputs-held (f ∷ []) (item o c) w.queue h)
  Work-pending (fail {f} {fs} {w} {ws} {o} {c} h e) =
      ap (λ k. pending fs ws ++ (k ++ outputs (f ∷ fs) w.queue)) (sym (failed f fs o c _ e))
      ∙ ap (◌++◌ (pending fs ws)) (sym (outputs-held (f ∷ fs) (item o c) w.queue h))
  Work-pending (pass_on {f} {g} {fs} {w} {v} {ws} h) =
      hand_on f g fs w v ws sentinel sentinel h refl
  Work-pending (stop {f} {w} h) = sym (outputs-held (f ∷ []) sentinel w.queue h)
  Work-pending (later {f} {fs} {w} {ws} {ws'} {r} k) =
      let mine = outputs (f ∷ fs) (held_items w.held ++ w.queue) in
      sym (append_assoc r (pending fs ws') mine) ∙ ap (λ o. o ++ mine) (Work-pending k)

  pub pending-put_first :
      (f : Stage A) (fs : List (Stage A)) (w : Worker A) (ws : List (Worker A)) (x : Item A)
      → pending (f ∷ fs) (put_first x (w ∷ ws))
        ≡ pending (f ∷ fs) (w ∷ ws) ++ outputs (f ∷ fs) (x ∷ [])
  pending-put_first f fs w ws x =
      ap (◌++◌ (pending fs ws)) (outputs-put (f ∷ fs) (held_items w.held) w.queue x)
      ∙ sym (
          append_assoc (pending fs ws) (outputs (f ∷ fs) (held_items w.held ++ w.queue))
            (outputs (f ∷ fs) (x ∷ [])))

  pub outcomes-append :
      (fs : List (Stage A)) (cs ds : List A)
      → outcomes fs (cs ++ ds) ≡ outcomes fs cs ++ outcomes fs ds
  outcomes-append fs [] ds = refl
  outcomes-append fs (c ∷ cs) ds =
      ap (◌++◌ (outcome fs c)) (outcomes-append fs cs ds)
      ∙ sym (append_assoc (outcome fs c) (outcomes fs cs) (outcomes fs ds))

  pub pending-start_workers : (fs : List (Stage A)) → pending fs (start_workers fs) ≡ []
  pending-start_workers [] = refl
  pending-start_workers (f ∷ fs) = ap (λ o. o ++ []) (pending-start_workers fs)

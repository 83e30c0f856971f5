-- ===== src/Pipeline/Progress.antt =====
-- The workers of a closed pipeline: which of them can step, and how many steps are left.
use python_concurrency_examp.Prelude.{
  ℕ, zero, suc, ◌+◌, ◌*◌, ◌≤◌, ◌<◌, ◌≡◌, refl, ap, ◌∙◌, ◌⊎◌, inl, inr, true, false, none, some,
  Option, List, [], ◌∷◌, ◌++◌, arith, subst, Bool-cases, length, length-append, Star,
}
use python_concurrency_examp.Python.{Result, ok, err, Exc}
use python_concurrency_examp.Pipeline.{
  DocumentFailure, DocumentPipeline, Item, item, sentinel, Stage, Worker, put, create, all_stopped,
}
use python_concurrency_examp.Pipeline.System.{
  Work, take, advance, finish, fail, pass_on, stop, later, System, works, WorkerStep, moves, Reach,
  next, start,
}
use python_concurrency_examp.Pipeline.Flow.{held_items, outcomes}
use python_concurrency_examp.Pipeline.Shutdown.{Closing, EndsInSentinel, contents}
use python_concurrency_examp.Pipeline.Order.{Matches, Step-Inv, Reach-Inv, Inv, Reach-results}

module _ {A : Type 0} where
  -- A step of some worker.
  abbrev pub CanWork : List (Stage A) → List (Worker A) → Type 0
  CanWork fs ws =
      (ws' : List (Worker A)) × (r : List A) × (e : List (DocumentFailure A)) × Work fs ws ws' r e

  result-cases : (r : Result A) → ((d : A) × (r ≡ ok d)) ⊎ ((e : Exc) × (r ≡ err e))
  result-cases (ok d) = inl (d, refl)
  result-cases (err e) = inr (e, refl)

  item-work :
      (f : Stage A) (fs : List (Stage A)) (w : Worker A) (ws : List (Worker A)) (o c : A)
      → Matches fs ws
      → w.held ≡ some (item o c)
      → CanWork (f ∷ fs) (w ∷ ws)
  item-work f fs w ws o c m h = elim (result-cases (f.run c)) [
    | inr (e, failed) ↦ (_, _, _, fail h failed)
    | inl (d, done) ↦ go fs ws m d done
  ]
    where
      go :
          (fs : List (Stage A)) (ws : List (Worker A))
          → Matches fs ws
          → (d : A) → f.run c ≡ ok d
          → CanWork (f ∷ fs) (w ∷ ws)
      go [] [] m d done = (_, _, _, finish h done)
      go [] (v ∷ ws) m d done = absurd m
      go (g ∷ fs) [] m d done = absurd m
      go (g ∷ fs) (v ∷ ws) m d done = (_, _, _, advance h done)

  sentinel-work :
      (f : Stage A) (fs : List (Stage A)) (w : Worker A) (ws : List (Worker A))
      → Matches fs ws
      → w.held ≡ some sentinel
      → CanWork (f ∷ fs) (w ∷ ws)
  sentinel-work f [] w [] m h = (_, _, _, stop h)
  sentinel-work f [] w (v ∷ ws) m h = absurd m
  sentinel-work f (g ∷ fs) w [] m h = absurd m
  sentinel-work f (g ∷ fs) w (v ∷ ws) m h = (_, _, _, pass_on h)

  queue-work :
      (f : Stage A) (fs : List (Stage A)) (w : Worker A) (ws : List (Worker A))
      → w.alive ≡ true
      → w.held ≡ none
      → (q : List (Item A)) → w.queue ≡ q
      → EndsInSentinel q
      → CanWork (f ∷ fs) (w ∷ ws)
  queue-work f fs w ws up h [] e ends = absurd ends
  queue-work f fs w ws up h (x ∷ q) e ends = (_, _, _, take up h e)

  alive-work :
      (f : Stage A) (fs : List (Stage A)) (w : Worker A) (ws : List (Worker A))
      → Matches fs ws
      → w.alive ≡ true
      → EndsInSentinel (contents w)
      → (h : Option (Item A)) → w.held ≡ h
      → CanWork (f ∷ fs) (w ∷ ws)
  alive-work f fs w ws m up ends none e =
      queue-work f fs w ws up e w.queue refl
        (subst (λ k. EndsInSentinel (held_items k ++ w.queue)) e ends)
  alive-work f fs w ws m up ends (some (item o c)) e = item-work f fs w ws o c m e
  alive-work f fs w ws m up ends (some sentinel) e = sentinel-work f fs w ws m e

  Closing-CanWork :
      (fs : List (Stage A)) (ws : List (Worker A))
      → Matches fs ws
      → Closing ws
      → all_stopped ws ≡ false
      → CanWork fs ws
  Closing-CanWork [] [] m c s = cc
  Closing-CanWork [] (w ∷ ws) m c s = absurd m
  Closing-CanWork (f ∷ fs) [] m c s = absurd m
  Closing-CanWork (f ∷ fs) (w ∷ ws) m (inl (down, none_left, rest)) s =
      let (ws', r, e, k) = Closing-CanWork fs ws m rest (ground arith) in (w ∷ ws', r, e, later k)
  Closing-CanWork (f ∷ fs) (w ∷ ws) m (inr (up, ends, rest)) s =
      alive-work f fs w ws m up ends w.held refl

  -- The steps that are still to be made at most: two in each stage for every item, less one for an
  -- item that its worker holds.
  abbrev held_steps : ℕ → Option (Item A) → ℕ
  held_steps n none = 0
  held_steps n (some x) = n + n + 1

  abbrev pub steps_left : List (Stage A) → List (Worker A) → ℕ
  steps_left [] ws = 0
  steps_left (f ∷ fs) [] = 0
  steps_left (f ∷ fs) (w ∷ ws) =
      held_steps (length fs) w.held
      + length w.queue * (length fs + length fs + 2)
      + steps_left fs ws

  queued : (v : Worker A) (x : Item A) (k : ℕ) → length (put x v).queue * k ≡ length v.queue * k + k
  queued v x k = ap (λ n. n * k) (length-append v.queue (x ∷ [])) ∙ omega arith

  -- Every step of a worker makes `steps_left`, a bound on the steps still to be made, smaller.
  pub Work-steps_left :
      {fs : List (Stage A)} {ws ws' : List (Worker A)} {r : List A} {e : List (DocumentFailure A)}
      → Work fs ws ws' r e
      → steps_left fs ws' < steps_left fs ws
  Work-steps_left (take {fs} {w} {ws} {x} {q = rest} a h q) =
      omega
        (arith, ap (held_steps (length fs)) h, ap (λ l. length l * (length fs + length fs + 2)) q)
  Work-steps_left (advance {fs} {w} {v} {o} {c} {d} h g) =
      omega (
        arith,
        ap (held_steps (suc (length fs))) h,
        queued v (item o d) (length fs + length fs + 2),
      )
  Work-steps_left (finish {w} h g) = omega (arith, ap (held_steps 0) h)
  Work-steps_left (fail {fs} {w} h g) = omega (arith, ap (held_steps (length fs)) h)
  Work-steps_left (pass_on {fs} {w} {v} h) =
      omega
        (arith, ap (held_steps (suc (length fs))) h, queued v sentinel (length fs + length fs + 2))
  Work-steps_left (stop {w} h) = omega (arith, ap (held_steps 0) h)
  Work-steps_left (later k) = omega (arith, Work-steps_left k)

  -- The steps of the workers go on with the run before them.
  Reach-moves :
      {fs : List (Stage A)} {s t u : System A}
      → Reach fs s t
      → Star (WorkerStep fs) t u
      → Reach fs s u
  Reach-moves a Star.here = a
  Reach-moves a (Star.next b (moves k)) = next (Reach-moves a b) (works k)

  -- A run of the workers that ends with all of them stopped.
  abbrev Drained : List (Stage A) → System A → Type 0
  Drained fs s =
      (t : System A) × Star (WorkerStep fs) s t
      × (all_stopped t.pipeline.workers ≡ true)
      × (t.pipeline.closed ≡ true)
      × (t.submitted ≡ s.submitted)

  works-Inv :
      (fs : List (Stage A)) (s : System A) (n : ℕ) (t : System A)
      → Star (WorkerStep fs) s t
      → Inv fs t
      → t.pipeline.closed ≡ true
      → t.submitted ≡ s.submitted
      → steps_left fs t.pipeline.workers ≤ n
      → Drained fs s
  works-Inv fs s zero t reach v closed same bound =
      elim (Bool-cases (all_stopped t.pipeline.workers)) [
        | inl stopped ↦ (t, reach, stopped, closed, same)
        | inr running ↦
            let (ws, r, e, k) =
              Closing-CanWork fs t.pipeline.workers v.matches (v.closing closed) running in
            absurd (omega (arith, Work-steps_left k, bound))
      ]
  works-Inv fs s (suc n) t reach v closed same bound =
      elim (Bool-cases (all_stopped t.pipeline.workers)) [
        | inl stopped ↦ (t, reach, stopped, closed, same)
        | inr running ↦
            let (ws, r, e, k) =
              Closing-CanWork fs t.pipeline.workers v.matches (v.closing closed) running in
            works-Inv fs s n _ (Star.next reach (moves k)) (Step-Inv fs (works k) v) closed same
              (omega (arith, Work-steps_left k, bound))
      ]

  -- From every state that a created pipeline can reach and in which it is closed, the steps of the
  -- stage workers alone can go on to a state in which all workers have stopped, no further document
  -- was accepted, and the results are the outputs of all accepted documents in order.
  pub close-drains :
      (fs : List (Stage A)) (p : DocumentPipeline A) {s : System A}
      → create fs ≡ ok p
      → Reach fs (start p) s
      → s.pipeline.closed ≡ true
      → (t : System A) × Star (WorkerStep fs) s t
        × (all_stopped t.pipeline.workers ≡ true)
        × (t.submitted ≡ s.submitted)
        × (t.pipeline.results ≡ outcomes fs s.submitted)
  close-drains fs p {s} made reach closed =
      let v = Reach-Inv fs p made reach in
      let (t, r, stopped, shut, same) =
        works-Inv fs s (steps_left fs s.pipeline.workers) s Star.here v closed refl (omega arith) in
      let results = Reach-results fs p made (Reach-moves reach r) shut stopped in
      (t, r, stopped, same, results ∙ ap (outcomes fs) same)

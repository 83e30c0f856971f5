-- ===== src/Pipeline/Shutdown.antt =====
-- Where the sentinel and the documents are, in an open pipeline and in a closed one.
use python_concurrency_examp.Prelude.{
  ◌≡◌, refl, sym, ap, ◌∙◌, ◌⊎◌, inl, inr, true, false, none, some, List, [], ◌∷◌, ◌++◌,
  append_assoc, arith, subst,
}
use mathlib.Core.Path.{ap₂}
use mathlib.Core.Bool.{false≢true}
use python_concurrency_examp.Pipeline.{
  DocumentFailure, Item, item, sentinel, Stage, Worker, put, put_first, start_workers, all_stopped,
}
use python_concurrency_examp.Pipeline.System.{
  Work, take, advance, finish, fail, pass_on, stop, later,
}
use python_concurrency_examp.Pipeline.Flow.{held_items, pending, outputs}

module _ {A : Type 0} where
  abbrev pub contents : Worker A → List (Item A)
  contents w = held_items w.held ++ w.queue

  abbrev pub Docs : List (Item A) → Type 0
  Docs [] = Unit
  Docs (item o c ∷ xs) = Docs xs
  Docs (sentinel ∷ xs) = ⊥

  abbrev pub EndsInSentinel : List (Item A) → Type 0
  EndsInSentinel [] = ⊥
  EndsInSentinel (item o c ∷ xs) = EndsInSentinel xs
  EndsInSentinel (sentinel ∷ xs) = xs ≡ []

  abbrev pub Open : List (Worker A) → Type 0
  Open [] = Unit
  Open (w ∷ ws) = (w.alive ≡ true) × Docs (contents w) × Open ws

  abbrev pub Closing : List (Worker A) → Type 0
  Closing [] = Unit
  Closing (w ∷ ws) =
      ((w.alive ≡ false) × (contents w ≡ []) × Closing ws)
      ⊎ ((w.alive ≡ true) × EndsInSentinel (contents w) × Open ws)

  Docs-put : (xs : List (Item A)) (o c : A) → Docs xs → Docs (xs ++ item o c ∷ [])
  Docs-put [] o c h = tt
  Docs-put (item p d ∷ xs) o c h = Docs-put xs o c h
  Docs-put (sentinel ∷ xs) o c h = absurd h

  EndsInSentinel-put : (xs : List (Item A)) → Docs xs → EndsInSentinel (xs ++ sentinel ∷ [])
  EndsInSentinel-put [] h = refl
  EndsInSentinel-put (item o c ∷ xs) h = EndsInSentinel-put xs h
  EndsInSentinel-put (sentinel ∷ xs) h = absurd h

  -- A put goes to the end of what a worker has.
  contents-put : (x : Item A) (w : Worker A) → contents w ++ x ∷ [] ≡ contents (put x w)
  contents-put x w = append_assoc (held_items w.held) w.queue (x ∷ [])

  put-Docs : (o c : A) (w : Worker A) → Docs (contents w) → Docs (contents (put (item o c) w))
  put-Docs o c w h = subst Docs (contents-put (item o c) w) (Docs-put (contents w) o c h)

  put-EndsInSentinel :
      (w : Worker A) → Docs (contents w) → EndsInSentinel (contents (put sentinel w))
  put-EndsInSentinel w h =
      subst EndsInSentinel (contents-put sentinel w) (EndsInSentinel-put (contents w) h)

  pub contents-held : (w : Worker A) {x : Item A} → w.held ≡ some x → contents w ≡ x ∷ w.queue
  contents-held w h = ap (λ k. held_items k ++ w.queue) h

  contents-taken :
      (w : Worker A) {x : Item A} {q : List (Item A)}
      → w.held ≡ none
      → w.queue ≡ x ∷ q
      → contents w ≡ x ∷ q
  contents-taken w h q = ap₂ (λ k l. held_items k ++ l) h q

  pub Work-Open :
      {fs : List (Stage A)} {ws ws' : List (Worker A)} {r : List A} {e : List (DocumentFailure A)}
      → Work fs ws ws' r e
      → Open ws
      → Open ws'
  Work-Open (take {w} a h q) (up, docs, rest) = (up, subst Docs (contents-taken w h q) docs, rest)
  Work-Open (advance {w} {v} {o} {c} {d} h g) (up, docs, (up', docs', rest)) =
      (up, subst Docs (contents-held w h) docs, (up', put-Docs o d v docs', rest))
  Work-Open (finish {w} h g) (up, docs, rest) = (up, subst Docs (contents-held w h) docs, rest)
  Work-Open (fail {w} h g) (up, docs, rest) = (up, subst Docs (contents-held w h) docs, rest)
  Work-Open (pass_on {w} h) (up, docs, rest) = absurd (subst Docs (contents-held w h) docs)
  Work-Open (stop {w} h) (up, docs, rest) = absurd (subst Docs (contents-held w h) docs)
  Work-Open (later k) (up, docs, rest) = (up, docs, Work-Open k rest)

  -- A worker with something in hand has not stopped.
  busy : (w : Worker A) {x : Item A} → w.held ≡ some x → contents w ≡ [] → ⊥
  busy w h e = cc (contents-held w h)

  pub Work-Closing :
      {fs : List (Stage A)} {ws ws' : List (Worker A)} {r : List A} {e : List (DocumentFailure A)}
      → Work fs ws ws' r e
      → Closing ws
      → Closing ws'
  Work-Closing (take a h q) (inl (down, none_left, rest)) = absurd (false≢true (sym down ∙ a))
  Work-Closing (take {w} a h q) (inr (up, ends, rest)) =
      inr (up, subst EndsInSentinel (contents-taken w h q) ends, rest)
  Work-Closing (advance {w} h g) (inl (down, none_left, rest)) = absurd (busy w h none_left)
  Work-Closing (advance {w} {v} {o} {c} {d} h g) (inr (up, ends, (up', docs', rest))) =
      inr (up, subst EndsInSentinel (contents-held w h) ends, (up', put-Docs o d v docs', rest))
  Work-Closing (finish {w} h g) (inl (down, none_left, rest)) = absurd (busy w h none_left)
  Work-Closing (finish {w} h g) (inr (up, ends, rest)) =
      inr (up, subst EndsInSentinel (contents-held w h) ends, rest)
  Work-Closing (fail {w} h g) (inl (down, none_left, rest)) = absurd (busy w h none_left)
  Work-Closing (fail {w} h g) (inr (up, ends, rest)) =
      inr (up, subst EndsInSentinel (contents-held w h) ends, rest)
  Work-Closing (pass_on {w} h) (inl (down, none_left, rest)) = absurd (busy w h none_left)
  Work-Closing (pass_on {w} {v} h) (inr (up, ends, (up', docs', rest))) = inl (
    refl,
    subst EndsInSentinel (contents-held w h) ends,
    inr (up', put-EndsInSentinel v docs', rest),
  )
  Work-Closing (stop {w} h) (inl (down, none_left, rest)) = absurd (busy w h none_left)
  Work-Closing (stop {w} h) (inr (up, ends, rest)) =
      inl (refl, subst EndsInSentinel (contents-held w h) ends, rest)
  Work-Closing (later k) (inl (down, none_left, rest)) = inl (down, none_left, Work-Closing k rest)
  Work-Closing (later k) (inr (up, ends, rest)) = inr (up, ends, Work-Open k rest)

  pub start_workers-Open : (fs : List (Stage A)) → Open (start_workers fs)
  start_workers-Open [] = tt
  start_workers-Open (f ∷ fs) = (refl, tt, start_workers-Open fs)

  pub put_first-Open : (o c : A) (ws : List (Worker A)) → Open ws → Open (put_first (item o c) ws)
  put_first-Open o c [] h = tt
  put_first-Open o c (w ∷ ws) (up, docs, rest) = (up, put-Docs o c w docs, rest)

  pub put_first-Closing : (ws : List (Worker A)) → Open ws → Closing (put_first sentinel ws)
  put_first-Closing [] h = tt
  put_first-Closing (w ∷ ws) (up, docs, rest) = inr (up, put-EndsInSentinel w docs, rest)

  -- When every worker has stopped, nothing is left inside.
  pub all_stopped-pending :
      (fs : List (Stage A)) (ws : List (Worker A))
      → Closing ws
      → all_stopped ws ≡ true
      → pending fs ws ≡ []
  all_stopped-pending [] ws h s = refl
  all_stopped-pending (f ∷ fs) [] h s = refl
  all_stopped-pending (f ∷ fs) (w ∷ ws) (inl (down, none_left, rest)) s =
      ap₂ ◌++◌ (all_stopped-pending fs ws rest (ground arith)) (ap (outputs (f ∷ fs)) none_left)
  all_stopped-pending (f ∷ fs) (w ∷ ws) (inr (up, ends, rest)) s = absurd (ground arith)

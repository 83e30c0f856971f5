-- ===== src/Cleanup/Stopping.antt =====
-- scheduledcleanup/cleanup.py: the errors kept, and what a request to stop brings about.
use python_concurrency_examp.Prelude.{
  ℕ, ◌+◌, ◌≡◌, refl, sym, ap, ◌∙◌, subst, ◌⊎◌, inl, inr, Bool, true, false, not, List, [], ◌∷◌,
  ◌++◌, append-nil, append_assoc, arith, length, length-append, Star, here, next, Star-keeps,
  Bool-cases,
}
use python_concurrency_examp.Prelude.Int.{ℤ}
use python_concurrency_examp.Python.{Result, ok, Exc}
use python_concurrency_examp.Cleanup.{
  Thread, no_thread, waiting, cleaning, ended, ScheduledCleanup, create, start, is_none, is_alive,
  request_stop, stopped, errors,
}
use python_concurrency_examp.Cleanup.System.{
  System, error_of, Step, starts, asks_to_stop, begins, ends, finishes,
}

-- The exceptions among the results of cleanups.
abbrev pub errors_of : List (Result (Unit {0})) → List Exc
errors_of [] = []
errors_of (r ∷ rs) = error_of r ++ errors_of rs

errors_of-append :
    (rs qs : List (Result (Unit {0}))) → errors_of (rs ++ qs) ≡ errors_of rs ++ errors_of qs
errors_of-append [] qs = refl
errors_of-append (r ∷ rs) qs =
    ap (λ l. error_of r ++ l) (errors_of-append rs qs)
    ∙ sym (append_assoc (error_of r) (errors_of rs) (errors_of qs))

-- A cleanup that has begun and not ended.
abbrev under_way : Thread → ℕ
under_way no_thread = 0
under_way waiting = 0
under_way cleaning = 1
under_way ended = 0

record Inv (s : System) : Type 0 where
  kept : s.cleanup.errors ≡ errors_of s.finished
  counted : s.begun ≡ length s.finished + under_way s.cleanup.thread
  threaded : s.cleanup.started ≡ not (is_none s.cleanup.thread)
  asked : s.cleanup.stop_requested ≡ true → s.cleanup.started ≡ true

abbrev pub fresh : ScheduledCleanup → System
fresh c = record { cleanup = c; begun = 0; finished = [] }

create-Inv : (n : ℤ) (c : ScheduledCleanup) → create n ≡ ok c → Inv (fresh c)
unfolding create
create-Inv n c made =
    let first : ScheduledCleanup = record {
      interval = n;
      stop_requested = false;
      thread = no_thread;
      started = false;
      errors = [];
    } in
    let same : first ≡ c = ground (arith, made) in
    subst (λ k. Inv (fresh k)) same
      (record {
        kept = refl;
        counted = omega arith;
        threaded = refl;
        asked = λ h. absurd (ground (arith, h));
      })

first_start : (t : Thread) → false ≡ not (is_none t) → t ≡ no_thread
first_start no_thread h = refl
first_start waiting h = absurd (ground (arith, h))
first_start cleaning h = absurd (ground (arith, h))
first_start ended h = absurd (ground (arith, h))

starts-Inv :
    (s : System) (r : Result (Unit {0})) (c : ScheduledCleanup)
    → start s.cleanup ≡ (r, c)
    → Inv s
    → Inv (record s { cleanup = c })
unfolding start
starts-Inv s r c h v = elim (Bool-cases s.cleanup.started) [
  | inl again ↦
      let same : s.cleanup ≡ c = ground (arith, h, again) in
      subst (λ k. Inv (record s { cleanup = k })) same v
  | inr first ↦
      let begun : record (s.cleanup) { started = true; stop_requested = false; thread = waiting }
          ≡ c =
        ground (arith, h, first) in
      let none = first_start s.cleanup.thread (sym first ∙ v.threaded) in
      subst (λ k. Inv (record s { cleanup = k })) begun
        (record {
          kept = v.kept;
          counted = v.counted ∙ ap (λ t. length s.finished + under_way t) none;
          threaded = refl;
          asked = λ k. refl;
        })
]

abbrev request_at : Thread → ScheduledCleanup → Bool × ScheduledCleanup
request_at t c = elim (is_none t) [
  | true ↦ (false, c)
  | false ↦ (true, record c { stop_requested = true })
]

-- The request leaves all but the flag, and sets that only for a worker that was started.
asks-cases :
    (t : Thread) (c d : ScheduledCleanup) (b : Bool)
    → request_at t c ≡ (b, d)
    → (c ≡ d) ⊎ ((is_none t ≡ false) × (record c { stop_requested = true } ≡ d))
asks-cases no_thread c d b h = inl (ap (λ x. x.1) h)
asks-cases waiting c d b h = inr (refl, ap (λ x. x.1) h)
asks-cases cleaning c d b h = inr (refl, ap (λ x. x.1) h)
asks-cases ended c d b h = inr (refl, ap (λ x. x.1) h)

asks-Inv :
    (s : System) (b : Bool) (c : ScheduledCleanup)
    → request_stop s.cleanup ≡ (b, c)
    → Inv s
    → Inv (record s { cleanup = c })
unfolding request_stop
asks-Inv s b c h v = elim (asks-cases s.cleanup.thread s.cleanup c b h) [
  | inl same ↦ subst (λ k. Inv (record s { cleanup = k })) same v
  | inr (some, set) ↦
      subst (λ k. Inv (record s { cleanup = k })) set
        (record {
          kept = v.kept;
          counted = v.counted;
          threaded = v.threaded;
          asked = λ k. (v.threaded ∙ ap not some);
        })
]

Step-Inv : (s t : System) → Step s t → Inv s → Inv t
Step-Inv s _ (starts {r} {c} h) v = starts-Inv s r c h v
Step-Inv s _ (asks_to_stop {b} {c} h) v = asks-Inv s b c h v
Step-Inv s _ (begins at go) v = record {
  kept = v.kept;
  counted = omega (arith, v.counted, ap under_way at);
  threaded = v.threaded ∙ ap (λ t. not (is_none t)) at;
  asked = v.asked;
}
Step-Inv s _ (ends at stop) v = record {
  kept = v.kept;
  counted = omega (arith, v.counted, ap under_way at);
  threaded = v.threaded ∙ ap (λ t. not (is_none t)) at;
  asked = v.asked;
}
Step-Inv s _ (finishes r at) v = record {
  kept =
      ap (λ l. l ++ error_of r) v.kept
      ∙ sym (
          errors_of-append s.finished (r ∷ [])
          ∙ ap (λ l. errors_of s.finished ++ l) (append-nil (error_of r)));
  counted = omega (arith, v.counted, ap under_way at, length-append s.finished (r ∷ []));
  threaded = v.threaded ∙ ap (λ t. not (is_none t)) at;
  asked = v.asked;
}

run-Inv :
    (n : ℤ) (c : ScheduledCleanup) (s : System) → create n ≡ ok c → Star Step (fresh c) s → Inv s
run-Inv n c s made run = Star-keeps Inv Step-Inv (create-Inv n c made) run

-- What stays as it is once a worker was asked to stop.
abbrev Stopping : ℕ → System → Type 0
Stopping k s = (s.cleanup.stop_requested ≡ true) × (s.cleanup.started ≡ true) × (s.begun ≡ k)

Step-Stopping : (k : ℕ) (s t : System) → Step s t → Stopping k s → Stopping k t
unfolding start request_stop
Step-Stopping k s _ (starts {r} {c} h) (flag, on, same) =
    let left : s.cleanup ≡ c = ground (arith, h, on) in
    subst (λ d. Stopping k (record s { cleanup = d })) left (flag, on, same)
Step-Stopping k s _ (asks_to_stop {b} {c} h) (flag, on, same) =
    elim (asks-cases s.cleanup.thread s.cleanup c b h) [
      | inl left ↦ subst (λ d. Stopping k (record s { cleanup = d })) left (flag, on, same)
      | inr (some, set) ↦ subst (λ d. Stopping k (record s { cleanup = d })) set (refl, on, same)
    ]
Step-Stopping k s _ (begins at go) (flag, on, same) = absurd (ground (arith, go, flag))
Step-Stopping k s _ (ends at stop) (flag, on, same) = (flag, on, same)
Step-Stopping k s _ (finishes r at) (flag, on, same) = (flag, on, same)

-- Once a started worker has been asked to stop, in any run of it and of threads that start and stop
-- it, no further cleanup begins, and the errors kept are those of the cleanups that ended, in their
-- order.
stop-no_more :
    (n : ℤ) (c : ScheduledCleanup) (s t : System)
    → create n ≡ ok c
    → Star Step (fresh c) s
    → s.cleanup.stop_requested ≡ true
    → Star Step s t
    → (t.begun ≡ s.begun) × (errors t.cleanup ≡ errors_of t.finished)
unfolding errors
stop-no_more n c s t made run flag more =
    let v = run-Inv n c s made run in
    let over =
      Star-keeps (Stopping s.begun) (Step-Stopping s.begun) (flag, v.asked flag, refl) more in
    (over.2, (Star-keeps Inv Step-Inv v more).kept)

ending :
    (s : System) (t : Thread)
    → s.cleanup.thread ≡ t
    → not (is_none t) ≡ true
    → s.cleanup.stop_requested ≡ true
    → (u : System) × Star Step s u × (u.cleanup.thread ≡ ended)
ending s no_thread at some flag = absurd (ground (arith, some))
ending s waiting at some flag = (_, next here (ends at flag), refl)
ending s cleaning at some flag = (_, next (next here (finishes (ok tt) at)) (ends refl flag), refl)
ending s ended at some flag = (s, here, at)

-- From every state that a created worker and threads that start and stop it reach, and in which a
-- stop has been requested, some run ends the worker, so that `stop` returns True; it ends after the
-- cleanup under way, if there is one, and no other begins.
pub stop-ends :
    (n : ℤ) (c : ScheduledCleanup) (s : System)
    → create n ≡ ok c
    → Star Step (fresh c) s
    → s.cleanup.stop_requested ≡ true
    → (t : System) × Star Step s t
      × (stopped t.cleanup ≡ true)
      × (t.begun ≡ s.begun)
      × (length t.finished ≡ s.begun)
unfolding stopped
stop-ends n c s made run flag =
    let v = run-Inv n c s made run in
    let (t, more, over) = ending s s.cleanup.thread refl (sym v.threaded ∙ v.asked flag) flag in
    let no_more = (stop-no_more n c s t made run flag more).0 in
    let w = Star-keeps Inv Step-Inv v more in
    (
      t,
      more,
      ap (λ x. not (is_alive x)) over,
      no_more,
      omega (arith, w.counted, no_more, ap under_way over),
    )

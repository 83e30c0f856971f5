-- ===== src/Imports/Collected.antt =====
-- What `collect` has when its loop ends, when the loop ends, and when it never does.
use python_concurrency_examp.Prelude.{
  ◌≤◌, ◌≡◌, refl, sym, ap, ◌∙◌, subst, Bool, false, not, any, is_empty, List, [], ◌∷◌, ◌++◌, map,
  append-nil, arith, All, sum_of, length, Star,
}
use python_concurrency_examp.Python.{ok}
use python_concurrency_examp.Imports.{ImportJob, Message}
use python_concurrency_examp.Imports.Worker.{progress}
use python_concurrency_examp.Imports.System.{Worker, System, start_collect, looping, Step}
use python_concurrency_examp.Imports.Merged.{
  Merge, event_list, finishes, event_list-ended, ended-split, ended-rest,
}
use python_concurrency_examp.Imports.Invariant.{
  SystemInv, IsWhole, IsNamed, got, job_of, ends_got, Reach-Inv,
}

-- A worker of which the collector has got the last message.
pub complete :
    (w : Worker) → IsWhole w → finishes w.received ≡ 1 → w.queued ++ (w.pending ++ w.lost) ≡ []
complete w whole one =
    ended-split (progress w.job) w.job w.received (w.queued ++ (w.pending ++ w.lost)) whole one

got-progress : (w : Worker) → IsWhole w → finishes w.received ≡ 1 → got w ≡ progress w.job
got-progress w whole one =
    ap event_list
      (sym (append-nil w.received) ∙ ap (◌++◌ w.received) (sym (complete w whole one)) ∙ whole)
    ∙ event_list-ended (progress w.job) w.job

pub ends_got-le : (ws : List Worker) → All IsWhole ws → sum_of ends_got ws ≤ length ws
ends_got-le [] h = omega arith
ends_got-le (w ∷ ws) h = omega (
  arith,
  ends_got-le ws h.1,
  ended-rest (progress w.job) w.job w.received (w.queued ++ (w.pending ++ w.lost)) h.0,
)

pub all_ended :
    (ws : List Worker)
    → All IsWhole ws
    → length ws ≤ sum_of ends_got ws
    → All (λ w. finishes w.received ≡ 1) ws
all_ended [] h le = tt
all_ended (w ∷ ws) h le =
    let most =
      ended-rest (progress w.job) w.job w.received (w.queued ++ (w.pending ++ w.lost)) h.0 in
    let others = ends_got-le ws h.1 in
    (omega (arith, most, others, le), all_ended ws h.1 (omega (arith, most, others, le)))

all_got :
    (ws : List Worker)
    → All IsWhole ws
    → All (λ w. finishes w.received ≡ 1) ws
    → map got ws ≡ map progress (map job_of ws)
all_got [] h e = refl
all_got (w ∷ ws) h e =
    ap (λ x. x ∷ map got ws) (got-progress w h.0 e.0)
    ∙ ap (◌∷◌ (progress w.job)) (all_got ws h.1 e.1)

pub over : (s : System) → looping s ≡ false → length s.workers ≤ s.finished_workers
over s h = ground arith

pub merged_over :
    (jobs : List ImportJob) (t : System)
    → SystemInv jobs t
    → looping t ≡ false
    → Merge (map progress jobs) t.collected_events
merged_over jobs t v h =
    let ended = all_ended t.workers v.whole (omega (arith, over t h, v.counted)) in
    subst (λ l. Merge l t.collected_events)
      (all_got t.workers v.whole ended ∙ ap (map progress) v.jobs_kept) v.merged

-- However the processes and the collector interleave, and whether processes are killed or not, when
-- the loop of `collect` ends, the events collected are an interleaving of the events of all jobs:
-- every event of every job is there once, and those of one job are in their order.
pub collect-Merge :
    (jobs : List ImportJob) (s t : System)
    → All IsNamed jobs
    → start_collect jobs ≡ ok s
    → Star Step s t
    → looping t ≡ false
    → Merge (map progress jobs) t.collected_events
collect-Merge jobs s t named made run h = merged_over jobs t (Reach-Inv jobs s t named made run) h

abbrev pub has_lost : Worker → Bool
has_lost w = not (is_empty w.lost)

split_empty : (xs ys : List Message) → xs ++ ys ≡ [] → ys ≡ []
split_empty [] ys h = h
split_empty (x ∷ xs) ys h = cc

pub none_lost :
    (ws : List Worker)
    → All IsWhole ws
    → All (λ w. finishes w.received ≡ 1) ws
    → any has_lost ws ≡ false
none_lost [] h e = refl
none_lost (w ∷ ws) h e =
    let empty =
      split_empty w.pending w.lost
        (split_empty w.queued (w.pending ++ w.lost) (complete w h.0 e.0)) in
    ground (arith, empty, none_lost ws h.1 e.1)

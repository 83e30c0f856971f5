-- ===== src/Imports/Returns.antt =====
-- The loop of `collect` when no worker process is killed.
use python_concurrency_examp.Prelude.{
  ℕ, ◌+◌, ◌<◌, ◌≡◌, refl, sym, ap, ◌∙◌, subst, ◌⊎◌, inl, inr, true, false, not, List, [], ◌∷◌, ◌++◌,
  map, append-nil, arith, All, All-replace, sum_of, sum_of-middle, length, length-append, Star,
  Star-done,
}
use python_concurrency_examp.Python.{ok}
use python_concurrency_examp.Imports.{ImportJob, Message, event, worker_finished}
use python_concurrency_examp.Imports.Worker.{progress}
use python_concurrency_examp.Imports.System.{
  Worker, System, start_collect, looping, handle_message, Step, puts, gets,
}
use python_concurrency_examp.Imports.Merged.{Merge, finishes, finishes-ended}
use python_concurrency_examp.Imports.Invariant.{
  SystemInv, IsWhole, IsNamed, ends_got, Step-Inv, Reach-Inv,
}
use python_concurrency_examp.Imports.Collected.{merged_over, over}

abbrev to_come : Worker → ℕ
to_come w = length w.pending + length w.pending + length w.queued

abbrev NoneLost : List Worker → Type 0
NoneLost ws = All (λ w. w.lost ≡ []) ws

-- A worker that has a message to put, or has one in the queue.
abbrev CanMove : List Worker → Type 0
CanMove ws =
    (before : List Worker) × (w : Worker) × (after : List Worker) × (m : Message) × (rest : List
      Message)
    × (ws ≡ before ++ w ∷ after)
    × ((w.pending ≡ m ∷ rest) ⊎ (w.queued ≡ m ∷ rest))

list-cases :
    (xs : List Message) → (xs ≡ []) ⊎ ((m : Message) × (rest : List Message) × (xs ≡ m ∷ rest))
list-cases [] = inl refl
list-cases (x ∷ xs) = inr (x, xs, refl)

idle-received :
    (w : Worker)
    → IsWhole w
    → w.lost ≡ []
    → w.pending ≡ []
    → w.queued ≡ []
    → finishes w.received ≡ 1
idle-received w whole l p q =
    let rest : w.queued ++ (w.pending ++ w.lost) ≡ [] = ground (arith, l, p, q) in
    ap finishes (sym (append-nil w.received) ∙ ap (◌++◌ w.received) (sym rest) ∙ whole)
    ∙ finishes-ended (progress w.job) w.job

can_move :
    (ws : List Worker) → All IsWhole ws → NoneLost ws → sum_of ends_got ws < length ws → CanMove ws
can_move [] whole none_lost less = absurd (omega arith)
can_move (w ∷ ws) whole none_lost less = elim (list-cases w.pending) [
  | inr (m, rest, e) ↦ ([], w, ws, m, rest, refl, inl e)
  | inl no_more ↦ elim (list-cases w.queued) [
    | inr (m, rest, e) ↦ ([], w, ws, m, rest, refl, inr e)
    | inl empty ↦
        let one = idle-received w whole.0 none_lost.0 no_more empty in
        let (before, v, after, m, rest, e, move) =
          can_move ws whole.1 none_lost.1 (omega (arith, one, less)) in
        (w ∷ before, v, after, m, rest, ap (◌∷◌ w) e, move)
  ]
]

abbrev Running : List ImportJob → System → Type 0
Running jobs s = SystemInv jobs s × NoneLost s.workers

fewer :
    (before after : List Worker) (w w' : Worker) (ws : List Worker)
    → ws ≡ before ++ w ∷ after
    → to_come w' < to_come w
    → sum_of to_come (before ++ w' ∷ after) < sum_of to_come ws
fewer before after w w' ws h less = omega (
  arith,
  less,
  sum_of-middle to_come before after w,
  sum_of-middle to_come before after w',
  ap (sum_of to_come) h,
)

handle_message-workers : (m : Message) (s : System) → s.workers ≡ (handle_message m s).workers
handle_message-workers (event e) s = refl
handle_message-workers (worker_finished j) s = refl

puts-advances :
    (jobs : List ImportJob) (s : System) (before after : List Worker) (w : Worker) (m : Message)
    (rest : List Message)
    → Running jobs s
    → s.workers ≡ before ++ w ∷ after
    → w.pending ≡ m ∷ rest
    → (t : System) × Step s t
      × Running jobs t
      × (sum_of to_come t.workers < sum_of to_come s.workers)
puts-advances jobs s before after w m rest (v, none_lost) h p =
    let w' : Worker = record w { queued = w.queued ++ m ∷ []; pending = rest } in
    let k : Step s (record s { workers = before ++ w' ∷ after }) = puts before after w m rest h p in
    (
      _,
      k,
      (
        Step-Inv jobs s _ k v,
        All-replace (λ x. x.lost ≡ []) before after w w' (λ e. e) (subst NoneLost h none_lost),
      ),
      fewer before after w w' s.workers h
          (omega (arith, ap length p, length-append w.queued (m ∷ []))),
    )

gets-advances :
    (jobs : List ImportJob) (s : System) (before after : List Worker) (w : Worker) (m : Message)
    (rest : List Message)
    → Running jobs s
    → looping s ≡ true
    → s.workers ≡ before ++ w ∷ after
    → w.queued ≡ m ∷ rest
    → (t : System) × Step s t
      × Running jobs t
      × (sum_of to_come t.workers < sum_of to_come s.workers)
gets-advances jobs s before after w m rest (v, none_lost) on h q =
    let w' : Worker = record w { received = w.received ++ m ∷ []; queued = rest } in
    let k = gets before after w m rest on h q in
    let same = handle_message-workers m (record s { workers = before ++ w' ∷ after }) in
    (
      _,
      k,
      (
        Step-Inv jobs s _ k v,
        subst NoneLost same (
            All-replace (λ x. x.lost ≡ []) before after w w' (λ e. e) (subst NoneLost h none_lost)),
      ),
      subst (λ ws. sum_of to_come ws < sum_of to_come s.workers) same
          (fewer before after w w' s.workers h (omega (arith, ap length q))),
    )

advances :
    (jobs : List ImportJob) (s : System)
    → Running jobs s
    → looping s ≡ true
    → (t : System) × Step s t
      × Running jobs t
      × (sum_of to_come t.workers < sum_of to_come s.workers)
advances jobs s (v, none_lost) on =
    let some_left : s.finished_workers < length s.workers = ground arith in
    let (before, w, after, m, rest, h, move) =
      can_move s.workers v.whole none_lost (omega (arith, some_left, v.counted)) in
    elim move [
      | inl p ↦ puts-advances jobs s before after w m rest (v, none_lost) h p
      | inr q ↦ gets-advances jobs s before after w m rest (v, none_lost) on h q
    ]

-- From every state of a started batch in which no worker process has been killed, the processes and
-- the collector can go on until the loop of `collect` ends, and then the events collected are an
-- interleaving of the events of all jobs.
pub collect-returns :
    (jobs : List ImportJob) (s t : System)
    → All IsNamed jobs
    → start_collect jobs ≡ ok s
    → Star Step s t
    → All (λ w. w.lost ≡ []) t.workers
    → (u : System) × Star Step t u
      × (looping u ≡ false)
      × Merge (map progress jobs) u.collected_events
collect-returns jobs s t named made run none_lost =
    let (u, further, (v, still), over) =
      Star-done (Running jobs) (λ k. not (looping k)) (λ k. sum_of to_come k.workers)
        (λ k p more. advances jobs k p (ground arith)) t
        (Reach-Inv jobs s t named made run, none_lost) in
    let ended : looping u ≡ false = ground arith in (u, further, ended, merged_over jobs u v ended)

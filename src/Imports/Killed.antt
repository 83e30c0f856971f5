-- ===== src/Imports/Killed.antt =====
-- The collector after a worker process was killed before it had put all its messages.
use python_concurrency_examp.Prelude.{
  ◌≡◌, refl, subst, inl, inr, true, not, any, is_empty, List, [], ◌∷◌, ◌++◌, arith, All, Star,
  Star-trans, Star-keeps, any-replace, Bool-cases,
}
use python_concurrency_examp.Python.{ok}
use python_concurrency_examp.Imports.{ImportJob, Message, event, worker_finished}
use python_concurrency_examp.Imports.System.{
  Worker, System, start_collect, looping, Step, puts, gets, killed,
}
use python_concurrency_examp.Imports.Invariant.{IsNamed, Reach-Inv}
use python_concurrency_examp.Imports.Collected.{has_lost, over, all_ended, none_lost}

-- What a worker has lost it will never put.
killed-has_lost : (w : Worker) → has_lost w ≡ true → not (is_empty (w.pending ++ w.lost)) ≡ true
killed-has_lost w h = go w.pending
  where
    go : (xs : List Message) → not (is_empty (xs ++ w.lost)) ≡ true
    go [] = h
    go (x ∷ xs) = refl

Step-has_lost :
    (s t : System) → Step s t → any has_lost s.workers ≡ true → any has_lost t.workers ≡ true
Step-has_lost s t (puts before after w m rest h p) l =
    any-replace has_lost before after w (record w { queued = w.queued ++ m ∷ []; pending = rest })
      (λ k. k) (subst (λ ws. any has_lost ws ≡ true) h l)
Step-has_lost s t (gets before after w (event e) rest test h q) l =
    any-replace has_lost before after w
      (record w { received = w.received ++ event e ∷ []; queued = rest }) (λ k. k)
      (subst (λ ws. any has_lost ws ≡ true) h l)
Step-has_lost s t (gets before after w (worker_finished j) rest test h q) l =
    any-replace has_lost before after w
      (record w { received = w.received ++ worker_finished j ∷ []; queued = rest }) (λ k. k)
      (subst (λ ws. any has_lost ws ≡ true) h l)
Step-has_lost s t (killed before after w h) l =
    any-replace has_lost before after w (record w { pending = []; lost = w.pending ++ w.lost })
      (killed-has_lost w) (subst (λ ws. any has_lost ws ≡ true) h l)

-- Once a worker process was killed before it had put all its messages, the loop of `collect` never
-- ends, whatever the processes and the collector still do: the check of the exit codes that stands
-- behind the loop is not reached.
pub killed-looping :
    (jobs : List ImportJob) (s t u : System)
    → All IsNamed jobs
    → start_collect jobs ≡ ok s
    → Star Step s t
    → any has_lost t.workers ≡ true
    → Star Step t u
    → looping u ≡ true
killed-looping jobs s t u named made run lost later = elim (Bool-cases (looping u)) [
  | inl on ↦ on
  | inr ended ↦
      let v = Reach-Inv jobs s u named made (Star-trans run later) in
      let all = all_ended u.workers v.whole (omega (arith, over u ended, v.counted)) in
      let still = Star-keeps (λ k. any has_lost k.workers ≡ true) Step-has_lost lost later in
      absurd (ground (arith, none_lost u.workers v.whole all, still))
]

-- ===== src/Jobs/Kept.antt =====
-- Where the jobs are: with the workers, in the queue, or handled.
use python_concurrency_examp.Prelude.{
  ℕ, suc, ◌+◌, ◌≡◌, refl, sym, ap, ◌∙◌, subst, List, [], ◌∷◌, ◌++◌, append_assoc, arith, length,
  length-append, sum_of,
}
use mathlib.Core.List.{Perm, perm_middle}
use mathlib.Core.List.Perm
use python_concurrency_examp.Python.{Result, Exc}
use python_concurrency_examp.Jobs.{
  Item, job, stop_token, Worker, waiting, handling, ended, failure, replicate,
}

module _ {T : Type 0} where
  abbrev pub held : Worker T → List T
  held waiting = []
  held (handling j) = j ∷ []
  held ended = []

  -- The jobs that workers are handling.
  abbrev pub busy : List (Worker T) → List T
  busy [] = []
  busy (w ∷ ws) = held w ++ busy ws

  abbrev pub ends : Worker T → ℕ
  ends waiting = 0
  ends (handling j) = 0
  ends ended = 1

  abbrev pub jobs_in : List (Item T) → List T
  jobs_in [] = []
  jobs_in (job j ∷ xs) = j ∷ jobs_in xs
  jobs_in (stop_token ∷ xs) = jobs_in xs

  abbrev pub tokens_in : List (Item T) → ℕ
  tokens_in [] = 0
  tokens_in (job j ∷ xs) = tokens_in xs
  tokens_in (stop_token ∷ xs) = suc (tokens_in xs)

  pub jobs_in-append : (xs ys : List (Item T)) → jobs_in (xs ++ ys) ≡ jobs_in xs ++ jobs_in ys
  jobs_in-append [] ys = refl
  jobs_in-append (job j ∷ xs) ys = ap (◌∷◌ j) (jobs_in-append xs ys)
  jobs_in-append (stop_token ∷ xs) ys = jobs_in-append xs ys

  pub tokens_in-append :
      (xs ys : List (Item T)) → tokens_in (xs ++ ys) ≡ tokens_in xs + tokens_in ys
  tokens_in-append [] ys = omega arith
  tokens_in-append (job j ∷ xs) ys = tokens_in-append xs ys
  tokens_in-append (stop_token ∷ xs) ys = omega (arith, tokens_in-append xs ys)

  pub length-jobs_in : (xs : List (Item T)) → length xs ≡ length (jobs_in xs) + tokens_in xs
  length-jobs_in [] = omega arith
  length-jobs_in (job j ∷ xs) = omega (arith, length-jobs_in xs)
  length-jobs_in (stop_token ∷ xs) = omega (arith, length-jobs_in xs)

  pub busy-append : (xs ys : List (Worker T)) → busy (xs ++ ys) ≡ busy xs ++ busy ys
  busy-append [] ys = refl
  busy-append (w ∷ xs) ys =
      ap (◌++◌ (held w)) (busy-append xs ys) ∙ sym (append_assoc (held w) (busy xs) (busy ys))

  pub length-busy :
      (before after : List (Worker T)) (w : Worker T)
      → length (busy (before ++ w ∷ after))
        ≡ length (held w) + length (busy before) + length (busy after)
  length-busy before after w = omega (
    arith,
    ap length (busy-append before (w ∷ after)),
    length-append (busy before) (held w ++ busy after),
    length-append (held w) (busy after),
  )

  pub busy-replicate : (n : ℕ) → busy (replicate n waiting) ≡ []
  busy-replicate ℕ.zero = refl
  busy-replicate (suc n) = busy-replicate n

  -- A worker with no job has taken the place of another one with none.
  pub busy-idle :
      (before after : List (Worker T)) (w w' : Worker T)
      → held w ≡ held w'
      → busy (before ++ w ∷ after) ≡ busy (before ++ w' ∷ after)
  busy-idle before after w w' h =
      busy-append before (w ∷ after)
      ∙ ap (λ l. busy before ++ (l ++ busy after)) h
      ∙ sym (busy-append before (w' ∷ after))

  eq-Perm : {xs ys : List T} → xs ≡ ys → Perm xs ys
  eq-Perm {xs} e = subst (Perm xs) e (Perm.refl xs)

  -- The job of a worker goes to the front.
  pub busy-handling :
      (before after : List (Worker T)) (j : T) (w : Worker T)
      → held w ≡ []
      → Perm (busy (before ++ handling j ∷ after)) (j ∷ busy (before ++ w ∷ after))
  busy-handling before after j w h =
      let idle = busy-append before (w ∷ after) ∙ ap (λ l. busy before ++ (l ++ busy after)) h in
      Perm.trans (eq-Perm (busy-append before (handling j ∷ after)))
        (Perm.trans (perm_middle (busy before) (busy after)) (eq-Perm (ap (◌∷◌ j) (sym idle))))

  pub Perm-takes :
      (before after : List (Worker T)) (j : T) (rest hs : List T)
      → Perm
          (hs ++ (busy (before ++ handling j ∷ after) ++ rest))
          (hs ++ (busy (before ++ waiting ∷ after) ++ j ∷ rest))
  Perm-takes before after j rest hs = Perm.append_left hs (
      Perm.trans (Perm.append_right rest (busy-handling before after j waiting refl))
        (Perm.symm (perm_middle (busy (before ++ waiting ∷ after)) rest)))

  pub Perm-finishes :
      (before after : List (Worker T)) (j : T) (rest hs : List T)
      → Perm
          ((hs ++ j ∷ []) ++ (busy (before ++ waiting ∷ after) ++ rest))
          (hs ++ (busy (before ++ handling j ∷ after) ++ rest))
  Perm-finishes before after j rest hs =
      Perm.trans (eq-Perm (append_assoc hs (j ∷ []) (busy (before ++ waiting ∷ after) ++ rest))) (
        Perm.append_left hs
          (Perm.append_right rest (Perm.symm (busy-handling before after j waiting refl))))

  -- The exceptions of the handler on a list of jobs.
  abbrev pub errors_of : (T → Result (Unit {0})) → List T → List Exc
  errors_of handler [] = []
  errors_of handler (j ∷ js) = failure (handler j) ++ errors_of handler js

  pub errors_of-append :
      (handler : T → Result (Unit {0})) (xs ys : List T)
      → errors_of handler (xs ++ ys) ≡ errors_of handler xs ++ errors_of handler ys
  errors_of-append handler [] ys = refl
  errors_of-append handler (x ∷ xs) ys =
      ap (◌++◌ (failure (handler x))) (errors_of-append handler xs ys)
      ∙ sym (append_assoc (failure (handler x)) (errors_of handler xs) (errors_of handler ys))

pub ends-replicate : (T : Type 0) (n : ℕ) → sum_of ends (replicate {T = T} n waiting) ≡ 0
ends-replicate T ℕ.zero = refl
ends-replicate T (suc n) = omega (arith, ends-replicate T n)

pub length-replicate : (T : Type 0) (n : ℕ) → length (replicate {T = T} n waiting) ≡ n
length-replicate T ℕ.zero = refl
length-replicate T (suc n) = omega (arith, length-replicate T n)

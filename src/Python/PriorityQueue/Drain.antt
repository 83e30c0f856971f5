-- ===== src/Python/PriorityQueue/Drain.antt =====
-- A priority queue that is emptied without a put in between gives its entries in their order.
use python_concurrency_examp.Prelude.{
  ℕ, zero, suc, ◌≤◌, ◌≡◌, refl, ap, ◌∙◌, inl, inr, none, some, List, [], ◌∷◌, All, arith, length,
  Bool-cases,
}
use mathlib.Core.List.{Perm}
use mathlib.Core.List.Perm
use python_concurrency_examp.Python.PriorityQueue.{
  Entry, PriorityQueue, comes_before, extract, take_least, get_nowait,
}
use python_concurrency_examp.Python.PriorityQueue.Least.{
  NotAfter, get_nowait-least, get_nowait-All, extract-before, extract-after,
}

module _ {A : Type 0} where
  -- Every entry may go before all that follow it.
  abbrev pub IsRanked : List (Entry A) → Type 0
  IsRanked [] = Unit
  IsRanked (e ∷ es) = All (NotAfter e) es × IsRanked es

  -- The entries that n calls of `get` take out, up to the first that finds none.
  unfoldable pub drain_entries : ℕ → PriorityQueue A → List (Entry A)
  drain_entries zero q = []
  drain_entries (suc n) q =
      let (found, left) = get_nowait q in
      let rest = drain_entries n left in elim found [ none ↦ [] | some e ↦ e ∷ rest ]

  length-extract : (e : Entry A) (es : List (Entry A)) → length (extract e es).1 ≡ length es
  unfolding extract
  length-extract e [] = refl
  length-extract e (x ∷ es) = elim (Bool-cases (comes_before (extract x es).0 e)) [
    | inl before ↦
        ap (λ r. length r.1) (extract-before e x es before) ∙ omega (arith, length-extract x es)
    | inr after ↦ ap (λ r. length r.1) (extract-after e x es after)
  ]

  drain_entries-All :
      (P : Entry A → Type 0) (n : ℕ) (es : List (Entry A)) (m : ℕ)
      → All P es
      → All P (drain_entries n (record { entries = es; unfinished = m }))
  unfolding drain_entries get_nowait take_least
  drain_entries-All P zero es m h = tt
  drain_entries-All P (suc n) [] m h = tt
  drain_entries-All P (suc n) (e ∷ es) m h =
      let (one, rest) =
        get_nowait-All P (e ∷ es) m (extract e es).0
          (record { entries = (extract e es).1; unfinished = m }) refl h in
      (one, drain_entries-All P n (extract e es).1 m rest)

  pub drain_entries-IsRanked :
      (n : ℕ) (es : List (Entry A)) (m : ℕ)
      → length es ≤ n
      → IsRanked (drain_entries n (record { entries = es; unfinished = m }))
        × Perm (drain_entries n (record { entries = es; unfinished = m })) es
  unfolding drain_entries get_nowait take_least
  drain_entries-IsRanked zero [] m h = (tt, Perm.refl [])
  drain_entries-IsRanked zero (e ∷ es) m h = absurd (omega (arith, h))
  drain_entries-IsRanked (suc n) [] m h = (tt, Perm.refl [])
  drain_entries-IsRanked (suc n) (e ∷ es) m h =
      let (perm, first) =
        get_nowait-least (e ∷ es) m (extract e es).0
          (record { entries = (extract e es).1; unfinished = m }) refl in
      let (ranked, same) =
        drain_entries-IsRanked n (extract e es).1 m (omega (arith, h, length-extract e es)) in
      (
        (drain_entries-All (NotAfter (extract e es).0) n (extract e es).1 m first, ranked),
        Perm.trans (Perm.cons (extract e es).0 same) perm,
      )

-- ===== src/Python/PriorityQueue/Least.antt =====
-- What leaves the queue, and what stays.
use python_concurrency_examp.Prelude.{
  ℕ, ◌≤◌, ◌≡◌, refl, ap, sym, subst, inl, inr, true, false, none, some, List, [], ◌∷◌, All, arith,
  Bool-cases,
}
use mathlib.Core.List.{Perm}
use mathlib.Core.List.Perm
use python_concurrency_examp.Prelude.Int.{pos_part, neg_part, ◌≤ℤ◌}
use python_concurrency_examp.Python.PriorityQueue.{
  Entry, PriorityQueue, comes_before, extract, take_least, get_nowait,
}

module _ {A : Type 0} where
  -- `a` may go before `b`: it is at least as urgent, and of equal priority no later.
  abbrev pub NotAfter : Entry A → Entry A → Type 0
  NotAfter a b = (a.priority ≤ℤ b.priority) × (a.priority ≡ b.priority → a.sequence ≤ b.sequence)

  not_before : (a b : Entry A) → comes_before b a ≡ false → NotAfter a b
  unfolding comes_before
  not_before a b h = (ground arith, λ e. ground (arith, ap pos_part e, ap neg_part e))

  not_before_trans :
      (a b c : Entry A)
      → comes_before b a ≡ false
      → comes_before c b ≡ false
      → comes_before c a ≡ false
  unfolding comes_before
  not_before_trans a b c h k = ground arith

  not_before_refl : (a : Entry A) → comes_before a a ≡ false
  unfolding comes_before
  not_before_refl a = ground arith

  before_not : (a b : Entry A) → comes_before a b ≡ true → comes_before b a ≡ false
  unfolding comes_before
  before_not a b h = ground arith

  All-after :
      (a b : Entry A) (es : List (Entry A))
      → comes_before b a ≡ false
      → All (λ x. comes_before x b ≡ false) es
      → All (λ x. comes_before x a ≡ false) es
  All-after a b [] h k = tt
  All-after a b (x ∷ es) h k = (not_before_trans a b x h k.0, All-after a b es h k.1)

  pub extract-before :
      (e x : Entry A) (es : List (Entry A))
      → comes_before (extract x es).0 e ≡ true
      → extract e (x ∷ es) ≡ ((extract x es).0, e ∷ (extract x es).1)
  unfolding extract
  extract-before e x es h = rw h refl

  pub extract-after :
      (e x : Entry A) (es : List (Entry A))
      → comes_before (extract x es).0 e ≡ false
      → extract e (x ∷ es) ≡ (e, x ∷ es)
  unfolding extract
  extract-after e x es h = rw h refl

  -- Nothing among `e ∷ es` goes before the entry taken out, and the others stay.
  abbrev Splits : Entry A → List (Entry A) → Entry A × List (Entry A) → Type 0
  Splits e es (l, rest) =
      (comes_before e l ≡ false)
      × All (λ x. comes_before x l ≡ false) es
      × All (λ x. comes_before x l ≡ false) rest
      × Perm (l ∷ rest) (e ∷ es)

  extract-Splits : (e : Entry A) (es : List (Entry A)) → Splits e es (extract e es)
  unfolding extract
  extract-Splits e [] = (not_before_refl e, tt, tt, Perm.refl (e ∷ []))
  extract-Splits e (x ∷ es) =
      let l = (extract x es).0 in
      let (first, all, rest, perm) = extract-Splits x es in
      elim (Bool-cases (comes_before l e)) [
        | inl before ↦
            let behind = before_not l e before in
            subst (Splits e (x ∷ es)) (sym (extract-before e x es before)) (
              behind,
              (first, all),
              (behind, rest),
              Perm.trans (Perm.swap e l (extract x es).1) (Perm.cons e perm),
            )
        | inr after ↦
            let back = not_before_trans e l x after first in
            let behind = All-after e l es after all in
            subst (Splits e (x ∷ es)) (sym (extract-after e x es after))
              (not_before_refl e, (back, behind), (back, behind), Perm.refl (e ∷ x ∷ es))
      ]

  weaken :
      (a : Entry A) (es : List (Entry A))
      → All (λ x. comes_before x a ≡ false) es
      → All (NotAfter a) es
  weaken a [] h = tt
  weaken a (x ∷ es) h = (not_before a x h.0, weaken a es h.1)

  -- `get` takes out an entry that may go before all that stay, and loses none.
  pub get_nowait-least :
      (es : List (Entry A)) (n : ℕ) (e : Entry A) (q : PriorityQueue A)
      → get_nowait (record { entries = es; unfinished = n }) ≡ (some e, q)
      → Perm (e ∷ q.entries) es × All (NotAfter e) q.entries
  unfolding get_nowait take_least
  get_nowait-least [] n e q h = absurd (ground arith)
  get_nowait-least (x ∷ es) n e q h =
      let (first, all, rest, perm) = extract-Splits x es in
      let out : (extract x es).0 ≡ e = ground (arith, ap (λ p. p.0) h) in
      let left : (extract x es).1 ≡ q.entries = ap (λ p. p.1.entries) h in
      subst (λ l. Perm (e ∷ l) (x ∷ es) × All (NotAfter e) l) left
        (subst (λ l. Perm (l ∷ (extract x es).1) (x ∷ es) × All (NotAfter l) (extract x es).1) out
          (perm, weaken (extract x es).0 (extract x es).1 rest))

  extract-All :
      (P : Entry A → Type 0) (e : Entry A) (es : List (Entry A))
      → P e
      → All P es
      → P (extract e es).0 × All P (extract e es).1
  unfolding extract
  extract-All P e [] h all = (h, tt)
  extract-All P e (x ∷ es) h all =
      let (least, rest) = extract-All P x es all.0 all.1 in
      elim (Bool-cases (comes_before (extract x es).0 e)) [
        | inl before ↦
            subst (λ o. P o.0 × All P o.1) (sym (extract-before e x es before)) (least, (h, rest))
        | inr after ↦ subst (λ o. P o.0 × All P o.1) (sym (extract-after e x es after)) (h, all)
      ]

  -- What holds of every entry holds of the one that `get` takes out and of those that stay.
  pub get_nowait-All :
      (P : Entry A → Type 0) (es : List (Entry A)) (n : ℕ) (e : Entry A) (q : PriorityQueue A)
      → get_nowait (record { entries = es; unfinished = n }) ≡ (some e, q)
      → All P es
      → P e × All P q.entries
  unfolding get_nowait take_least
  get_nowait-All P [] n e q h all = absurd (ground arith)
  get_nowait-All P (x ∷ es) n e q h all =
      let out : (extract x es).0 ≡ e = ground (arith, ap (λ p. p.0) h) in
      let left : (extract x es).1 ≡ q.entries = ap (λ p. p.1.entries) h in
      let (least, rest) = extract-All P x es all.0 all.1 in
      (subst P out least, subst (All P) left rest)

  -- An empty queue is left alone.
  pub get_nowait-none :
      (es : List (Entry A)) (n : ℕ)
      → (get_nowait (record { entries = es; unfinished = n })).0 ≡ none
      → (get_nowait (record { entries = es; unfinished = n })).1
        ≡ record { entries = es; unfinished = n }
  unfolding get_nowait take_least
  get_nowait-none [] n h = refl
  get_nowait-none (x ∷ es) n h = absurd (ground arith)

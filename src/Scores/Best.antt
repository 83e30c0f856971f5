-- ===== src/Scores/Best.antt =====
-- The score of each player after any calls of `record_score`.
use python_concurrency_examp.Prelude.{
  String, ◌≡◌, refl, Bool, false, Option, none, some, List, [], ◌∷◌, arith, ◌==◌, eq_iff, ap, ◌∙◌,
  inl, inr, Bool-cases, if◌then◌else◌,
}
use mathlib.Core.List.{Perm, Permᴰ}
use mathlib.Core.Path.{ap₂}
use mathlib.Core.Logic.{∥∥₁_elim}
use python_concurrency_examp.Prelude.Int.{ℤ, pos, ltb_ℤ}
use python_concurrency_examp.Python.{ok}
use python_concurrency_examp.Python.Dict.{lookup, lookup-insert}
use python_concurrency_examp.Scores.{Leaderboard, create, record_score, score_for, run}

-- The higher of a score so far and a new one.
abbrev pub higher : Option ℤ → ℤ → Option ℤ
higher none x = some x
higher (some y) x = if ltb_ℤ y x then some x else some y

-- A call that is valid and about player `p`.
abbrev pub counts : String → String × ℤ → Bool
counts p (q, x) = if q == "" then false else if ltb_ℤ x (pos 0) then false else q == p

abbrev pub absorb : String → Option ℤ → String × ℤ → Option ℤ
absorb p o c = if counts p c then higher o c.1 else o

-- The highest valid score of player `p` among the calls, starting from a score so far.
abbrev pub best_from : String → Option ℤ → List (String × ℤ) → Option ℤ
best_from p so_far [] = so_far
best_from p so_far (c ∷ cs) = best_from p (absorb p so_far c) cs

lookup-record_score :
    (p q : String) (x : ℤ) (b : Leaderboard)
    → lookup p (record_score q x b).1.scores ≡ absorb p (lookup p b.scores) (q, x)
unfolding record_score
lookup-record_score p q x b = ground (arith, lookup-insert q p x b.scores, eq_iff q p)

lookup-run :
    (p : String) (cs : List (String × ℤ)) (b : Leaderboard)
    → lookup p (run cs b).scores ≡ best_from p (lookup p b.scores) cs
unfolding run
lookup-run p [] b = refl
lookup-run p ((q, x) ∷ cs) b =
    lookup-run p cs (record_score q x b).1
    ∙ ap (λ o. best_from p o cs) (lookup-record_score p q x b)

-- From an empty leaderboard, after any calls, `score_for` returns the highest valid score that was
-- recorded for the player, and None if there was none.
pub score_for-run :
    (p : String) (cs : List (String × ℤ))
    → (p == "") ≡ false
    → (score_for p (run cs create)).0 ≡ ok (best_from p none cs)
unfolding score_for lookup
score_for-run p cs named = ground (arith, lookup-run p cs create)

higher_comm : (o : Option ℤ) (x y : ℤ) → higher (higher o x) y ≡ higher (higher o y) x
higher_comm o x y = ground arith

absorb_comm :
    (p : String) (o : Option ℤ) (d e : String × ℤ)
    → absorb p (absorb p o d) e ≡ absorb p (absorb p o e) d
absorb_comm p o d e = elim (Bool-cases (counts p d)) [
  | inl yes_d ↦ elim (Bool-cases (counts p e)) [
    | inl yes_e ↦ rw (yes_d, yes_e) (higher_comm o d.1 e.1)
    | inr no_e ↦ rw (yes_d, no_e) refl
  ]
  | inr no_d ↦ rw no_d refl
]

best_from-perm :
    (p : String) {cs ds : List (String × ℤ)}
    → Permᴰ cs ds
    → (o : Option ℤ) → best_from p o cs ≡ best_from p o ds
best_from-perm p Permᴰ.nil o = refl
best_from-perm p (Permᴰ.cons {b = e} {l₁ = cs} same h) o =
    ap (λ c. best_from p (absorb p o c) cs) same ∙ best_from-perm p h (absorb p o e)
best_from-perm p (Permᴰ.swap {a = d} {b = e} {l = cs} same same') o =
    ap (λ x. best_from p x cs) (absorb_comm p o d e)
    ∙ ap₂ (λ x y. best_from p (absorb p (absorb p o x) y) cs) same' same
best_from-perm p (Permᴰ.trans h k) o = best_from-perm p h o ∙ best_from-perm p k o

option_set : IsSet (Option ℤ)
option_set = hlevel

-- The order in which the threads take the lock does not matter: after the same calls in another
-- order every `score_for` returns the same.
score_for-perm :
    (p : String) (cs ds : List (String × ℤ))
    → Perm cs ds
    → (score_for p (run cs create)).0 ≡ (score_for p (run ds create)).0
unfolding score_for lookup
score_for-perm p cs ds same =
    let agree : best_from p none cs ≡ best_from p none ds =
      ∥∥₁_elim same (option_set _ _) (λ h. best_from-perm p h none) in
    ground (arith, agree, lookup-run p cs create, lookup-run p ds create)

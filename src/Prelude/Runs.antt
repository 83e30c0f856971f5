-- ===== src/Prelude/Runs.antt =====
-- Runs of a step relation, for the systems of threads, tasks and processes.
use Prim.Native.Nat.{ℕ, zero, suc, ◌≤◌, ◌<◌}
use mathlib.Core.Path.{◌≡◌}
use mathlib.Core.Logic.{inl, inr}
use mathlib.Core.Bool.{Bool, true, false}
use native.Mathlib.Omega.{arith}
use python_concurrency_examp.Prelude.Tests.{Bool-cases}

pub data Star {S : Type 0} (R : S → S → Type 0) (s : S) : S → Type 0 where
  here : Star R s s
  next : {t u : S} → Star R s t → R t u → Star R s u

module _ {S : Type 0} {R : S → S → Type 0} where
  pub Star-trans : {s t u : S} → Star R s t → Star R t u → Star R s u
  Star-trans a here = a
  Star-trans a (next b k) = next (Star-trans a b) k

  -- What every step keeps holds in every state that a run reaches.
  pub Star-keeps :
      (P : S → Type 0) {s t : S} → ((u v : S) → R u v → P u → P v) → P s → Star R s t → P t
  Star-keeps P keep p here = p
  Star-keeps P keep p (next a k) = keep _ _ k (Star-keeps P keep p a)

  -- Where some step makes the measure smaller until the system is done, a run gets it done.
  Star-done_within :
      (P : S → Type 0) (done : S → Bool) (measure : S → ℕ)
      → ((u : S) → P u → done u ≡ false → (v : S) × R u v × P v × (measure v < measure u))
      → (n : ℕ) (s : S) → measure s ≤ n
      → P s
      → (t : S) × Star R s t × P t × (done t ≡ true)
  Star-done_within P done measure advance zero s bound p = elim (Bool-cases (done s)) [
    | inl over ↦ (s, here, p, over)
    | inr more ↦ let (v, k, q, less) = advance s p more in absurd (omega (arith, less, bound))
  ]
  Star-done_within P done measure advance (suc n) s bound p = elim (Bool-cases (done s)) [
    | inl over ↦ (s, here, p, over)
    | inr more ↦
        let (v, k, q, less) = advance s p more in
        let (t, run, r, over) =
          Star-done_within P done measure advance n v (omega (arith, less, bound)) q in
        (t, Star-trans (next here k) run, r, over)
  ]

  pub Star-done :
      (P : S → Type 0) (done : S → Bool) (measure : S → ℕ)
      → ((u : S) → P u → done u ≡ false → (v : S) × R u v × P v × (measure v < measure u))
      → (s : S) → P s
      → (t : S) × Star R s t × P t × (done t ≡ true)
  Star-done P done measure advance s p =
      Star-done_within P done measure advance (measure s) s (omega arith) p

-- ===== src/Python/StrSet.antt =====
-- Python's `set` and `frozenset` of strings, as a list with no element twice.
use python_concurrency_examp.Prelude.{
  String, ◌≡◌, refl, Bool, true, false, ◌||◌, ◌&&◌, not, List, [], ◌∷◌, arith, ◌==◌, eq_iff,
  eq_refl, if◌then◌else◌, ◌⊎◌, inl, inr, Bool-cases, is_empty,
}

abbrev pub StrSet : Type 0
StrSet = List String

-- `a in s`
unfoldable pub mem : String → StrSet → Bool
mem a [] = false
mem a (x ∷ s) = x == a || mem a s

-- `s.add(a)`
unfoldable pub add : String → StrSet → StrSet
add a s = if mem a s then s else a ∷ s

-- `frozenset(xs)`
unfoldable pub from_list : List String → StrSet
from_list [] = []
from_list (x ∷ xs) = add x (from_list xs)

-- `s <= t`
unfoldable pub subset : StrSet → StrSet → Bool
subset [] t = true
subset (x ∷ s) t = mem x t && subset s t

-- `s - t`
unfoldable pub difference : StrSet → StrSet → StrSet
difference [] t = []
difference (x ∷ s) t = let rest = difference s t in if mem x t then rest else x ∷ rest

-- No element stands twice.
abbrev pub NoRepeats : StrSet → Type 0
NoRepeats [] = Unit
NoRepeats (x ∷ s) = (mem x s ≡ false) × NoRepeats s

pub mem-add : (a b : String) (s : StrSet) → mem b (add a s) ≡ (a == b || mem b s)
unfolding add mem
mem-add a b s = ground (arith, eq_iff a b)

pub mem-from_list : (a : String) (xs : List String) → mem a (from_list xs) ≡ mem a xs
unfolding from_list mem
mem-from_list a [] = refl
mem-from_list a (x ∷ xs) = ground (arith, mem-add x a (from_list xs), mem-from_list a xs)

pub mem-difference :
    (a : String) (s t : StrSet) → mem a (difference s t) ≡ (mem a s && not (mem a t))
unfolding difference mem
mem-difference a [] t = refl
mem-difference a (x ∷ s) t = ground (arith, mem-difference a s t, eq_iff x a)

pub add-NoRepeats : (a : String) (s : StrSet) → NoRepeats s → NoRepeats (add a s)
unfolding add
add-NoRepeats a s h = ground arith

pub subset-mem : (a : String) (s t : StrSet) → subset s t ≡ true → mem a s ≡ true → mem a t ≡ true
unfolding subset mem
subset-mem a [] t h k = cc
subset-mem a (x ∷ s) t h k = ground (arith, subset-mem a s t, eq_iff x a)

-- The element of `s` that `t` lacks, if there is one.
pub subset-cases :
    (s t : StrSet) → (subset s t ≡ true) ⊎ ((a : String) × (mem a s ≡ true) × (mem a t ≡ false))
unfolding subset mem
subset-cases [] t = inl refl
subset-cases (x ∷ s) t = elim (Bool-cases (mem x t)) [
  | inr lacks ↦ inr (x, ground (arith, eq_refl x), lacks)
  | inl has ↦ elim (subset-cases s t) [
    | inl all ↦ inl (ground arith)
    | inr (a, there, lacks) ↦ inr (a, ground arith, lacks)
  ]
]

pub difference-empty : (s t : StrSet) → is_empty (difference s t) ≡ subset s t
unfolding difference subset
difference-empty [] t = refl
difference-empty (x ∷ s) t = ground (arith, difference-empty s t)

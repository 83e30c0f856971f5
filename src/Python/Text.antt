-- ===== src/Python/Text.antt =====
-- Python's order of strings, by code points and lexicographically, and the text of an `int`.
use Prim.Native.Char.{code}
use Prim.Native.String.{◌++◌}
use python_concurrency_examp.Prelude.{
  ℕ, zero, suc, ◌/◌, String, ◌≡◌, refl, Bool, true, false, some, none, List, [], ◌∷◌, arith, ltb,
  if◌then◌else◌, get_elem?,
}
use Prim.Native.Nat.{◌%◌}
use python_concurrency_examp.Prelude.Int.{ℤ}

abbrev pub codes : String → List ℕ
codes String.[] = []
codes (String.◌∷◌ c s) = code c ∷ codes s

unfoldable pub lex_leb : List ℕ → List ℕ → Bool
lex_leb [] ys = true
lex_leb (x ∷ xs) [] = false
lex_leb (x ∷ xs) (y ∷ ys) =
    let rest = lex_leb xs ys in if ltb x y then true else if ltb y x then false else rest

-- `a <= b`
abbrev pub text_leb : String → String → Bool
text_leb a b = lex_leb (codes a) (codes b)

pub lex_leb_total : (xs ys : List ℕ) → lex_leb xs ys ≡ false → lex_leb ys xs ≡ true
unfolding lex_leb
lex_leb_total [] ys h = cc
lex_leb_total (x ∷ xs) [] h = refl
lex_leb_total (x ∷ xs) (y ∷ ys) h = ground (arith, lex_leb_total xs ys)

pub lex_leb_trans :
    (xs ys zs : List ℕ) → lex_leb xs ys ≡ true → lex_leb ys zs ≡ true → lex_leb xs zs ≡ true
unfolding lex_leb
lex_leb_trans [] ys zs h k = refl
lex_leb_trans (x ∷ xs) [] zs h k = cc
lex_leb_trans (x ∷ xs) (y ∷ ys) [] h k = cc
lex_leb_trans (x ∷ xs) (y ∷ ys) (z ∷ zs) h k = ground (arith, lex_leb_trans xs ys zs)

abbrev ten : List String
ten = "0" ∷ "1" ∷ "2" ∷ "3" ∷ "4" ∷ "5" ∷ "6" ∷ "7" ∷ "8" ∷ "9" ∷ []

unfoldable pub digit : ℕ → String
digit n = elim (get_elem? ten n) [ none ↦ "" | some d ↦ d ]

-- The digits of `n`, on more fuel than there are digits.
unfoldable pub digits : ℕ → ℕ → String
unfolding digit
digits zero n = ""
digits (suc fuel) n =
    let front = digits fuel (n / 10) in if ltb n 10 then digit n else front ++ digit (n % 10)

-- `str(n)`
unfoldable pub str_int : ℤ → String
unfolding digits
str_int (ℤ.pos n) = digits (suc n) n
str_int (ℤ.negsuc n) = "-" ++ digits (suc (suc n)) (suc n)

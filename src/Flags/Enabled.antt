-- ===== src/Flags/Enabled.antt =====
-- What `enabled_flags` returns.
use python_concurrency_examp.Prelude.{
  String, Bool, ◌≡◌, ◌↔◌, refl, ap, sym, ◌∙◌, subst, inl, inr, true, false, ◌&&◌, List, [], ◌∷◌,
  ◌==◌, any, arith, Bool-cases, eq_iff, if◌then◌else◌,
}
use python_concurrency_examp.Python.{ok}
use python_concurrency_examp.Python.Dict.{Dict, keys, mem-keys}
use python_concurrency_examp.Python.StrSet.{StrSet, mem, from_list, mem-from_list}
use python_concurrency_examp.Flags.{
  FeatureFlags, unnamed, create, get_flag, is_enabled, replace_all, enabled_among, enabled_flags,
  run,
}

create-unnamed :
    (flags : Dict Bool) (s : FeatureFlags) → create flags ≡ ok s → unnamed s.flags ≡ false
unfolding create
create-unnamed flags s h = elim (Bool-cases (unnamed flags)) [
  | inl bad ↦ absurd (ground arith)
  | inr good ↦
      let same : record { flags = flags } ≡ s = ground arith in
      subst (λ k. unnamed k.flags ≡ false) same good
]

replace_all-unnamed :
    (flags : Dict Bool) (s : FeatureFlags)
    → unnamed s.flags ≡ false
    → unnamed (replace_all flags s).1.flags ≡ false
unfolding replace_all
replace_all-unnamed flags s h = ground arith

run-unnamed :
    (rs : List (Dict Bool)) (s : FeatureFlags)
    → unnamed s.flags ≡ false
    → unnamed (run rs s).flags ≡ false
unfolding run
run-unnamed [] s h = h
run-unnamed (flags ∷ rs) s h =
    run-unnamed rs (replace_all flags s).1 (replace_all-unnamed flags s h)

enabled_among-cons :
    (name : String) (names rest : List String) (s : FeatureFlags)
    → name == "" ≡ false
    → enabled_among names s ≡ (ok rest, s)
    → enabled_among (name ∷ names) s ≡ (ok (if get_flag name s then name ∷ rest else rest), s)
unfolding enabled_among is_enabled
enabled_among-cons name names rest s named e = ground arith

mem-cons :
    (n name : String) (names rest : List String) (s : FeatureFlags)
    → mem n rest ≡ (mem n names && get_flag n s)
    → mem n (if get_flag name s then name ∷ rest else rest) ≡ (mem n (name ∷ names) && get_flag n s)
unfolding mem
mem-cons n name names rest s h = elim (Bool-cases (name == n)) [
  | inl same ↦
      let e : name ≡ n = (eq_iff name n).0 same in
      let f = ap (λ k. get_flag k s) e in ground (arith, f)
  | inr differs ↦ ground arith
]

enabled_among-mem :
    (names : List String) (s : FeatureFlags)
    → any (λ name. name == "") names ≡ false
    → (found : List String) × (enabled_among names s ≡ (ok found, s))
      × ((n : String) → mem n found ≡ (mem n names && get_flag n s))
unfolding enabled_among
enabled_among-mem [] s h = ([], refl, λ n. unfold mem in refl)
enabled_among-mem (name ∷ names) s h =
    let (rest, e, m) = enabled_among-mem names s (ground arith) in
    (
      if get_flag name s then name ∷ rest else rest,
      enabled_among-cons name names rest s (ground arith) e,
      λ n. mem-cons n name names rest s (m n),
    )

unnamed-mem : (names : List String) → any (λ name. name == "") names ≡ false → mem "" names ≡ false
unfolding mem
unnamed-mem [] h = refl
unnamed-mem (name ∷ names) h = ground (arith, unnamed-mem names)

get_flag-is_enabled :
    (n : String) (s : FeatureFlags)
    → unnamed s.flags ≡ false
    → ((mem n (keys s.flags) && get_flag n s) ≡ true) ↔ ((is_enabled n s).0 ≡ ok true)
unfolding is_enabled
get_flag-is_enabled n s h = (
  λ e. elim (Bool-cases (n == "")) [
    | inl empty ↦
        let same = ap (λ k. mem k (keys s.flags)) ((eq_iff n "").0 empty) in
        absurd (ground (arith, same, unnamed-mem (keys s.flags) h))
    | inr named ↦ ground arith
  ],
  λ e. ground (arith, mem-keys n s.flags),
)

-- On a created snapshot and after any refreshes, `enabled_flags` raises nothing, changes nothing, and
-- returns exactly the names for which `is_enabled` returns True.
enabled_flags-is_enabled :
    (flags : Dict Bool) (s : FeatureFlags) (rs : List (Dict Bool))
    → create flags ≡ ok s
    → (found : StrSet) × (enabled_flags (run rs s) ≡ (ok found, run rs s))
      × ((n : String) → (mem n found ≡ true) ↔ ((is_enabled n (run rs s)).0 ≡ ok true))
unfolding enabled_flags
enabled_flags-is_enabled flags s rs made =
    let t = run rs s in
    let named = run-unnamed rs s (create-unnamed flags s made) in
    let (found, e, m) = enabled_among-mem (keys t.flags) t named in
    (
      from_list found,
      ground arith,
      λ n.
          subst (λ b. (b ≡ true) ↔ ((is_enabled n t).0 ≡ ok true))
            (sym (mem-from_list n found ∙ m n)) (get_flag-is_enabled n t named),
    )

-- ===== src/Gate/Passing.antt =====
-- The barrier, the workers inside, and how many have passed.
use python_concurrency_examp.Prelude.{
  ℕ, zero, suc, ◌+◌, ◌-◌, ◌<◌, ◌≡◌, sym, ap, ◌∙◌, subst, false, List, [], ◌∷◌, ◌++◌, arith, length,
  length-append, sum_of, sum_of-append, nat_eq,
}
use python_concurrency_examp.Python.{Exc, Result, ok, err, broken_barrier}
use python_concurrency_examp.Python.Barrier
use python_concurrency_examp.Python.Barrier.{
  State, filling, draining, resetting, broken, Barrier, Arrival, blocked, refused, waits, released,
  fill, arrive, exit, go_out, resume, is_broken,
}

-- A call that passed.
abbrev pub passes : Result ℕ → ℕ
passes (ok index) = 1
passes (err e) = 0

-- How many workers have passed.
abbrev pub passed : List (Result ℕ) → ℕ
passed rs = sum_of passes rs

-- So many groups of n.
abbrev pub groups : ℕ → ℕ → ℕ
groups n zero = 0
groups n (suc k) = n + groups n k

-- The workers that have been released and are still on their way out.
abbrev pub on_the_way : State → ℕ → ℕ
on_the_way filling n = 0
on_the_way draining n = n
on_the_way resetting n = 0
on_the_way broken n = 0

-- At least one worker is inside while all leave.
abbrev pub IsInhabited : State → ℕ → Type 0
IsInhabited filling n = Unit {0}
IsInhabited draining n = 0 < n
IsInhabited resetting n = 0 < n
IsInhabited broken n = Unit {0}

pub record BarrierInv (n : ℕ) (b : Barrier) (waiting : List ℕ) (returned : List (Result ℕ))
    (releases : ℕ) : Type 0 where
  pub sized : (b.parties ≡ n) × (1 < n)
  pub counted : b.count ≡ length waiting
  pub below : b.count < n
  pub inhabited : IsInhabited b.state b.count
  pub grouped : passed returned + on_the_way b.state b.count ≡ groups n releases

passed-append : (rs : List (Result ℕ)) (r : Result ℕ) → passed (rs ++ r ∷ []) ≡ passed rs + passes r
passed-append rs r = omega (arith, sum_of-append passes rs (r ∷ []))

arrive-waits :
    (b c : Barrier) (index : ℕ)
    → arrive b ≡ (waits index, c)
    → (b.state ≡ filling)
      × (record b { count = suc b.count } ≡ c)
      × (nat_eq (suc b.count) b.parties ≡ false)
unfolding arrive
arrive-waits b c index h = (ground (arith, h), ground (arith, h), ground (arith, h))

arrive-released :
    (b c : Barrier) (index : ℕ)
    → arrive b ≡ (released index, c)
    → (b.state ≡ filling) × (record b { state = draining } ≡ c) × (suc b.count ≡ b.parties)
unfolding arrive
arrive-released b c index h = (ground (arith, h), ground (arith, h), ground (arith, h))

pub arrive-blocked : (b c : Barrier) → arrive b ≡ (blocked, c) → b ≡ c
unfolding arrive
arrive-blocked b c h = ground (arith, h)

pub arrive-refused : (b c : Barrier) → arrive b ≡ (refused, c) → b ≡ c
unfolding arrive
arrive-refused b c h = ground (arith, h)

pub waits-Inv :
    (n : ℕ) (b c : Barrier) (ws : List ℕ) (rs : List (Result ℕ)) (k index : ℕ)
    → arrive b ≡ (waits index, c)
    → BarrierInv n b ws rs k
    → BarrierInv n c (ws ++ index ∷ []) rs k
waits-Inv n b c ws rs k index h v =
    let (fills, same, not_last) = arrive-waits b c index h in
    subst (λ x. BarrierInv n x (ws ++ index ∷ []) rs k) same
      (record {
        sized = v.sized;
        counted = omega (arith, v.counted, length-append ws (index ∷ []));
        below = ground (arith, v.below, v.sized.0, not_last);
        inhabited = subst (λ s. IsInhabited s (suc b.count)) (sym fills) tt;
        grouped =
            ap (λ s. passed rs + on_the_way s (suc b.count)) fills
            ∙ sym (ap (λ s. passed rs + on_the_way s b.count) fills)
            ∙ v.grouped;
      })

pub released-Inv :
    (n : ℕ) (b c : Barrier) (ws : List ℕ) (rs : List (Result ℕ)) (k index : ℕ)
    → arrive b ≡ (released index, c)
    → BarrierInv n b ws rs k
    → BarrierInv n c ws (rs ++ ok index ∷ []) (suc k)
released-Inv n b c ws rs k index h v =
    let (fills, same, last) = arrive-released b c index h in
    subst (λ x. BarrierInv n x ws (rs ++ ok index ∷ []) (suc k)) same
      (record {
        sized = v.sized;
        counted = v.counted;
        below = v.below;
        inhabited = omega (arith, last, v.sized.0, v.sized.1);
        grouped = omega (
          arith,
          passed-append rs (ok index),
          v.grouped,
          ap (λ s. on_the_way s b.count) fills,
          last,
          v.sized.0,
        );
      })

pub raised-Inv :
    (n : ℕ) (b : Barrier) (ws : List ℕ) (rs : List (Result ℕ)) (k : ℕ) (e : Exc)
    → BarrierInv n b ws rs k
    → BarrierInv n b ws (rs ++ err e ∷ []) k
raised-Inv n b ws rs k e v = record {
  sized = v.sized;
  counted = v.counted;
  below = v.below;
  inhabited = v.inhabited;
  grouped = omega (arith, passed-append rs (err e), v.grouped);
}

pub reset-Inv :
    (n p c : ℕ) (s : State) (ws : List ℕ) (rs : List (Result ℕ)) (k : ℕ)
    → BarrierInv n (record { parties = p; count = c; state = s }) ws rs k
    → BarrierInv n (Barrier.reset (record { parties = p; count = c; state = s })) ws rs k
unfolding Barrier.reset
reset-Inv n p zero filling ws rs k v = v
reset-Inv n p zero draining ws rs k v = absurd (omega (arith, v.inhabited))
reset-Inv n p zero resetting ws rs k v = absurd (omega (arith, v.inhabited))
reset-Inv n p zero broken ws rs k v = record {
  sized = v.sized;
  counted = v.counted;
  below = v.below;
  inhabited = tt;
  grouped = v.grouped;
}
reset-Inv n p (suc c) filling ws rs k v = record {
  sized = v.sized;
  counted = v.counted;
  below = v.below;
  inhabited = omega arith;
  grouped = v.grouped;
}
reset-Inv n p (suc c) draining ws rs k v = v
reset-Inv n p (suc c) resetting ws rs k v = v
reset-Inv n p (suc c) broken ws rs k v = record {
  sized = v.sized;
  counted = v.counted;
  below = v.below;
  inhabited = omega arith;
  grouped = v.grouped;
}

-- What `resume` gives in each state, and the state that it leaves to `exit`.
abbrev answer : ℕ → State → Result ℕ
answer index filling = err broken_barrier
answer index draining = ok index
answer index resetting = err broken_barrier
answer index broken = err broken_barrier

abbrev left_in : State → State
left_in filling = broken
left_in draining = draining
left_in resetting = resetting
left_in broken = broken

go_out-lem :
    (r : Result ℕ) (s : State) (p c : ℕ) (t : State)
    → go_out r s (record { parties = p; count = suc c; state = t })
      ≡ (r, record { parties = p; count = c; state = exit s c })
go_out-lem r s p c t =
    let fewer : suc c - 1 ≡ c = omega arith in
    let out : ℕ → Result ℕ × Barrier =
      λ m. (r, record { parties = p; count = m; state = exit s m }) in
    ap out fewer

exit-IsInhabited : (s : State) (c : ℕ) → IsInhabited (exit (left_in s) c) c
exit-IsInhabited filling zero = tt
exit-IsInhabited draining zero = tt
exit-IsInhabited resetting zero = tt
exit-IsInhabited broken zero = tt
exit-IsInhabited filling (suc c) = tt
exit-IsInhabited draining (suc c) = omega arith
exit-IsInhabited resetting (suc c) = omega arith
exit-IsInhabited broken (suc c) = tt

still_grouped :
    (index : ℕ) (s : State) (c : ℕ) (rs : List (Result ℕ))
    → passed (rs ++ answer index s ∷ []) + on_the_way (exit (left_in s) c) c
      ≡ passed rs + on_the_way s (suc c)
still_grouped index filling zero rs = omega (arith, passed-append rs (err broken_barrier))
still_grouped index draining zero rs = omega (arith, passed-append rs (ok index))
still_grouped index resetting zero rs = omega (arith, passed-append rs (err broken_barrier))
still_grouped index broken zero rs = omega (arith, passed-append rs (err broken_barrier))
still_grouped index filling (suc c) rs = omega (arith, passed-append rs (err broken_barrier))
still_grouped index draining (suc c) rs = omega (arith, passed-append rs (ok index))
still_grouped index resetting (suc c) rs = omega (arith, passed-append rs (err broken_barrier))
still_grouped index broken (suc c) rs = omega (arith, passed-append rs (err broken_barrier))

resume-lem :
    (index p c : ℕ) (s : State)
    → resume index (record { parties = p; count = suc c; state = s })
      ≡ (answer index s, record { parties = p; count = c; state = exit (left_in s) c })
unfolding resume
resume-lem index p c filling = go_out-lem (err broken_barrier) broken p c filling
resume-lem index p c draining = go_out-lem (ok index) draining p c draining
resume-lem index p c resetting = go_out-lem (err broken_barrier) resetting p c resetting
resume-lem index p c broken = go_out-lem (err broken_barrier) broken p c broken

resumed-Inv :
    (n p c : ℕ) (s : State) (before after : List ℕ) (rs : List (Result ℕ)) (k index : ℕ)
    → BarrierInv n (record { parties = p; count = suc c; state = s }) (before ++ index ∷ after) rs k
    → BarrierInv n
        (record { parties = p; count = c; state = exit (left_in s) c })
        (before ++ after)
        (rs ++ answer index s ∷ [])
        k
resumed-Inv n p c s before after rs k index v = record {
  sized = v.sized;
  counted =
      omega (arith, v.counted, length-append before (index ∷ after), length-append before after);
  below = omega (arith, v.below);
  inhabited = exit-IsInhabited s c;
  grouped = still_grouped index s c rs ∙ v.grouped;
}

pub resume-Inv :
    (n c : ℕ) (b d : Barrier) (before after : List ℕ) (rs : List (Result ℕ)) (k index : ℕ)
    (r : Result ℕ)
    → b.count ≡ suc c
    → resume index b ≡ (r, d)
    → BarrierInv n b (before ++ index ∷ after) rs k
    → BarrierInv n d (before ++ after) (rs ++ r ∷ []) k
resume-Inv n c b d before after rs k index r some h v =
    let at : Barrier = record b { count = suc c } in
    let same : b ≡ at = ap (λ m. record b { count = m }) some in
    let out = sym (resume-lem index b.parties c b.state) ∙ sym (ap (resume index) same) ∙ h in
    subst (λ x. BarrierInv n x.1 (before ++ after) (rs ++ x.0 ∷ []) k) out
      (resumed-Inv n b.parties c b.state before after rs k index
        (subst (λ x. BarrierInv n x (before ++ index ∷ after) rs k) same v))

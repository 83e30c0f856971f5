-- ===== src/Contexts/Restored.antt =====
-- asynccontextrequest/context.py: a token restores what was there before, whatever other tasks do.
use python_concurrency_examp.Prelude.{
  ℕ, zero, suc, String, ◌≡◌, refl, sym, ap, ◌∙◌, subst, Bool, true, false, not, inl, inr, Option,
  none, some, List, [], ◌∷◌, ◌++◌, ◌==◌, All, arith, length, nat_eq, if◌then◌else◌, Bool-cases,
}
use python_concurrency_examp.Python.{Result, ok, err, value_error, runtime_error}
use python_concurrency_examp.Contexts.{Slots, update}
use python_concurrency_examp.Contexts.Tasks.{
  Token, AsyncRequestContext, set_request_id, get_request_id, token_at, mark_used, reset_token,
  reset, Call, sets, resets, creates, caller, step, run,
}

token_at-append : (ts : List Token) (t : Token) → token_at (length ts) (ts ++ t ∷ []) ≡ some t
token_at-append [] t = refl
token_at-append (x ∷ ts) t = token_at-append ts t

token_at-longer :
    (k : ℕ) (ts us : List Token) (t : Token)
    → token_at k ts ≡ some t
    → token_at k (ts ++ us) ≡ some t
token_at-longer k [] us t h = absurd (ground (arith, h))
token_at-longer zero (x ∷ ts) us t h = h
token_at-longer (suc k) (x ∷ ts) us t h = token_at-longer k ts us t h

token_at-mark_used :
    (k : ℕ) (ts : List Token) (t : Token)
    → token_at k ts ≡ some t
    → token_at k (mark_used k ts) ≡ some (record t { used = true })
token_at-mark_used k [] t h = absurd (ground (arith, h))
token_at-mark_used zero (x ∷ ts) t h =
    (let e : x ≡ t = ground (arith, h) in
      let used_up : Token → Token = λ y. record y { used = true } in ap (λ y. some (used_up y)) e)
token_at-mark_used (suc k) (x ∷ ts) t h = token_at-mark_used k ts t h

nat_eq_refl : (n : ℕ) → nat_eq n n ≡ true
nat_eq_refl n = ground arith

token_at-other :
    (k j : ℕ) (ts : List Token) (t u : Token)
    → token_at k ts ≡ some t
    → token_at j ts ≡ some u
    → nat_eq t.task u.task ≡ false
    → token_at k (mark_used j ts) ≡ some t
token_at-other k j [] t u h i other = absurd (ground (arith, h))
token_at-other zero zero (x ∷ ts) t u h i other =
    (let a : x ≡ t = ground (arith, h) in
      let b : x ≡ u = ground (arith, i) in
      let c : nat_eq t.task u.task ≡ true =
        ap (λ y. nat_eq y.task u.task) (sym a)
        ∙ ap (λ y. nat_eq y.task u.task) b
        ∙ nat_eq_refl u.task in
      absurd (ground (arith, c, other)))
token_at-other zero (suc j) (x ∷ ts) t u h i other = h
token_at-other (suc k) zero (x ∷ ts) t u h i other = h
token_at-other (suc k) (suc j) (x ∷ ts) t u h i other = token_at-other k j ts t u h i other

-- A task's value and one of its tokens, unused.
abbrev Holds : ℕ → ℕ → Option String → Option String → AsyncRequestContext → Type 0
Holds task k now old c =
    (c.request_id task ≡ now)
    × (token_at k c.tokens ≡ some (record { task = task; old_value = old; used = false }))

update-other :
    (i j : ℕ) (v : Option String) (slots : Slots)
    → nat_eq i j ≡ false
    → update i v slots j ≡ slots j
update-other i j v slots h = ap (λ b. if b then v else slots j) h

update-same : (i : ℕ) (v : Option String) (slots : Slots) → update i v slots i ≡ v
update-same i v slots = ap (λ b. if b then v else slots i) (nat_eq_refl i)

abbrev set_if : Bool → ℕ → String → AsyncRequestContext → Result ℕ × AsyncRequestContext
set_if b i request_id c = if b then (err (value_error "request_id must not be empty"), c) else (
  ok (length c.tokens),
  record {
    request_id = update i (some request_id) c.request_id;
    tokens = c.tokens ++ record { task = i; old_value = c.request_id i; used = false } ∷ [];
  },
)

abbrev reset_at :
    ℕ → ℕ → Option Token → AsyncRequestContext → Result (Unit {0}) × AsyncRequestContext
reset_at i k o c = elim o [
  | none ↦ (err (value_error "no token"), c)
  | some token ↦ reset_token i k token c
]

set-Holds :
    (i task k : ℕ) (request_id : String) (now old : Option String) (c : AsyncRequestContext)
    → nat_eq i task ≡ false
    → Holds task k now old c
    → Holds task k now old (set_request_id i request_id c).1
unfolding set_request_id
set-Holds i task k request_id now old c other (value, token) =
    elim (Bool-cases (request_id == "")) [
      | inl none_given ↦
          subst (λ b. Holds task k now old (set_if b i request_id c).1) (sym none_given)
            (value, token)
      | inr some_given ↦
          subst (λ b. Holds task k now old (set_if b i request_id c).1) (sym some_given)
            (
              update-other i task (some request_id) c.request_id other ∙ value,
              token_at-longer k c.tokens _ _ token,
            )
    ]

by_test :
    (P : AsyncRequestContext → Type 0) (b : Bool) (x y : Result (Unit {0}) × AsyncRequestContext)
    → (b ≡ true → P x.1)
    → (b ≡ false → P y.1)
    → P (if b then x else y).1
by_test P true x y f g = f refl
by_test P false x y f g = g refl

reset_token-Holds :
    (i j task k : ℕ) (u : Token) (now old : Option String) (c : AsyncRequestContext)
    → nat_eq i task ≡ false
    → token_at j c.tokens ≡ some u
    → Holds task k now old c
    → Holds task k now old (reset_token i j u c).1
reset_token-Holds i j task k u now old c other at (value, token) =
    by_test (Holds task k now old) u.used
      (err (runtime_error "token has already been used once"), c) _ (λ spent. (value, token))
      (λ unspent.
        by_test (Holds task k now old) (not (nat_eq u.task i))
          (err (value_error "token was created in a different Context"), c) _
          (λ foreign. (value, token))
          (λ mine. (
            update-other i task u.old_value c.request_id other ∙ value,
            token_at-other k j c.tokens _ u token at (ground (arith, mine, other)),
          )))

reset_at-Holds :
    (i j task k : ℕ) (o : Option Token) (now old : Option String) (c : AsyncRequestContext)
    → nat_eq i task ≡ false
    → token_at j c.tokens ≡ o
    → Holds task k now old c
    → Holds task k now old (reset_at i j o c).1
reset_at-Holds i j task k none now old c other at v = v
reset_at-Holds i j task k (some u) now old c other at v =
    reset_token-Holds i j task k u now old c other at v

step-Holds :
    (call : Call) (task k : ℕ) (now old : Option String) (c : AsyncRequestContext)
    → nat_eq (caller call) task ≡ false
    → Holds task k now old c
    → Holds task k now old (step call c)
unfolding reset
step-Holds (sets i request_id) task k now old c other v =
    set-Holds i task k request_id now old c other v
step-Holds (resets i j) task k now old c other v =
    reset_at-Holds i j task k (token_at j c.tokens) now old c other refl v
step-Holds (creates i parent) task k now old c other (value, token) =
    (update-other i task (c.request_id parent) c.request_id other ∙ value, token)

run-Holds :
    (calls : List Call) (task k : ℕ) (now old : Option String) (c : AsyncRequestContext)
    → All (λ call. nat_eq (caller call) task ≡ false) calls
    → Holds task k now old c
    → Holds task k now old (run calls c)
run-Holds [] task k now old c others v = v
run-Holds (call ∷ calls) task k now old c others v =
    run-Holds calls task k now old (step call c) others.1
      (step-Holds call task k now old c others.0 v)

after_set :
    (task k : ℕ) (request_id : String) (c d : AsyncRequestContext)
    → set_request_id task request_id c ≡ (ok k, d)
    → Holds task k (some request_id) (c.request_id task) d
unfolding set_request_id
after_set task k request_id c d h = elim (Bool-cases (request_id == "")) [
  | inl none_given ↦ absurd (ground (arith, h, none_given))
  | inr some_given ↦
      let e : set_if false task request_id c ≡ (ok k, d) =
        ap (λ b. set_if b task request_id c) (sym some_given) ∙ h in
      let place : length c.tokens ≡ k = ground (arith, ap (λ x. x.0) e) in
      subst (Holds task k (some request_id) (c.request_id task)) (ap (λ x. x.1) e) (
        update-same task (some request_id) c.request_id,
        subst
            (λ n.
              token_at n (
                c.tokens
                ++ record { task = task; old_value = c.request_id task; used = false } ∷ [])
              ≡ some (record { task = task; old_value = c.request_id task; used = false }))
            place (token_at-append c.tokens _),
      )
]

reset-held :
    (task k : ℕ) (now old : Option String) (c : AsyncRequestContext)
    → Holds task k now old c
    → reset task k c
      ≡ (ok tt, record { request_id = update task old c.request_id; tokens = mark_used k c.tokens })
unfolding reset
reset-held task k now old c (value, token) =
    let foreign : Result (Unit {0}) × AsyncRequestContext =
      (err (value_error "token was created in a different Context"), c) in
    let done : Result (Unit {0}) × AsyncRequestContext = (
      ok tt,
      record { request_id = update task old c.request_id; tokens = mark_used k c.tokens },
    ) in
    ap (λ o. reset_at task k o c) token
    ∙ ap (λ b. if not b then foreign else done) (nat_eq_refl task)

-- A token that has been used.
reset-used :
    (task k : ℕ) (t : Token) (c : AsyncRequestContext)
    → token_at k c.tokens ≡ some t
    → t.used ≡ true
    → reset task k c ≡ (err (runtime_error "token has already been used once"), c)
unfolding reset
reset-used task k t c at spent =
    let refused : Result (Unit {0}) × AsyncRequestContext =
      (err (runtime_error "token has already been used once"), c) in
    let other : Result (Unit {0}) × AsyncRequestContext =
      if not (nat_eq t.task task)
      then (err (value_error "token was created in a different Context"), c)
      else (
        ok tt,
        record { request_id = update task t.old_value c.request_id; tokens = mark_used k c.tokens },
      ) in
    ap (λ o. reset_at task k o c) at ∙ ap (λ b. if b then refused else other) spent

-- After a task has set a request ID, and other tasks have set, reset and been created in any order, the
-- task reads its ID; `reset` with the token then gives back what the task read before the call, and
-- a second `reset` with the token raises RuntimeError.
pub reset-set_request_id :
    (task k : ℕ) (request_id : String) (c d : AsyncRequestContext) (calls : List Call)
    → set_request_id task request_id c ≡ (ok k, d)
    → All (λ call. nat_eq (caller call) task ≡ false) calls
    → (get_request_id task (run calls d) ≡ some request_id)
      × ((reset task k (run calls d)).0 ≡ ok tt)
      × (get_request_id task (reset task k (run calls d)).1 ≡ get_request_id task c)
      × ((reset task k (reset task k (run calls d)).1).0
          ≡ err (runtime_error "token has already been used once"))
unfolding get_request_id
reset-set_request_id task k request_id c d calls set others =
    let e = run calls d in
    let now : Holds task k (some request_id) (c.request_id task) e =
      run-Holds calls task k (some request_id) (c.request_id task) d others
        (after_set task k request_id c d set) in
    let back : AsyncRequestContext = record {
      request_id = update task (c.request_id task) e.request_id;
      tokens = mark_used k e.tokens;
    } in
    let first = reset-held task k (some request_id) (c.request_id task) e now in
    let spent = reset-used task k _ back (token_at-mark_used k e.tokens _ now.1) refl in
    (
      now.0,
      ap (λ x. x.0) first,
      ap (λ x. x.1.request_id task) first ∙ update-same task (c.request_id task) e.request_id,
      ap (λ x. (reset task k x.1).0) first ∙ ap (λ x. x.0) spent,
    )

-- ===== src/Contexts/Threads.antt =====
-- threadlocalrequest/context.py: a request ID for each thread.
use python_concurrency_examp.Prelude.{
  ℕ, String, ◌≡◌, refl, sym, ap, ◌∙◌, inl, inr, Option, none, some, List, [], ◌∷◌, ◌==◌, nat_eq,
  arith, if◌then◌else◌, Bool-cases,
}
use python_concurrency_examp.Python.{value_error, Exec, raise_if, modify, ◌>>◌}
use python_concurrency_examp.Contexts.{Slots, empty, update}

-- `threading.local`, and the value of `request_id` that each thread has there
pub record RequestContext : Type 0 where
  pub local : Slots

-- `__init__`
abbrev pub create : RequestContext
create = record { local = empty }

-- The calls, each by the thread of its first argument.
unfoldable pub set_request_id : ℕ → String → Exec RequestContext (Unit {0})
set_request_id thread request_id = do
  raise_if (request_id == "") (value_error "request_id must not be empty")
  modify (λ c. record { local = update thread (some request_id) c.local })

pub get_request_id : ℕ → RequestContext → Option String
get_request_id thread c = c.local thread

unfoldable pub clear : ℕ → RequestContext → RequestContext
clear thread c = elim (c.local thread) [
  | none ↦ c
  | some request_id ↦ record { local = update thread none c.local }
]

pub data Call : Type 0 where
  sets : ℕ → String → Call
  clears : ℕ → Call

abbrev caller : Call → ℕ
caller (sets thread request_id) = thread
caller (clears thread) = thread

abbrev pub run : List Call → RequestContext → RequestContext
run [] c = c
run (sets thread request_id ∷ calls) c = run calls (set_request_id thread request_id c).1
run (clears thread ∷ calls) c = run calls (clear thread c)

-- The calls by one thread.
abbrev pub own : ℕ → List Call → List Call
own thread [] = []
own thread (call ∷ calls) =
    let rest = own thread calls in if nat_eq (caller call) thread then call ∷ rest else rest

-- The request ID that a thread has after its own calls.
abbrev after_set : String → Option String → Option String
after_set request_id v = if request_id == "" then v else some request_id

set-local :
    (i j : ℕ) (request_id : String) (c : RequestContext)
    → (set_request_id i request_id c).1.local j
      ≡ (if nat_eq i j then after_set request_id (c.local j) else c.local j)
unfolding set_request_id
set-local i j request_id c = ground arith

clear_at : ℕ → Option String → RequestContext → RequestContext
clear_at thread v c = elim v [
  | none ↦ c
  | some request_id ↦ record { local = update thread none c.local }
]

clear_at-local :
    (i j : ℕ) (v : Option String) (c : RequestContext)
    → c.local i ≡ v
    → (clear_at i v c).local j ≡ (if nat_eq i j then none else c.local j)
unfolding clear_at
clear_at-local i j none c h = elim (Bool-cases (nat_eq i j)) [
  | inl same ↦
      let e : i ≡ j = ground (arith, same) in
      ap c.local (sym e) ∙ h ∙ sym (ap (λ b. if b then none else c.local j) same)
  | inr other ↦ sym (ap (λ b. if b then none else c.local j) other)
]
clear_at-local i j (some request_id) c h = refl

clear-local :
    (i j : ℕ) (c : RequestContext) → (clear i c).local j ≡ (if nat_eq i j then none else c.local j)
unfolding clear clear_at
clear-local i j c = clear_at-local i j (c.local i) c refl

run-own :
    (thread : ℕ) (calls : List Call) (c d : RequestContext)
    → c.local thread ≡ d.local thread
    → (run calls c).local thread ≡ (run (own thread calls) d).local thread
run-own thread [] c d h = h
run-own thread (sets i request_id ∷ calls) c d h = elim (Bool-cases (nat_eq i thread)) [
  | inl mine ↦
      run-own thread calls (set_request_id i request_id c).1 (set_request_id i request_id d).1 (
        set-local i thread request_id c
        ∙ ap (λ v. if nat_eq i thread then after_set request_id v else v) h
        ∙ sym (set-local i thread request_id d))
      ∙ sym (
          ap
            (λ b.
              (run (if b then sets i request_id ∷ own thread calls else own thread calls) d).local
                thread)
            mine)
  | inr other ↦
      run-own thread calls (set_request_id i request_id c).1 d (
        set-local i thread request_id c
        ∙ ap (λ b. if b then after_set request_id (c.local thread) else c.local thread) other
        ∙ h)
      ∙ sym (
          ap
            (λ b.
              (run (if b then sets i request_id ∷ own thread calls else own thread calls) d).local
                thread)
            other)
]
run-own thread (clears i ∷ calls) c d h = elim (Bool-cases (nat_eq i thread)) [
  | inl mine ↦
      run-own thread calls (clear i c) (clear i d) (
        clear-local i thread c
        ∙ ap (λ v. if nat_eq i thread then none else v) h
        ∙ sym (clear-local i thread d))
      ∙ sym (
          ap
            (λ b.
              (run (if b then clears i ∷ own thread calls else own thread calls) d).local thread)
            mine)
  | inr other ↦
      run-own thread calls (clear i c) d
        (clear-local i thread c ∙ ap (λ b. if b then none else c.local thread) other ∙ h)
      ∙ sym (
          ap
            (λ b.
              (run (if b then clears i ∷ own thread calls else own thread calls) d).local thread)
            other)
]

-- However the calls of threads interleave, what a thread reads is what it would read after its own
-- calls alone.
pub get_request_id-own :
    (thread : ℕ) (calls : List Call)
    → get_request_id thread (run calls create)
      ≡ get_request_id thread (run (own thread calls) create)
unfolding get_request_id
get_request_id-own thread calls = run-own thread calls create create refl

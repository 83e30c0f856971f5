-- ===== src/Contexts/Tasks.antt =====
-- asynccontextrequest/context.py: a request ID for each async task, and tokens that restore it.
use python_concurrency_examp.Prelude.{
  ℕ, zero, suc, String, Bool, true, false, not, Option, none, some, List, [], ◌∷◌, ◌++◌, ◌==◌,
  length, nat_eq, if◌then◌else◌,
}
use python_concurrency_examp.Python.{Result, ok, err, value_error, runtime_error}
use python_concurrency_examp.Contexts.{Slots, empty, update}

-- A token of the ContextVar: the task in whose context it was made, the value before, and whether it
-- has been used.
pub record Token : Type 0 where
  pub task : ℕ
  pub old_value : Option String
  pub used : Bool

-- The value that each task's context has, and the tokens made so far; callers name a token by its
-- place.
pub record AsyncRequestContext : Type 0 where
  pub request_id : Slots
  pub tokens : List Token

-- `__init__`
abbrev pub create : AsyncRequestContext
create = record { request_id = empty; tokens = [] }

unfoldable pub set_request_id : ℕ → String → AsyncRequestContext → Result ℕ × AsyncRequestContext
set_request_id task request_id c =
    if request_id == "" then (err (value_error "request_id must not be empty"), c) else (
      ok (length c.tokens),
      record {
        request_id = update task (some request_id) c.request_id;
        tokens =
            c.tokens ++ record { task = task; old_value = c.request_id task; used = false } ∷ [];
      },
    )

unfoldable pub get_request_id : ℕ → AsyncRequestContext → Option String
get_request_id task c = c.request_id task

abbrev pub token_at : ℕ → List Token → Option Token
token_at k [] = none
token_at zero (t ∷ ts) = some t
token_at (suc k) (t ∷ ts) = token_at k ts

abbrev pub mark_used : ℕ → List Token → List Token
mark_used k [] = []
mark_used zero (t ∷ ts) = record t { used = true } ∷ ts
mark_used (suc k) (t ∷ ts) = t ∷ mark_used k ts

-- `ContextVar.reset`, with the exceptions that it documents
abbrev pub reset_token :
    ℕ → ℕ → Token → AsyncRequestContext → Result (Unit {0}) × AsyncRequestContext
reset_token task k token c =
    if token.used
    then (err (runtime_error "token has already been used once"), c)
    else if not (nat_eq token.task task)
    then (err (value_error "token was created in a different Context"), c)
    else (
      ok tt,
      record {
        request_id = update task token.old_value c.request_id;
        tokens = mark_used k c.tokens;
      },
    )

-- `reset` of the token at a place; where there is no token, nobody can call it
unfoldable pub reset : ℕ → ℕ → AsyncRequestContext → Result (Unit {0}) × AsyncRequestContext
reset task k c = elim (token_at k c.tokens) [
  | none ↦ (err (value_error "no token"), c)
  | some token ↦ reset_token task k token c
]

pub data Call : Type 0 where
  sets : ℕ → String → Call
  resets : ℕ → ℕ → Call
  -- a task, and the one that creates it, whose context it copies
  creates : ℕ → ℕ → Call

abbrev pub caller : Call → ℕ
caller (sets task request_id) = task
caller (resets task k) = task
caller (creates task parent) = task

abbrev pub step : Call → AsyncRequestContext → AsyncRequestContext
step (sets task request_id) c = (set_request_id task request_id c).1
step (resets task k) c = (reset task k c).1
step (creates task parent) c = record c {
  request_id = update task (c.request_id parent) c.request_id;
}

abbrev pub run : List Call → AsyncRequestContext → AsyncRequestContext
run [] c = c
run (call ∷ calls) c = run calls (step call c)

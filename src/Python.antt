-- ===== src/Python.antt =====
-- What the examples use of Python itself: exceptions, methods that read and write an object and
-- may raise, and the built-in containers.
pub mod Dict
pub mod StrSet
pub mod PriorityQueue
pub mod Text
pub mod Semaphore
pub mod Queue
pub mod Barrier
use python_concurrency_examp.Prelude.{ℕ, String, Bool, Option, none, some, if◌then◌else◌}

-- The exceptions that the code raises or lets through. An f-string message that shows a value by
-- `!r` is kept as the value; `app_error` is an exception of a callable that a caller supplies.
pub data Exc : Type 0 where
  value_error runtime_error timeout_error circuit_open_error shutdown_started_error : String → Exc
  not_required_error unknown_product_error missing_key_error : String → Exc
  queue_empty queue_full queue_shut_down broken_barrier : Exc
  app_error : ℕ → Exc

pub data Result {ℓ} (A : Type ℓ) : Type ℓ where
  ok : A → Result A
  err : Exc → Result A

-- The body of a method, and of a `with self._lock:` block: what was written before a raise stays
-- written.
abbrev pub Exec {ℓ κ} : Type ℓ → Type κ → Type (ℓ ⊔ κ)
Exec S A = S → Result A × S

module _ {ℓ κ} {S : Type ℓ} {A : Type κ} where
  abbrev pub pure : A → Exec S A
  pure a s = (ok a, s)

  abbrev pub raise : Exc → Exec S A
  raise e s = (err e, s)

  abbrev pub gets : (S → A) → Exec S A
  gets f s = (ok (f s), s)

  abbrev pub or_raise : Option A → Exc → Exec S A
  or_raise none e s = (err e, s)
  or_raise (some a) e s = (ok a, s)

module _ {ℓ} {S : Type ℓ} where
  -- `if c: raise e`
  abbrev pub raise_if : Bool → Exc → Exec S (Unit {0})
  raise_if c e s = (if c then err e else ok tt, s)

  abbrev pub modify : (S → S) → Exec S (Unit {0})
  modify f s = (ok tt, f s)

module _ {ℓ κ μ} {S : Type ℓ} {A : Type κ} {B : Type μ} where
  infixl 5 ◌>>=◌ ◌>>◌
  abbrev pub ◌>>=◌ : Exec S A → (A → Exec S B) → Exec S B
  ◌>>=◌ m f s = let (r, s') = m s in elim r [ ok a ↦ f a s' | err e ↦ (err e, s') ]

  abbrev pub ◌>>◌ : Exec S A → Exec S B → Exec S B
  m >> k = m >>= λ _. k

-- A check of a constructor, `if c: raise e`, before the checks and the assignments that follow it.
abbrev pub check {ℓ} : {A : Type ℓ} → Bool → Exc → Result A → Result A
check c e rest = if c then err e else rest

-- `str(error)`, whole for the exceptions that keep their message.
abbrev pub str : Exc → String
str (value_error m) = m
str (runtime_error m) = m
str (timeout_error m) = m
str (circuit_open_error m) = m
str (shutdown_started_error m) = m
str (not_required_error m) = m
str (unknown_product_error m) = m
str (missing_key_error m) = m
str queue_empty = ""
str queue_full = ""
str queue_shut_down = ""
str broken_barrier = ""
str (app_error n) = ""

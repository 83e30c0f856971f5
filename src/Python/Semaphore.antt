-- ===== src/Python/Semaphore.antt =====
-- The semaphores of threading and asyncio, and the callers that hold one around a body, as in
-- `with semaphore:` or in acquire, try, finally release.
pub mod Clients
pub mod Results
pub mod Returns
use python_concurrency_examp.Prelude.{
  ℕ, zero, suc, ◌≡◌, Bool, true, false, Option, none, some, List, ◌∷◌, ◌++◌, map, if◌then◌else◌,
  leb,
}
use python_concurrency_examp.Python.{Result, ok, err, Exec, value_error}

-- `limit` is the initial value of a BoundedSemaphore, and none for the others.
pub record Semaphore : Type 0 where
  pub value : ℕ
  pub limit : Option ℕ

-- `acquire` without waiting, or none where it waits
abbrev pub acquire : Semaphore → Option Semaphore
acquire s = elim s.value [ zero ↦ none | suc n ↦ some (record s { value = n }) ]

abbrev pub passes_limit : Semaphore → Bool
passes_limit s = elim s.limit [ none ↦ false | some n ↦ leb n s.value ]

unfoldable pub release : Exec Semaphore (Unit {0})
release s =
    if passes_limit s
    then (err (value_error "Semaphore released too many times"), s)
    else (ok tt, record s { value = suc s.value })

-- What a caller does: a result before the semaphore is asked for, the result when its wait times
-- out, if it has a timeout, and the result of the body, with what the release gave.
pub record Guarded (A R : Type 0) : Type 0 where
  pub enter : A → Option R
  pub timed_out : A → Option R
  pub leave : A → Result (Unit {0}) → R

pub data Place (R : Type 0) : Type 0 where
  asking inside : Place R
  left : R → Place R

pub data Client (A R : Type 0) : Type 0 where
  client : A → Place R → Client A R

module _ {A R : Type 0} where
  abbrev pub call_of : Client A R → A
  call_of (client a p) = a

  abbrev pub place_of : Client A R → Place R
  place_of (client a p) = p

pub record System (A R : Type 0) : Type 0 where
  pub semaphore : Semaphore
  pub clients : List (Client A R)

module _ {A R : Type 0} (guarded : Guarded A R) where
  abbrev pub come : A → Client A R
  come a = client a (elim (guarded.enter a) [ none ↦ asking | some r ↦ left r ])

  abbrev pub start : Semaphore → List A → System A R
  start s calls = record { semaphore = s; clients = map come calls }

  pub data Step (s : System A R) : System A R → Type 0 where
    enters :
        (before after : List (Client A R)) (a : A) (m : Semaphore)
        → s.clients ≡ before ++ client a asking ∷ after
        → acquire s.semaphore ≡ some m
        → Step s (record { semaphore = m; clients = before ++ client a inside ∷ after })
    gives_up :
        (before after : List (Client A R)) (a : A) (r : R)
        → s.clients ≡ before ++ client a asking ∷ after
        → acquire s.semaphore ≡ none
        → guarded.timed_out a ≡ some r
        → Step s (record s { clients = before ++ client a (left r) ∷ after })
    leaves :
        (before after : List (Client A R)) (a : A) (r : Result (Unit {0})) (m : Semaphore)
        → s.clients ≡ before ++ client a inside ∷ after
        → release s.semaphore ≡ (r, m)
        → Step s (record {
          semaphore = m;
          clients = before ++ client a (left (guarded.leave a r)) ∷ after;
        })

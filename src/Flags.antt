-- ===== src/Flags.antt =====
-- featureflags/flags.py: a flag snapshot behind a reentrant lock. Each method body is one atomic
-- step: `enabled_flags` calls `is_enabled` while its own thread holds the lock, which does not wait.
pub mod Enabled
mod Tests
use python_concurrency_examp.Prelude.{
  String, Bool, true, false, Option, none, some, List, [], ◌∷◌, ◌==◌, any, if◌then◌else◌,
}
use python_concurrency_examp.Python.{
  Result, ok, err, value_error, Exec, pure, gets, raise_if, modify, ◌>>=◌, ◌>>◌, check,
}
use python_concurrency_examp.Python.Dict.{Dict, lookup, keys}
use python_concurrency_examp.Python.StrSet.{StrSet, from_list}

pub record FeatureFlags : Type 0 where
  pub flags : Dict Bool

-- the test of `_validate_flags`
abbrev pub unnamed : Dict Bool → Bool
unnamed flags = any (λ name. name == "") (keys flags)

-- `__init__`
pub create : Dict Bool → Result FeatureFlags
create flags =
    check (unnamed flags) (value_error "flag names must not be empty")
      (ok (record { flags = flags }))

-- `self._flags.get(name, False)`
abbrev pub get_flag : String → FeatureFlags → Bool
get_flag name s = elim (lookup name s.flags) [ none ↦ false | some enabled ↦ enabled ]

unfoldable pub is_enabled : String → Exec FeatureFlags Bool
is_enabled name = do
  raise_if (name == "") (value_error "flag name must not be empty")
  gets (get_flag name)

pub replace_all : Dict Bool → Exec FeatureFlags (Unit {0})
replace_all flags = do
  raise_if (unnamed flags) (value_error "flag names must not be empty")
  modify (λ s. record s { flags = flags })

-- The names of `enabled_flags`, each tested by `is_enabled`.
unfoldable pub enabled_among : List String → Exec FeatureFlags (List String)
enabled_among [] = pure []
enabled_among (name ∷ names) = do
  enabled ← is_enabled name
  rest ← enabled_among names
  pure (if enabled then name ∷ rest else rest)

pub enabled_flags : Exec FeatureFlags StrSet
enabled_flags = do
  names ← gets (λ s. keys s.flags)
  found ← enabled_among names
  pure (from_list found)

pub snapshot : Exec FeatureFlags (Dict Bool)
snapshot = gets (λ s. s.flags)

-- The refreshes of all threads, in the order in which they take the lock.
pub run : List (Dict Bool) → FeatureFlags → FeatureFlags
run [] s = s
run (flags ∷ rs) s = run rs (replace_all flags s).1

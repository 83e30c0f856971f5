-- ===== src/Flags/Tests.antt =====
-- Runs of the feature flags, and their theorem at a refreshed snapshot.
use python_concurrency_examp.Prelude.{Bool, ◌≡◌, refl, true, false, [], ◌∷◌}
use python_concurrency_examp.Python.{ok, err, value_error}
use python_concurrency_examp.Python.Dict.{Dict, lookup}
use python_concurrency_examp.Python.StrSet.{mem, from_list, add}
use python_concurrency_examp.Flags.{
  FeatureFlags, create, is_enabled, replace_all, enabled_among, enabled_flags, run,
}

abbrev flags : Dict Bool
flags = ("search", true) ∷ ("beta", false) ∷ []

abbrev refreshed : Dict Bool
refreshed = ("beta", true) ∷ ("dark", false) ∷ ("search", true) ∷ []

abbrev fresh : FeatureFlags
fresh = record { flags = flags }

created : create flags ≡ ok fresh
unfolding create
created = refl

unknown : (is_enabled "other" fresh).0 ≡ ok false
unfolding is_enabled lookup
unknown = refl

refused :
    (replace_all (("", true) ∷ []) fresh)
    ≡ (err (value_error "flag names must not be empty"), fresh)
unfolding replace_all
refused = refl

two_enabled : (enabled_flags (run (refreshed ∷ []) fresh)).0 ≡ ok ("beta" ∷ "search" ∷ [])
unfolding enabled_flags run replace_all enabled_among is_enabled lookup from_list add mem
two_enabled = refl

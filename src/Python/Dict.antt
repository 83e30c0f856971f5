-- ===== src/Python/Dict.antt =====
-- Python's `dict` with string keys, as its items in insertion order.
use python_concurrency_examp.Prelude.{
  String, ◌≡◌, refl, sym, ap, ◌∙◌, ◌++◌, append-nil, append_assoc, Bool, Option, none, some, List,
  [], ◌∷◌, map, arith, ◌==◌, eq_iff, eq_refl, if◌then◌else◌, is_some,
}
use python_concurrency_examp.Python.StrSet.{mem}

abbrev pub Dict {ℓ} : Type ℓ → Type ℓ
Dict V = List (String × V)

module _ {ℓ} {V : Type ℓ} where
  -- `d.get(k)`
  unfoldable pub lookup : String → Dict V → Option V
  lookup k [] = none
  lookup k ((j, v) ∷ d) = if j == k then some v else lookup k d

  -- `k in d`
  abbrev pub contains : String → Dict V → Bool
  contains k d = is_some (lookup k d)

  -- `d[k] = v`: a known key keeps its place, a new one goes last
  unfoldable pub insert : String → V → Dict V → Dict V
  insert k v [] = (k, v) ∷ []
  insert k v ((j, w) ∷ d) = if j == k then (j, v) ∷ d else (j, w) ∷ insert k v d

  -- `del d[k]`, `d.pop(k, None)`
  unfoldable pub erase : String → Dict V → Dict V
  erase k [] = []
  erase k ((j, w) ∷ d) = if j == k then d else (j, w) ∷ erase k d

  -- `list(d)`
  abbrev pub keys : Dict V → List String
  keys d = map (λ e. e.0) d

  -- `d.values()`
  abbrev pub values : Dict V → List V
  values d = map (λ e. e.1) d

  -- `{k: v for (k, v) in items}`, into the dict built so far
  unfoldable pub from_items : List (String × V) → Dict V → Dict V
  from_items [] d = d
  from_items ((k, v) ∷ items) d = from_items items (insert k v d)

  -- No key stands twice, as in every dict of the program.
  abbrev pub IsDict : Dict V → Type ℓ
  IsDict [] = Unit
  IsDict ((k, v) ∷ d) = (lookup k d ≡ none) × IsDict d

module _ {ℓ} {V : Type ℓ} where
  pub lookup-insert :
      (k j : String) (v : V) (d : Dict V)
      → lookup j (insert k v d) ≡ (if k == j then some v else lookup j d)
  unfolding lookup insert
  lookup-insert k j v [] = refl
  lookup-insert k j v ((i, w) ∷ d) =
      ground (arith, eq_iff k j, eq_iff i k, eq_iff i j, lookup-insert k j v d)

  pub lookup-insert_self : (k : String) (v : V) (d : Dict V) → lookup k (insert k v d) ≡ some v
  lookup-insert_self k v d = simp (lookup-insert, eq_refl)

  pub lookup-erase :
      (k j : String) (d : Dict V)
      → IsDict d
      → lookup j (erase k d) ≡ (if k == j then none else lookup j d)
  unfolding lookup erase
  lookup-erase k j [] h = ground arith
  lookup-erase k j ((i, w) ∷ d) h =
      ground (arith, eq_iff k j, eq_iff i k, eq_iff i j, lookup-erase k j d h.1)

  pub insert-IsDict : (k : String) (v : V) (d : Dict V) → IsDict d → IsDict (insert k v d)
  unfolding lookup insert
  insert-IsDict k v [] h = (refl, tt)
  insert-IsDict k v ((j, w) ∷ d) h =
      ground (arith, insert-IsDict k v d h.1, lookup-insert k j v d, eq_iff k j, eq_iff j k)

  pub erase-IsDict : (k : String) (d : Dict V) → IsDict d → IsDict (erase k d)
  unfolding lookup erase
  erase-IsDict k [] h = tt
  erase-IsDict k ((j, w) ∷ d) h = ground (arith, erase-IsDict k d h.1, lookup-erase k j d h.1)

  pub mem-keys : (k : String) (d : Dict V) → mem k (keys d) ≡ is_some (lookup k d)
  unfolding lookup mem
  mem-keys k [] = refl
  mem-keys k ((j, v) ∷ d) = ground (arith, mem-keys k d)

  insert-new :
      (k : String) (v : V) (d : Dict V) → lookup k d ≡ none → insert k v d ≡ d ++ (k, v) ∷ []
  unfolding lookup insert
  insert-new k v [] h = refl
  insert-new k v ((j, w) ∷ d) h = ground (arith, insert-new k v d)

  lookup-append : (k : String) (d e : Dict V) → lookup k d ≡ none → lookup k (d ++ e) ≡ lookup k e
  unfolding lookup
  lookup-append k [] e h = refl
  lookup-append k ((j, w) ∷ d) e h = ground (arith, lookup-append k d e)

  abbrev AreNew : Dict V → Dict V → Type ℓ
  AreNew [] d = Unit
  AreNew ((k, v) ∷ items) d = (lookup k d ≡ none) × AreNew items d

  still_new :
      (items : Dict V) (k : String) (v : V) (d : Dict V)
      → lookup k items ≡ none
      → AreNew items d
      → AreNew items (d ++ (k, v) ∷ [])
  unfolding lookup
  still_new [] k v d h new = tt
  still_new ((j, w) ∷ items) k v d h new = (
    lookup-append j d ((k, v) ∷ []) new.0 ∙ ground (arith, h, eq_iff j k, eq_iff k j),
    still_new items k v d (ground (arith, h)) new.1,
  )

  from_items-new :
      (items d : Dict V) → IsDict items → AreNew items d → from_items items d ≡ d ++ items
  unfolding from_items
  from_items-new [] d h new = sym (append-nil d)
  from_items-new ((k, v) ∷ items) d h new =
      ap (from_items items) (insert-new k v d new.0)
      ∙ from_items-new items (d ++ (k, v) ∷ []) h.1 (still_new items k v d h.0 new.1)
      ∙ append_assoc d ((k, v) ∷ []) items

  all_new : (items : Dict V) → AreNew items []
  unfolding lookup
  all_new [] = tt
  all_new ((k, v) ∷ items) = (refl, all_new items)

  -- From items with distinct keys, the dict is the items.
  pub from_items-IsDict : (items : Dict V) → IsDict items → from_items items [] ≡ items
  from_items-IsDict items h = from_items-new items [] h (all_new items)

-- ===== src/Python/Semaphore/Clients.antt =====
-- The permits of a semaphore are with the callers inside, or free.
use python_concurrency_examp.Prelude.{
  ℕ, suc, ◌+◌, ◌<◌, ◌≡◌, refl, sym, ap, ◌∙◌, subst, ◌⊎◌, inl, inr, false, Option, none, some, List,
  [], ◌∷◌, ◌++◌, map, arith, All, All-replace, map-replace, sum_of, sum_of-middle, Star, Star-keeps,
  leb,
}
use python_concurrency_examp.Python.{Result, ok}
use python_concurrency_examp.Python.Semaphore.{
  Semaphore, acquire, passes_limit, release, Guarded, Place, asking, inside, left, Client, client,
  call_of, System, come, start, Step, enters, gives_up, leaves,
}

module _ {A R : Type 0} where
  abbrev pub holds : Client A R → ℕ
  holds (client a asking) = 0
  holds (client a inside) = 1
  holds (client a (left r)) = 0

  -- How many callers are inside.
  abbrev pub active : System A R → ℕ
  active s = sum_of holds s.clients

-- A limit, where there is one, is the number of permits.
abbrev pub Fits : ℕ → Option ℕ → Type 0
Fits n none = Unit {0}
Fits n (some m) = n ≡ m

-- What a caller at a place has by the code.
abbrev pub Follows : {A R : Type 0} → Guarded A R → A → Place R → Type 0
Follows g a asking = g.enter a ≡ none
Follows g a inside = g.enter a ≡ none
Follows g a (left r) =
    (g.enter a ≡ some r)
    ⊎ ((g.enter a ≡ none) × ((g.timed_out a ≡ some r) ⊎ (g.leave a (ok tt) ≡ r)))

-- A release within the limit does not raise.
no-limit :
    (n v : ℕ) (l : Option ℕ) → v < n → Fits n l → elim l [ none ↦ false | some k ↦ leb k v ] ≡ false
no-limit n v none below fits = refl
no-limit n v (some k) below fits = ground (arith, below, fits)

pub release-Fits :
    (n : ℕ) (s m : Semaphore) (r : Result (Unit {0}))
    → s.value < n
    → Fits n s.limit
    → release s ≡ (r, m)
    → (r ≡ ok tt) × (m ≡ record s { value = suc s.value })
unfolding release
release-Fits n s m r below fits h =
    let within : passes_limit s ≡ false = no-limit n s.value s.limit below fits in
    (ground arith, ground arith)

acquire-some :
    (s m : Semaphore) → acquire s ≡ some m → (s.value ≡ suc m.value) × (s.limit ≡ m.limit)
acquire-some s m h = (ground arith, ground arith)

module _ {A R : Type 0} (guarded : Guarded A R) where
  abbrev pub IsFollowing : Client A R → Type 0
  IsFollowing (client a p) = Follows guarded a p

  pub record Inv (n : ℕ) (calls : List A) (s : System A R) : Type 0 where
    pub counted : s.semaphore.value + active s ≡ n
    pub fits : Fits n s.semaphore.limit
    pub same_calls : map (call_of) s.clients ≡ calls
    pub follow : All IsFollowing s.clients

  come-IsFollowing : (calls : List A) → All IsFollowing (map (come guarded) calls)
  come-IsFollowing [] = tt
  come-IsFollowing (a ∷ calls) = (come_one a (guarded.enter a) refl, come-IsFollowing calls)
    where
      come_one :
          (a : A) (e : Option R)
          → guarded.enter a ≡ e
          → Follows guarded a (elim e [ none ↦ asking | some r ↦ left r ])
      come_one a none h = h
      come_one a (some r) h = inl h

  come-calls : (calls : List A) → map (call_of) (map (come guarded) calls) ≡ calls
  come-calls [] = refl
  come-calls (a ∷ calls) = ap (◌∷◌ a) (come-calls calls)

  come-holds : (calls : List A) → sum_of holds (map (come guarded) calls) ≡ 0
  come-holds [] = refl
  come-holds (a ∷ calls) = omega (arith, come_none (guarded.enter a), come-holds calls)
    where
      come_none : (e : Option R) → holds (client a (elim e [ none ↦ asking | some r ↦ left r ])) ≡ 0
      come_none none = refl
      come_none (some r) = refl

  start-Inv :
      (s : Semaphore) (calls : List A)
      → Fits s.value s.limit
      → Inv s.value calls (start guarded s calls)
  start-Inv s calls fits = record {
    counted = omega (arith, come-holds calls);
    fits = fits;
    same_calls = come-calls calls;
    follow = come-IsFollowing calls;
  }

  -- A caller is at another place.
  moved-Inv :
      (n : ℕ) (calls : List A) (s : System A R) (m : Semaphore) (before after : List (Client A R))
      (a : A) (p q : Place R)
      → s.clients ≡ before ++ client a p ∷ after
      → Fits n m.limit
      → m.value + holds (client a q) ≡ s.semaphore.value + holds (client a p)
      → (Follows guarded a p → Follows guarded a q)
      → Inv n calls s
      → Inv n calls (record { semaphore = m; clients = before ++ client a q ∷ after })
  moved-Inv n calls s m before after a p q at fits same follow v = record {
    counted = omega (
      arith,
      v.counted,
      same,
      ap (sum_of holds) at,
      sum_of-middle holds before after (client a p),
      sum_of-middle holds before after (client a q),
    );
    fits = fits;
    same_calls =
        map-replace (call_of) before after (client a p) (client a q) refl
        ∙ ap (map (call_of)) (sym at)
        ∙ v.same_calls;
    follow =
        All-replace IsFollowing before after (client a p) (client a q) follow
          (subst (All IsFollowing) at v.follow);
  }

  pub Step-Inv :
      (n : ℕ) (calls : List A) (s t : System A R) → Step guarded s t → Inv n calls s → Inv n calls t
  Step-Inv n calls s _ (enters before after a m at got) v =
      let (less, same) = acquire-some s.semaphore m got in
      moved-Inv n calls s m before after a asking inside at (subst (Fits n) same v.fits)
        (omega (arith, less)) (λ f. f) v
  Step-Inv n calls s _ (gives_up before after a r at none_free timed) v =
      moved-Inv n calls s s.semaphore before after a asking (left r) at v.fits refl
        (λ f. inr (f, inl timed)) v
  Step-Inv n calls s _ (leaves before after a r m at released) v =
      let below : s.semaphore.value < n = omega (
        arith,
        v.counted,
        ap (sum_of holds) at,
        sum_of-middle holds before after (client a inside),
      ) in
      let (fine, more) = release-Fits n s.semaphore m r below v.fits released in
      moved-Inv n calls s m before after a inside (left (guarded.leave a r)) at
        (subst (Fits n) (sym (ap (λ k. k.limit) more)) v.fits)
        (omega (arith, ap (λ k. k.value) more))
        (λ f. inr (f, inr (ap (guarded.leave a) (sym fine)))) v

  pub run-Inv :
      (m : Semaphore) (calls : List A) (s : System A R)
      → Fits m.value m.limit
      → Star (Step guarded) (start guarded m calls) s
      → Inv m.value calls s
  run-Inv m calls s fits run =
      Star-keeps (Inv m.value calls) (Step-Inv m.value calls) (start-Inv m calls fits) run

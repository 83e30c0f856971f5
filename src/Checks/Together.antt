-- ===== src/Checks/Together.antt =====
-- taskgroup/checks.py: the checks succeed or fail as one.
use python_concurrency_examp.Prelude.{
  String, ◌≡◌, refl, sym, ap, ◌∙◌, subst, ◌↔◌, ◌⊎◌, inl, inr, true, false, List, [], ◌∷◌, ◌++◌,
  append-nil, map, All, All-replace, map-replace, is_empty, arith, Star, Star-keeps,
}
use python_concurrency_examp.Python.{Result, ok, err, Exc}
use python_concurrency_examp.Python.Dict.{Dict}
use python_concurrency_examp.Checks.{
  CheckoutChecks, running, cancelled, done, Task, task, Group, Outcome, passed, failed, create_task,
  start, error_of, Step, ends, is_cancelled, all_done, results, finish,
}

nonempty-append : (xs ys : List Exc) → is_empty xs ≡ false → is_empty (xs ++ ys) ≡ false
nonempty-append [] ys h = absurd (ground (arith, h))
nonempty-append (x ∷ xs) ys h = refl

append-some : (es : List Exc) (e : Exc) → is_empty (es ++ e ∷ []) ≡ false
append-some [] e = refl
append-some (x ∷ es) e = refl

module _ {T : Type 0} where
  abbrev check_of : Task T → String × Result T
  check_of (task c p) = c

  abbrev Succeeds : String × Result T → Type 0
  Succeeds c = error_of c.1 ≡ []

  -- What a task at a place has by the errors that the group has seen.
  abbrev IsFine : List Exc → Task T → Type 0
  IsFine es (task c running) = Unit {0}
  IsFine es (task c cancelled) = is_empty es ≡ false
  IsFine es (task c (done r)) = (r ≡ c.1) × ((is_empty es ≡ false) ⊎ (error_of r ≡ []))

  IsFine-later : (es fs : List Exc) (t : Task T) → IsFine es t → IsFine (es ++ fs) t
  IsFine-later es fs (task c running) h = tt
  IsFine-later es fs (task c cancelled) h = nonempty-append es fs h
  IsFine-later es fs (task c (done r)) (same, inl some) = (same, inl (nonempty-append es fs some))
  IsFine-later es fs (task c (done r)) (same, inr good) = (same, inr good)

  All-later :
      (es fs : List Exc) (ts : List (Task T)) → All (IsFine es) ts → All (IsFine (es ++ fs)) ts
  All-later es fs [] h = tt
  All-later es fs (t ∷ ts) h = (IsFine-later es fs t h.0, All-later es fs ts h.1)

  done-IsFine :
      (es : List Exc) (c : String × Result T) → IsFine (es ++ error_of c.1) (task c (done c.1))
  done-IsFine es (k, ok v) = (refl, inr refl)
  done-IsFine es (k, err e) = (refl, inl (append-some es e))

  record Inv (checks : Dict (Result T)) (g : Group T) : Type 0 where
    same_checks : map check_of g.tasks ≡ checks
    fine : All (IsFine g.errors) g.tasks
    sound : All Succeeds checks → g.errors ≡ []

  start-checks : (cs : Dict (Result T)) → map check_of (map create_task cs) ≡ cs
  start-checks [] = refl
  start-checks (c ∷ cs) = ap (◌∷◌ c) (start-checks cs)

  start-IsFine : (cs : Dict (Result T)) → All (IsFine []) (map create_task cs)
  start-IsFine [] = tt
  start-IsFine (c ∷ cs) = (tt, start-IsFine cs)

  start-Inv : (c : CheckoutChecks T) → Inv c.checks (start c)
  start-Inv c = record {
    same_checks = start-checks c.checks;
    fine = start-IsFine c.checks;
    sound = λ h. refl;
  }

  All-at :
      (before after : List (Task T)) (t : Task T)
      → All Succeeds (map check_of (before ++ t ∷ after))
      → Succeeds (check_of t)
  All-at [] after t h = h.0
  All-at (x ∷ before) after t h = All-at before after t h.1

  Step-Inv : (checks : Dict (Result T)) (g h : Group T) → Step g h → Inv checks g → Inv checks h
  Step-Inv checks g _ (ends before after c at) v = record {
    same_checks =
        map-replace check_of before after (task c running) (task c (done c.1)) refl
        ∙ ap (map check_of) (sym at)
        ∙ v.same_checks;
    fine =
        All-replace (IsFine (g.errors ++ error_of c.1)) before after (task c running)
          (task c (done c.1)) (λ x. done-IsFine g.errors c)
          (All-later g.errors (error_of c.1) (before ++ task c running ∷ after)
            (subst (All (IsFine g.errors)) at v.fine));
    sound = λ good.
        (let mine =
            All-at before after (task c running)
              (subst (All Succeeds) (sym v.same_checks ∙ ap (map check_of) at) good) in
          ap (λ l. g.errors ++ l) mine ∙ append-nil g.errors ∙ v.sound good);
  }
  Step-Inv checks g _ (is_cancelled before after c at some) v = record {
    same_checks =
        map-replace check_of before after (task c running) (task c cancelled) refl
        ∙ ap (map check_of) (sym at)
        ∙ v.same_checks;
    fine =
        All-replace (IsFine g.errors) before after (task c running) (task c cancelled) (λ x. some)
          (subst (All (IsFine g.errors)) at v.fine);
    sound = v.sound;
  }

  -- The check that gave a result.
  abbrev pub passing : String × T → String × Result T
  passing (k, v) = (k, ok v)

  done_results :
      (ts : List (Task T))
      → all_done ts ≡ true
      → All (IsFine []) ts
      → map passing (results ts) ≡ map check_of ts
  done_results [] h f = refl
  done_results (task c running ∷ ts) h f = absurd (ground (arith, h))
  done_results (task c cancelled ∷ ts) h f = absurd (ground (arith, f.0))
  done_results (task (k, o) (done (ok v)) ∷ ts) h f =
      ap (λ r. (k, r) ∷ map passing (results ts)) f.0.0 ∙ ap (◌∷◌ (k, o)) (done_results ts h f.1)
  done_results (task c (done (err e)) ∷ ts) h f = absurd (ended_well f.0.1)
    where
      ended_well : (is_empty {A = Exc} [] ≡ false) ⊎ (error_of {T = T} (err e) ≡ []) → ⊥
      ended_well (inl x) = ground (arith, x)
      ended_well (inr x) = ground (arith, x)

  read : Dict (Result T) → Dict T
  read [] = []
  read ((k, ok v) ∷ d) = (k, v) ∷ read d
  read ((k, err e) ∷ d) = read d

  read-passing : (d : Dict T) → read (map passing d) ≡ d
  unfolding read
  read-passing [] = refl
  read-passing ((k, v) ∷ d) = ap (◌∷◌ (k, v)) (read-passing d)

  passing-Succeeds : (d : Dict T) → All Succeeds (map passing d)
  passing-Succeeds [] = tt
  passing-Succeeds ((k, v) ∷ d) = (refl, passing-Succeeds d)

  finish-empty : (g : Group T) → g.errors ≡ [] → finish g ≡ passed (results g.tasks)
  unfolding finish
  finish-empty g h =
      ap (λ es. elim es [ [] ↦ passed (results g.tasks) | e ∷ es ↦ failed (e ∷ es) ]) h

  finish_from : (es : List Exc) (ts : List (Task T)) → Outcome T
  finish_from es ts = elim es [ [] ↦ passed (results ts) | e ∷ es ↦ failed (e ∷ es) ]

  passed-empty :
      (es : List Exc) (ts : List (Task T)) (d : Dict T)
      → finish_from es ts ≡ passed d
      → (es ≡ []) × (results ts ≡ d)
  unfolding finish_from
  passed-empty [] ts d h = (refl, ground (arith, h))
  passed-empty (e ∷ es) ts d h = absurd (ground (arith, h))

  passing-injective : (d e : Dict T) → map passing d ≡ map passing e → d ≡ e
  passing-injective d e h = sym (read-passing d) ∙ ap (λ l. read l) h ∙ read-passing e

  -- Whatever the order in which the tasks end or are cancelled, once none runs, `run` returns a dict of
  -- results exactly when the checks are all successes with these results, in the order of the checks.
  pub run-passed_iff :
      (c : CheckoutChecks T) (g : Group T) (d : Dict T)
      → Star Step (start c) g
      → all_done g.tasks ≡ true
      → (finish g ≡ passed d) ↔ (c.checks ≡ map passing d)
  unfolding finish finish_from
  run-passed_iff c g d run over =
      let v = Star-keeps (Inv c.checks) (Step-Inv c.checks) (start-Inv c) run in
      (
        (λ h.
            (let (none, same) = passed-empty g.errors g.tasks d h in
              sym v.same_checks
              ∙ sym (done_results g.tasks over (subst (λ es. All (IsFine es) g.tasks) none v.fine))
              ∙ ap (map passing) same)),
        (λ h.
            (let none = v.sound (subst (All Succeeds) (sym h) (passing-Succeeds d)) in
              finish-empty g none
              ∙ ap passed (
                  passing-injective (results g.tasks) d (
                    done_results g.tasks over (subst (λ es. All (IsFine es) g.tasks) none v.fine)
                    ∙ v.same_checks
                    ∙ h)))),
      )

-- ===== src/Connections/Invariant.antt =====
-- What every lease, every checkout that raises and every connection given back keep.
use python_concurrency_examp.Prelude.{
  ℕ, zero, suc, ◌+◌, ◌≤◌, ◌<◌, ◌≡◌, refl, sym, ap, ◌∙◌, subst, ◌⊎◌, Option, inl, inr, false, List,
  [], ◌∷◌, ◌++◌, append-nil, append_assoc, arith, All, All-append, length, length-append, leb,
  is_empty,
}
use mathlib.Core.List.{Perm, perm_middle}
use mathlib.Core.List.Perm
use python_concurrency_examp.Python.{Exc, Result, ok, err, queue_empty}
use python_concurrency_examp.Prelude.Int.{ℤ}
use python_concurrency_examp.Python.Queue.{
  Queue, new_queue, waits, ends, add, get_within, put_nowait, bad_timeout,
}
use python_concurrency_examp.Python.Queue.Branches.{
  get_within-gives, get_within-waits, get_within-raises,
}
use python_concurrency_examp.Connections.{
  ConnectionPool, put_all, create, begin_checkout, end_checkout,
}
use python_concurrency_examp.Connections.System.{System}

not_full : (n k : ℕ) → k < n → elim n [ zero ↦ false | suc m ↦ leb (suc m) k ] ≡ false
not_full zero k h = refl
not_full (suc n) k h = ground (arith, h)

-- What a checkout without a connection raises: `Empty` at its timeout, or ValueError for a negative
-- timeout.
abbrev pub IsTimeout : Exc → Type 0
IsTimeout e = (e ≡ queue_empty) ⊎ (e ≡ bad_timeout)

abbrev pub Succeeds : Result (Unit {0}) → Type 0
Succeeds r = r ≡ ok tt

module _ {T : Type 0} where
  put-lem :
      (c : T) (q : Queue T)
      → q.is_shutdown ≡ false
      → length q.items < q.maxsize
      → put_nowait c q ≡ (ok tt, add c q)
  unfolding put_nowait
  put-lem c q on room = ground (arith, on, not_full q.maxsize (length q.items) room)

  put_all-lem :
      (cs : List T) (q : Queue T)
      → q.is_shutdown ≡ false
      → length q.items + length cs ≤ q.maxsize
      → (n : ℕ) × (put_all cs q ≡ ok (record q { items = q.items ++ cs; unfinished = n }))
  put_all-lem [] q on room =
      (q.unfinished, ap (λ l. ok (record q { items = l })) (sym (append-nil q.items)))
  put_all-lem (c ∷ cs) q on room =
      let (n, rest) =
        put_all-lem cs (add c q) on (omega (arith, room, length-append q.items (c ∷ []))) in
      (
        n,
        ap (λ x. (let more = put_all cs x.1 in elim x.0 [ ok u ↦ more | err e ↦ err e ]))
              (put-lem c q on (omega (arith, room)))
            ∙ rest
            ∙ ap (λ l. ok (record q { items = l; unfinished = n }))
                (append_assoc q.items (c ∷ []) cs),
      )

  pub record Inv (connections : List T) (s : System T) : Type 0 where
    pub kept : Perm (s.leased ++ s.pool.available.items) connections
    pub counted : length s.leased + length s.pool.available.items ≡ length connections
    pub sized : s.pool.available.maxsize ≡ length connections
    pub on : s.pool.available.is_shutdown ≡ false
    pub raised : All IsTimeout s.raised
    pub given_back : All Succeeds s.given_back

  abbrev pub fresh : ConnectionPool T → System T
  fresh p = record { pool = p; leased = []; raised = []; given_back = [] }

  -- A pool of a list that is not empty holds its connections, in their order.
  create-lem :
      (connections : List T)
      → is_empty connections ≡ false
      → (n : ℕ) × (create connections
          ≡ ok (record {
            available = record {
              maxsize = length connections;
              items = connections;
              unfinished = n;
              is_shutdown = false;
            };
          }))
  unfolding create
  create-lem connections nonempty =
      let (n, filled) =
        put_all-lem connections (new_queue (length connections)) refl (omega arith) in
      (n, ground (arith, nonempty, filled))

  back-Perm :
      (before after items : List T) (c : T)
      → Perm ((before ++ after) ++ (items ++ c ∷ [])) ((before ++ c ∷ after) ++ items)
  back-Perm before after items c =
      Perm.trans
        (subst (λ l. Perm l (c ∷ ((before ++ after) ++ items)))
          (append_assoc (before ++ after) items (c ∷ []))
          (subst (λ l. Perm (((before ++ after) ++ items) ++ c ∷ []) (c ∷ l))
            (append-nil ((before ++ after) ++ items))
            (perm_middle ((before ++ after) ++ items) [])))
        (Perm.append_right items (Perm.symm (perm_middle before after)))

  -- The pool after a `get` that gave a connection.
  leased-Inv :
      (connections : List T) (s : System T) (timeout : Option ℤ) (q : Queue T) (c : T)
      → get_within timeout s.pool.available ≡ (ends (ok c), q)
      → Inv connections s
      → Inv connections (record s { pool = record { available = q }; leased = s.leased ++ c ∷ [] })
  leased-Inv connections s timeout q c h v =
      let (front, rest) = get_within-gives timeout s.pool.available q c h in
      record {
        kept =
            subst (λ l. Perm l connections)
              (ap (λ l. s.leased ++ l) front ∙ sym (append_assoc s.leased (c ∷ []) q.items)) v.kept;
        counted = omega (arith, v.counted, ap length front, length-append s.leased (c ∷ []));
        sized = ap (λ k. k.maxsize) rest ∙ v.sized;
        on = ap (λ k. k.is_shutdown) rest ∙ v.on;
        raised = v.raised;
        given_back = v.given_back;
      }

  pub leases-Inv :
      (connections : List T) (s : System T) (p : ConnectionPool T) (timeout : Option ℤ) (c : T)
      → begin_checkout timeout s.pool ≡ (ends (ok c), p)
      → Inv connections s
      → Inv connections (record s { pool = p; leased = s.leased ++ c ∷ [] })
  unfolding begin_checkout
  leases-Inv connections s p timeout c h v =
      let q = (get_within timeout s.pool.available).1 in
      subst (λ k. Inv connections (record s { pool = k; leased = s.leased ++ c ∷ [] }))
        (ap (λ x. x.1) h) (leased-Inv connections s timeout q c (ap (λ x. (x.0, q)) h) v)

  pub wait_changes_nothing :
      (timeout : Option ℤ) (p q : ConnectionPool T) → begin_checkout timeout p ≡ (waits, q) → p ≡ q
  unfolding begin_checkout
  wait_changes_nothing timeout p q h =
      let k = (get_within timeout p.available).1 in
      ap (λ x. record { available = x })
        (get_within-waits timeout p.available k (ap (λ x. (x.0, k)) h))
      ∙ ap (λ x. x.1) h

  -- A queue that is not shut down raises only for a negative timeout, and stays as it is.
  pub failure_changes_nothing :
      (timeout : Option ℤ) (p q : ConnectionPool T) (e : Exc)
      → begin_checkout timeout p ≡ (ends (err e), q)
      → p.available.is_shutdown ≡ false
      → (p ≡ q) × (e ≡ bad_timeout)
  unfolding begin_checkout
  failure_changes_nothing timeout p q e h on =
      let k = (get_within timeout p.available).1 in
      let (same, why) = get_within-raises timeout p.available k e (ap (λ x. (x.0, k)) h) in
      (
        ap (λ x. record { available = x }) same ∙ ap (λ x. x.1) h,
        elim why [ inl bad ↦ bad | inr off ↦ absurd (ground (arith, on, off)) ],
      )

  pub raises-Inv :
      (connections : List T) (s : System T) (p : ConnectionPool T) (e : Exc)
      → s.pool ≡ p
      → IsTimeout e
      → Inv connections s
      → Inv connections (record s { pool = p; raised = s.raised ++ e ∷ [] })
  raises-Inv connections s p e same known v =
      subst (λ k. Inv connections (record s { pool = k; raised = s.raised ++ e ∷ [] })) same
        (record {
          kept = v.kept;
          counted = v.counted;
          sized = v.sized;
          on = v.on;
          raised = All-append IsTimeout s.raised (e ∷ []) v.raised (known, tt);
          given_back = v.given_back;
        })

  pub gives_back-Inv :
      (connections : List T) (s : System T) (p : ConnectionPool T) (before after : List T) (c : T)
      (r : Result (Unit {0}))
      → s.leased ≡ before ++ c ∷ after
      → end_checkout c s.pool ≡ (r, p)
      → Inv connections s
      → Inv connections
          (record s { pool = p; leased = before ++ after; given_back = s.given_back ++ r ∷ [] })
  unfolding end_checkout
  gives_back-Inv connections s p before after c r at h v =
      let fewer : length s.leased ≡ suc (length (before ++ after)) =
        omega (arith, ap length at, length-append before (c ∷ after), length-append before after) in
      let done = put-lem c s.pool.available v.on (omega (arith, v.counted, v.sized, fewer)) in
      let same : record { available = add c s.pool.available } ≡ p =
        ap (λ x. record { available = x.1 }) (sym done) ∙ ap (λ x. x.1) h in
      subst
        (λ k.
          Inv connections
            (record s { pool = k; leased = before ++ after; given_back = s.given_back ++ r ∷ [] }))
        same
        (record {
          kept =
              Perm.trans (back-Perm before after s.pool.available.items c)
                (subst (λ l. Perm (l ++ s.pool.available.items) connections) at v.kept);
          counted = omega (arith, v.counted, fewer, length-append s.pool.available.items (c ∷ []));
          sized = v.sized;
          on = v.on;
          raised = v.raised;
          given_back =
              All-append Succeeds s.given_back (r ∷ []) v.given_back
                (ap (λ x. x.0) (sym h) ∙ ap (λ x. x.0) done, tt);
        })

  pub create-Inv :
      (connections : List T) (pool : ConnectionPool T)
      → is_empty connections ≡ false
      → create connections ≡ ok pool
      → Inv connections (fresh pool)
  create-Inv connections pool nonempty made =
      let (n, filled) = create-lem connections nonempty in
      let first : ConnectionPool T = record {
        available = record {
          maxsize = length connections;
          items = connections;
          unfinished = n;
          is_shutdown = false;
        };
      } in
      let same : first ≡ pool = ground (arith, made, filled) in
      subst (λ k. Inv connections (fresh k)) same
        (record {
          kept = Perm.refl connections;
          counted = omega arith;
          sized = refl;
          on = refl;
          raised = tt;
          given_back = tt;
        })

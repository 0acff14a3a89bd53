-- ===== src/Plugin/Mux/Own.antt =====
-- plugin/host/mux.go: every call gets the answer to its own request.
use opendray_v2_lab.Common.Dict.{lookup, lookup-insert, lookup-delete}
use opendray_v2_lab.Common.{
  ℕ, ◌+◌, ◌≡◌, ◌≢◌, Comparable, refl, sym, ap, subst, ◌∙◌, ◌⊎◌, inl, inr, List, [], ◌∷◌, Option,
  none, some, drop, Bytes, bytes_eq, nat_eq, ◌==◌, if◌then◌else◌, Bool-cases, pick, arith,
}
use opendray_v2_lab.Go.Decimal.{format_nat}
use opendray_v2_lab.Plugin.Mux.{
  Mux, Rpc, new_mux, register, forget, offered, offer_to, offer, parse_id, deliver, respond,
  nonempty, dispatch, closing, offer_each, close_all,
}

lookup-empty : {K : Type 0} {V : Type 0} ⦃e : Comparable K⦄ (k : K) (v : V) → lookup k [] ≢ some v
unfolding lookup
lookup-empty k v h = cc

module _ (unquote number : Bytes → Option Bytes) where
  -- One stretch of some goroutine: a call starts or ends, a frame arrives, a notification is read, or
  -- the multiplexer closes.
  pub data Step (m : Mux) : Mux → Type 0 where
    registers : Step m (register m).0
    forgets : (n : ℕ) → Step m (forget n m)
    dispatches : (msg : Rpc) → Step m (dispatch unquote number msg m)
    reads : Step m (record m { notif_ch = drop 1 m.notif_ch })
    closes : (message : Bytes) → Step m (close_all message m)

  pub data Reachable : Mux → Type 0 where
    started : Reachable new_mux
    then_step : {m m' : Mux} → Reachable m → Step m m' → Reachable m'

  -- The answer bears the call's id, or says that the stream has ended.
  abbrev pub Answers : ℕ → Rpc → Type 0
  Answers n r =
      (parse_id unquote number r.id ≡ some (format_nat n))
      ⊎ ((message : Bytes) × (r ≡ closing message))

  abbrev pub Waits : ℕ → List Rpc → Type 0
  Waits n [] = Unit
  Waits n (r ∷ []) = Answers n r
  Waits n (r ∷ r' ∷ rs) = ⊥

  record Owned (m : Mux) : Type 0 where
    ids : (id : Bytes) (n : ℕ) → lookup id m.pending ≡ some n → id ≡ format_nat n
    waits : (n : ℕ) (rs : List Rpc) → lookup n m.chans ≡ some rs → Waits n rs

  offered-Waits :
      (n : ℕ) (r : Rpc) (rs : List Rpc) → Answers n r → Waits n rs → Waits n (offered r rs)
  offered-Waits n r [] a w = a
  offered-Waits n r (r' ∷ rs) a w = w

  -- Offering an answer to one call leaves every channel as it should be.
  offer-Waits :
      (r : Rpc) (n : ℕ) (chans : List (ℕ × List Rpc))
      → Answers n r
      → ((k : ℕ) (rs : List Rpc) → lookup k chans ≡ some rs → Waits k rs)
      → (k : ℕ) (rs : List Rpc) → lookup k (offer r n chans) ≡ some rs
      → Waits k rs
  unfolding offer
  offer-Waits r n chans a w k rs h = go (lookup n chans) refl h
    where
      go :
          (o : Option (List Rpc))
          → lookup n chans ≡ o
          → lookup k (offer_to r n chans o) ≡ some rs
          → Waits k rs
      go none e h' = w k rs h'
      go (some waiting) e h' = elim (Bool-cases (n == k)) [
        | inl same ↦
            let at : n ≡ k = (nat_eq.equals_iff n k).0 same in
            let is : offered r waiting ≡ rs =
              ground (arith, lookup-insert n k (offered r waiting) chans, h', same) in
            subst (λ i. Waits i rs) at
              (subst (Waits n) is (offered-Waits n r waiting a (w n waiting e)))
        | inr other ↦
            w k rs (ground (arith, lookup-insert n k (offered r waiting) chans, h', other))
      ]

  respond-Waits :
      (msg : Rpc) (m : Mux)
      → Owned m
      → (o : Option Bytes) → parse_id unquote number msg.id ≡ o
      → Owned (respond msg o m)
  respond-Waits msg m w none e = w
  respond-Waits msg m w (some id) e = go (lookup id m.pending) refl
    where
      go : (o : Option ℕ) → lookup id m.pending ≡ o → Owned (deliver msg o m)
      go none h = w
      go (some n) h = record {
        ids = w.ids;
        waits = offer-Waits msg n m.chans (inl (e ∙ ap some (w.ids id n h))) w.waits;
      }

  offer_each-Waits :
      (message : Bytes) (pending : List (Bytes × ℕ)) (chans : List (ℕ × List Rpc))
      → ((k : ℕ) (rs : List Rpc) → lookup k chans ≡ some rs → Waits k rs)
      → (k : ℕ) (rs : List Rpc) → lookup k (offer_each (closing message) pending chans) ≡ some rs
      → Waits k rs
  unfolding offer_each
  offer_each-Waits message [] chans w = w
  offer_each-Waits message ((id, n) ∷ pending) chans w =
      offer_each-Waits message pending (offer (closing message) n chans)
        (offer-Waits (closing message) n chans (inr (message, refl)) w)

  register-Owned : (m : Mux) → Owned m → Owned (register m).0
  unfolding register
  register-Owned m w =
      let n = m.next_id + 1 in
      record {
        ids = λ id k h. ground (
          arith,
          lookup-insert (format_nat n) id n m.pending,
          h,
          bytes_eq.equals_iff (format_nat n) id,
          w.ids id k,
        );
        waits = λ k rs h. go k rs (sym (lookup-insert n k [] m.chans) ∙ h);
      }
    where
      go :
          (k : ℕ) (rs : List Rpc)
          → (if m.next_id + 1 == k then some [] else lookup k m.chans) ≡ some rs
          → Waits k rs
      go k [] h = tt
      go k (r ∷ rs) h = w.waits k (r ∷ rs) (ground (arith, h))

  forget-Owned : (n : ℕ) (m : Mux) → Owned m → Owned (forget n m)
  unfolding forget
  forget-Owned n m w = record {
    ids = λ id k h. w.ids id k (ground (arith, lookup-delete (format_nat n) id m.pending, h));
    waits = λ k rs h. w.waits k rs (ground (arith, lookup-delete n k m.chans, h));
  }

  step-Owned : (m m' : Mux) → Step m m' → Owned m → Owned m'
  unfolding dispatch close_all
  step-Owned m m' registers w = register-Owned m w
  step-Owned m m' (forgets n) w = forget-Owned n m w
  step-Owned m m' reads w = record { ids = w.ids; waits = w.waits }
  step-Owned m m' (dispatches msg) w =
      pick Owned (nonempty msg.method) _ _
        (λ _.
          pick Owned (nonempty msg.id) _ _ (λ _. record { ids = w.ids; waits = w.waits })
            (λ _. record { ids = w.ids; waits = w.waits }))
        (λ _.
          pick Owned (nonempty msg.id) _ _
            (λ _. respond-Waits msg m w (parse_id unquote number msg.id) refl) (λ _. w))
  step-Owned m m' (closes message) w =
      pick Owned m.done _ _ (λ _. w)
        (λ _. record {
          ids = λ id n h. absurd (lookup-empty id n h);
          waits = offer_each-Waits message m.pending m.chans w.waits;
        })

  Reachable-Owned : (m : Mux) → Reachable m → Owned m
  Reachable-Owned m started = record {
    ids = λ id n h. absurd (lookup-empty id n h);
    waits = λ n rs h. absurd (lookup-empty n rs h);
  }
  Reachable-Owned m' (then_step {m} r s) = step-Owned m m' s (Reachable-Owned m r)

  -- However calls, frames and the end of the stream come one after the other, at most one answer waits
  -- for a call, and it is a frame whose id is the number that this call's request went out with, or the
  -- notice that the stream has ended: no call gets the answer to another.
  pub Reachable-own :
      (m : Mux) (n : ℕ) (r : Rpc) (rs : List Rpc)
      → Reachable m
      → lookup n m.chans ≡ some (r ∷ rs)
      → (rs ≡ [])
        × ((parse_id unquote number r.id ≡ some (format_nat n))
            ⊎ ((message : Bytes) × (r ≡ closing message)))
  Reachable-own m n r rs reach h = go rs ((Reachable-Owned m reach).waits n (r ∷ rs) h)
    where
      go : (rest : List Rpc) → Waits n (r ∷ rest) → (rest ≡ []) × Answers n r
      go [] w = (refl, w)
      go (r' ∷ rest) w = elim w [ ]

-- ===== src/Plugin/Mux/Window.antt =====
-- plugin/host/mux.go: the buffer of notifications that nobody has read yet.
use opendray_v2_lab.Common.Dict.{lookup}
use opendray_v2_lab.Common.{
  bytes_eq, ℕ, suc, ◌-◌, ◌≡◌, ◌≤◌, refl, sym, ap, subst, ◌∙◌, inl, inr, List, [], ◌∷◌, ◌++◌,
  append_assoc, append-nil, Option, none, some, Bytes, length, drop, length-append, ltb,
  if◌then◌else◌, Bool-cases, pick, arith,
}
use opendray_v2_lab.Plugin.Mux.{
  Mux, Rpc, Notification, capacity, push_notification, nonempty, dispatch, respond, deliver,
  parse_id,
}

-- The newest, as many as the buffer holds.
abbrev pub newest : List Notification → List Notification
newest ns = drop (length ns - capacity) ns

newest_small : (ns : List Notification) → length ns ≤ capacity → ns ≡ newest ns
newest_small ns h =
    let none_over : 0 ≡ length ns - capacity = omega arith in ap (λ k. drop k ns) none_over

-- One more in front of many makes no difference.
newest-cons :
    (n : Notification) (ns : List Notification) → capacity ≤ length ns → newest ns ≡ newest (n ∷ ns)
newest-cons n ns h =
    let over : suc (length ns - capacity) ≡ length (n ∷ ns) - capacity = omega arith in
    ap (λ k. drop k (n ∷ ns)) over

push_newest :
    (n : Notification) (waiting more : List Notification)
    → length waiting ≤ capacity
    → newest (push_notification n waiting ++ more) ≡ newest (waiting ++ n ∷ more)
unfolding push_notification
push_newest n [] more h = refl
push_newest n (w ∷ ws) more h =
    pick (λ next. newest (next ++ more) ≡ newest ((w ∷ ws) ++ n ∷ more))
      (ltb (length (w ∷ ws)) capacity) _ _ (λ room. ap newest (append_assoc (w ∷ ws) (n ∷ []) more))
      (λ full.
        ap newest (append_assoc ws (n ∷ []) more)
        ∙ newest-cons w (ws ++ n ∷ more) (ground (arith, full, length-append ws (n ∷ more))))

length-push_notification :
    (n : Notification) (waiting : List Notification)
    → length waiting ≤ capacity
    → length (push_notification n waiting) ≤ capacity
unfolding push_notification
length-push_notification n [] h = ground arith
length-push_notification n (w ∷ ws) h =
    ground (arith, length-append (w ∷ ws) (n ∷ []), length-append ws (n ∷ []))

respond_quiet : (msg : Rpc) (o : Option Bytes) (m : Mux) → (respond msg o m).notif_ch ≡ m.notif_ch
respond_quiet msg none m = refl
respond_quiet msg (some id) m = go (lookup id m.pending)
  where
    go : (o : Option ℕ) → (deliver msg o m).notif_ch ≡ m.notif_ch
    go none = refl
    go (some n) = refl

-- The notifications among messages, in order.
abbrev pub notified : Rpc → List Notification → List Notification
notified msg rest =
    if nonempty msg.method
    then (if nonempty msg.id
        then rest
        else record { method = msg.method; params = msg.params } ∷ rest)
    else rest

abbrev pub notifications : List Rpc → List Notification
notifications [] = []
notifications (msg ∷ msgs) = notified msg (notifications msgs)

module _ (unquote number : Bytes → Option Bytes) where
  pub dispatch_all : List Rpc → Mux → Mux
  dispatch_all [] m = m
  dispatch_all (msg ∷ msgs) m = dispatch_all msgs (dispatch unquote number msg m)

  one-newest :
      (msg : Rpc) (m : Mux) (rest : List Notification)
      → length m.notif_ch ≤ capacity
      → (newest ((dispatch unquote number msg m).notif_ch ++ rest)
          ≡ newest (m.notif_ch ++ notified msg rest))
        × (length (dispatch unquote number msg m).notif_ch ≤ capacity)
  unfolding dispatch
  one-newest msg m rest h = elim (Bool-cases (nonempty msg.method)) [
    | inl a ↦ elim (Bool-cases (nonempty msg.id)) [
      | inl b ↦ rw (a, b) (refl, h)
      | inr b ↦
          let n : Notification = record { method = msg.method; params = msg.params } in
          rw (a, b) (push_newest n m.notif_ch rest h, length-push_notification n m.notif_ch h)
    ]
    | inr a ↦ elim (Bool-cases (nonempty msg.id)) [
      | inl b ↦
          let same = respond_quiet msg (parse_id unquote number msg.id) m in
          rw (a, b)
            (ap (λ ns. newest (ns ++ rest)) same, subst (λ ns. length ns ≤ capacity) (sym same) h)
      | inr b ↦ rw (a, b) (refl, h)
    ]
  ]

  -- Whatever frames arrive while nobody reads, the buffer of notifications then holds the newest of those
  -- that waited and those that arrived, in their order: all of them up to 32, and the last 32 beyond.
  pub dispatch_all-newest :
      (msgs : List Rpc) (m : Mux)
      → length m.notif_ch ≤ capacity
      → (dispatch_all msgs m).notif_ch ≡ newest (m.notif_ch ++ notifications msgs)
  unfolding dispatch_all
  dispatch_all-newest [] m h = newest_small m.notif_ch h ∙ ap newest (sym (append-nil m.notif_ch))
  dispatch_all-newest (msg ∷ msgs) m h =
      let (same, small) = one-newest msg m (notifications msgs) h in
      dispatch_all-newest msgs (dispatch unquote number msg m) small ∙ same

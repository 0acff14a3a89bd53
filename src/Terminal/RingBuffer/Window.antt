-- ===== src/Terminal/RingBuffer/Window.antt =====
-- The buffer holds the last `cap` bytes of all that was written to it.
use native.Mathlib.Nat.{mod-eq_of_lt, mod-eq-sub-mod}
use opendray_v2_lab.Common.{
  ℕ, zero, suc, ◌+◌, ◌-◌, ◌%◌, ◌≤◌, ◌<◌, ◌≡◌, refl, ap, ◌∙◌, sym, Bool, true, false, not, ◌||◌, inl,
  inr, List, [], ◌∷◌, ◌++◌, append_assoc, append-nil, arith, Bytes, leb, length, set, take, drop,
  drop-length, take-length, length-append, length-drop, length-take, Bool-cases, none, some, subst,
  nat_eq, if◌then◌else◌, ◌==◌,
}
use opendray_v2_lab.Terminal.RingBuffer.{RingBuffer, store, publish, write, snapshot}
use opendray_v2_lab.Terminal.RingBuffer.Fold.{
  IsValid, put, put_all, store-put_all, put-IsValid, put_all-IsValid,
}

module _ {ℓ} {A : Type ℓ} where
  -- The last `n` elements, or all of them where there are fewer.
  abbrev pub last : ℕ → List A → List A
  last n xs = drop (length xs - n) xs

  drop-nil : (n : ℕ) → drop {A = A} n [] ≡ []
  drop-nil zero = refl
  drop-nil (suc n) = refl

  drop-drop : (m n : ℕ) (xs : List A) → drop m (drop n xs) ≡ drop (n + m) xs
  drop-drop m zero xs = ap (λ k. drop k xs) (omega arith)
  drop-drop m (suc n) [] = drop-nil m ∙ sym (drop-nil (suc n + m))
  drop-drop m (suc n) (x ∷ xs) =
      drop-drop m n xs ∙ ap (λ k. drop k (x ∷ xs)) {x = suc (n + m)} (omega arith)

  drop-append : (n : ℕ) (xs ys : List A) → n ≤ length xs → drop n (xs ++ ys) ≡ drop n xs ++ ys
  drop-append zero xs ys h = refl
  drop-append (suc n) [] ys h = absurd (omega arith)
  drop-append (suc n) (x ∷ xs) ys h = drop-append n xs ys (omega arith)

  set-length : (xs ys : List A) (x y : A) → set (xs ++ x ∷ ys) (length xs) y ≡ xs ++ y ∷ ys
  set-length [] ys x y = refl
  set-length (z ∷ xs) ys x y = ap (◌∷◌ z) (set-length xs ys x y)

  -- The list around the place `i`.
  record Split (xs : List A) (i : ℕ) : Type ℓ where
    before : List A
    here : A
    after : List A
    parts : xs ≡ before ++ here ∷ after
    at : length before ≡ i

  exists_parts : (xs : List A) (i : ℕ) → i < length xs → Split xs i
  exists_parts [] i h = absurd (omega arith)
  exists_parts (x ∷ xs) zero h = record {
    before = [];
    here = x;
    after = xs;
    parts = refl;
    at = refl;
  }
  exists_parts (x ∷ xs) (suc i) h =
      let s = exists_parts xs i (omega arith) in
      record {
        before = x ∷ s.before;
        here = s.here;
        after = s.after;
        parts = ap (◌∷◌ x) s.parts;
        at = ap suc s.at;
      }

  pub last_whole : (n : ℕ) (xs : List A) → length xs ≤ n → last n xs ≡ xs
  last_whole n xs h = ap (λ k. drop k xs) {y = 0} (omega arith)

  last_cons : (n : ℕ) (x : A) (xs : List A) → length xs ≡ n → last n (x ∷ xs) ≡ xs
  last_cons n x xs h = ap (λ k. drop k (x ∷ xs)) {y = 1} (omega arith)

  pub last-last : (n : ℕ) (xs ys : List A) → last n (last n xs ++ ys) ≡ last n (xs ++ ys)
  last-last n xs ys =
      let k = length xs - n in
      let e : drop k xs ++ ys ≡ drop k (xs ++ ys) = sym (drop-append k xs ys (omega arith)) in
      rw e (
        drop-drop (length (drop k (xs ++ ys)) - n) k (xs ++ ys)
        ∙ ap (λ m. drop m (xs ++ ys))
            (omega (arith, length-drop k (xs ++ ys), length-append xs ys)))

-- `Snapshot`, as a function of the fields that it reads.
abbrev view : Bool → ℕ → Bytes → Bytes
view f head buf = if not f then take head buf else drop head buf ++ take head buf

abbrev advance : (cap : ℕ) → Bool → Bytes → ℕ → Bytes
advance cap f buf' head = view (f || leb cap (head + 1)) ((head + 1) % cap) buf'

-- With `head` behind `l`, the window is `l`, after the older bytes once the buffer is full.
view_at : (l z : Bytes) (f : Bool) → view f (length l) (l ++ z) ≡ (if f then z ++ l else l)
view_at l z true = rw (drop-length l z, take-length l z)
view_at l z false = take-length l z

-- The window after one byte more, which overwrites `x`, the oldest if the buffer is full.
last_step :
    (l r : Bytes) (x b cap : ℕ) (f : Bool)
    → length l + suc (length r) ≡ cap
    → last cap ((if f then (x ∷ r) ++ l else l) ++ b ∷ [])
      ≡ (if f then r ++ (l ++ b ∷ []) else l ++ b ∷ [])
last_step l r x b cap true e = rw (append_assoc r l (b ∷ [])) (
    last_cons cap x (r ++ (l ++ b ∷ []))
      (omega (arith, length-append r (l ++ b ∷ []), length-append l (b ∷ []))))
last_step l r x b cap false e =
    last_whole cap (l ++ b ∷ []) (omega (arith, length-append l (b ∷ [])))

advance_at :
    (l r : Bytes) (b cap : ℕ) (f : Bool)
    → length l + suc (length r) ≡ cap
    → advance cap f (l ++ b ∷ r) (length l) ≡ (if f then r ++ (l ++ b ∷ []) else l ++ b ∷ [])
advance_at l [] b cap f e =
    let wraps : (length l + 1) % cap ≡ 0 =
      mod-eq-sub-mod {n = length l + 1} {m = cap} (omega arith)
      ∙ ap (λ k. k % cap) (omega arith)
      ∙ mod-eq_of_lt {n = 0} {m = cap} (omega arith) in
    let fills : (f || leb cap (length l + 1)) ≡ true = ground arith in
    rw (wraps, fills) (append-nil (l ++ b ∷ []) ∙ ends f)
  where
    ends : (g : Bool) → l ++ b ∷ [] ≡ (if g then [] ++ (l ++ b ∷ []) else l ++ b ∷ [])
    ends true = refl
    ends false = refl
advance_at l (y ∷ r) b cap f e =
    let next : (length l + 1) % cap ≡ length (l ++ b ∷ []) =
      mod-eq_of_lt {n = length l + 1} {m = cap} (omega arith) ∙ sym (length-append l (b ∷ [])) in
    let keeps : (f || leb cap (length l + 1)) ≡ f = ground arith in
    rw (next, keeps, ← append_assoc l (b ∷ []) (y ∷ r)) (view_at (l ++ b ∷ []) (y ∷ r) f)

-- One byte, written over `x` between `l` and `r`.
view_step :
    (l r : Bytes) (x b cap : ℕ) (f : Bool)
    → length l + suc (length r) ≡ cap
    → advance cap f (l ++ b ∷ r) (length l) ≡ last cap (view f (length l) (l ++ x ∷ r) ++ b ∷ [])
view_step l r x b cap f e =
    advance_at l r b cap f e
    ∙ sym (ap (λ s. last cap (s ++ b ∷ [])) (view_at l (x ∷ r) f) ∙ last_step l r x b cap f e)

snapshot-put :
    (rb : RingBuffer) (b : ℕ)
    → IsValid rb
    → snapshot (put rb b) ≡ last rb.cap (snapshot rb ++ b ∷ [])
unfolding snapshot
snapshot-put rb b v =
    go rb.buf rb.head (exists_parts rb.buf rb.head (omega (arith, v.storage, v.head_in))) v.storage
  where
    go :
        (buf : Bytes) (head : ℕ) (s : Split buf head)
        → length buf ≡ rb.cap
        → advance rb.cap rb.full (set buf head b) head
          ≡ last rb.cap (view rb.full head buf ++ b ∷ [])
    go buf head s e =
        rw (s.parts, ← s.at, set-length s.before s.after s.here b)
          (view_step s.before s.after s.here b rb.cap rb.full
            (sym (length-append s.before (s.here ∷ s.after)) ∙ ap length (sym s.parts) ∙ e))

pub length-snapshot : (rb : RingBuffer) → IsValid rb → length (snapshot rb) ≤ rb.cap
unfolding snapshot
length-snapshot rb v = elim (Bool-cases rb.full) [
  | inl yes_full ↦ rw yes_full (
      omega (
        arith,
        length-append (drop rb.head rb.buf) (take rb.head rb.buf),
        length-drop rb.head rb.buf,
        length-take rb.head rb.buf,
      ))
  | inr not_full ↦ rw not_full (omega (arith, length-take rb.head rb.buf))
]

snapshot-put_all :
    (rb : RingBuffer) (bs : Bytes)
    → IsValid rb
    → snapshot (put_all rb bs) ≡ last rb.cap (snapshot rb ++ bs)
snapshot-put_all rb [] v = sym (
    ap (last rb.cap) (append-nil (snapshot rb))
    ∙ last_whole rb.cap (snapshot rb) (length-snapshot rb v))
snapshot-put_all rb (b ∷ bs) v =
    snapshot-put_all (put rb b) bs (put-IsValid rb b v)
    ∙ ap (λ s. last rb.cap (s ++ bs)) (snapshot-put rb b v)
    ∙ last-last rb.cap (snapshot rb ++ b ∷ []) bs
    ∙ ap (last rb.cap) (append_assoc (snapshot rb) (b ∷ []) bs)

cap-store : (rb : RingBuffer) (bs : Bytes) → (store rb bs).cap ≡ rb.cap
unfolding store
cap-store rb bs = refl

-- On a valid buffer a write succeeds, and then `Snapshot` returns the last `cap` bytes of its
-- former contents followed by the data; the result is valid and of the same capacity.
pub snapshot-write :
    (rb : RingBuffer) (bs : Bytes)
    → IsValid rb
    → (rb' : RingBuffer) × (write rb bs ≡ some rb')
      × (snapshot rb' ≡ last rb.cap (snapshot rb ++ bs))
      × IsValid rb'
      × (rb'.cap ≡ rb.cap)
unfolding write
snapshot-write rb [] v = (rb, refl, snapshot-put_all rb [] v, v, refl)
snapshot-write rb (b ∷ bs) v =
    let stored = store rb (b ∷ bs) in
    let rb' : RingBuffer = record stored { subs = publish (b ∷ bs) stored.subs } in
    let e : stored ≡ put_all rb (b ∷ bs) = store-put_all rb (b ∷ bs) v in
    let w : IsValid stored = subst IsValid (sym e) (put_all-IsValid rb (b ∷ bs) v) in
    (
      rb',
      no_panic (omega arith),
      same_window stored ∙ ap snapshot e ∙ snapshot-put_all rb (b ∷ bs) v,
      record { storage = w.storage; head_in = w.head_in },
      cap-store rb (b ∷ bs),
    )
  where
    no_panic : {A : Type 0} {x : A} → 0 < rb.cap → (if rb.cap == 0 then none else some x) ≡ some x
    no_panic h = ground arith

    same_window :
        (s : RingBuffer) → snapshot (record s { subs = publish (b ∷ bs) s.subs }) ≡ snapshot s
    same_window s = unfold snapshot in refl

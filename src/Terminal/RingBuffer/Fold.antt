-- ===== src/Terminal/RingBuffer/Fold.antt =====
-- Writing a run of bytes is writing them one at a time.
use native.Mathlib.Nat.{mod-add-mod, mod-eq_of_lt, mod-eq-sub-mod, mod-lt}
use native.Mathlib.Decide.{dec_lt}
use opendray_v2_lab.Common.{
  ℕ, suc, ◌+◌, ◌-◌, ◌%◌, ◌<◌, ◌≡◌, refl, ap, ◌∙◌, sym, Bool, ◌||◌, [], ◌∷◌, arith, Bytes, leb,
  length, set, length-set,
}
use opendray_v2_lab.Terminal.RingBuffer.{RingBuffer, copy_in, full_after, store}

-- The representation invariant: the buffer has a place, and `head` is one of them.
pub record IsValid (rb : RingBuffer) : Type 0 where
  pub storage : length rb.buf ≡ rb.cap
  pub head_in : rb.head < rb.cap

-- One byte: it goes to `head`, and passing the last place makes the buffer full.
abbrev pub put : RingBuffer → ℕ → RingBuffer
put rb b = record rb {
  buf = set rb.buf rb.head b;
  head = (rb.head + 1) % rb.cap;
  full = rb.full || leb rb.cap (rb.head + 1);
}

abbrev pub put_all : RingBuffer → Bytes → RingBuffer
put_all rb [] = rb
put_all rb (b ∷ rest) = put_all (put rb b) rest

shift_index : (cap head i : ℕ) → (head + (i + 1)) % cap ≡ ((head + 1) % cap + i) % cap
shift_index cap head i = rw mod-add-mod (ap (λ k. k % cap) (omega arith))

copy_in_shift :
    (cap head i : ℕ) (bs buf : Bytes)
    → copy_in cap head (i + 1) bs buf ≡ copy_in cap ((head + 1) % cap) i bs buf
unfolding copy_in
copy_in_shift cap head i [] buf = refl
copy_in_shift cap head i (b ∷ bs) buf =
    rw (shift_index cap head i) (copy_in_shift cap head (i + 1) bs _)

length-copy_in : (cap head i : ℕ) (bs buf : Bytes) → length (copy_in cap head i bs buf) ≡ length buf
unfolding copy_in
length-copy_in cap head i [] buf = refl
length-copy_in cap head i (b ∷ bs) buf =
    length-copy_in cap head (i + 1) bs _ ∙ length-set buf ((head + i) % cap) b

once_round : (head cap : ℕ) → head < cap → (head + cap) % cap ≡ head
once_round head cap h =
    mod-eq-sub-mod {n = head + cap} {m = cap} (omega arith)
    ∙ ap (λ k. k % cap) (omega arith)
    ∙ mod-eq_of_lt h

-- The wrap test of `Write` says whether the last place was passed.
full_after_lem :
    (cap head n : ℕ) (f : Bool)
    → head < cap
    → full_after cap ((head + n) % cap) f n ≡ (f || leb cap (head + n))
unfolding full_after
full_after_lem cap head n f h = elim (dec_lt n cap) [
  | no big ↦ ground arith
  | yes small ↦ elim (dec_lt (head + n) cap) [
    | yes fits ↦
        let e : (head + n) % cap ≡ head + n = mod-eq_of_lt fits in
        let back : (head + n + cap - n) % cap ≡ head =
          ap (λ k. k % cap) (omega arith) ∙ once_round head cap h in
        rw (e, back) (ground arith)
    | no over ↦
        let e : (head + n) % cap ≡ head + n - cap =
          mod-eq-sub-mod {n = head + n} {m = cap} (omega arith)
          ∙ mod-eq_of_lt {n = head + n - cap} {m = cap} (omega arith) in
        let back : (head + n - cap + cap - n) % cap ≡ head =
          ap (λ k. k % cap) (omega arith) ∙ mod-eq_of_lt h in
        rw (e, back) (ground arith)
  ]
]

-- Whether a run passes the last place can be asked of its first byte, and then of the rest.
passes_split :
    (cap head n : ℕ) (f : Bool)
    → head < cap
    → (f || leb cap (head + suc n)) ≡ ((f || leb cap (head + 1)) || leb cap ((head + 1) % cap + n))
passes_split cap head n f h = elim (dec_lt (head + 1) cap) [
  | yes inside ↦ rw (mod-eq_of_lt inside) (ground arith)
  | no last ↦ ground arith
]

next_head : {cap : ℕ} (head : ℕ) → head < cap → (head + 1) % cap < cap
next_head head h = mod-lt (head + 1) (omega arith)

-- The run of bytes after the first starts where one `put` leaves the buffer.
store-put :
    (rb : RingBuffer) (b : ℕ) (bs : Bytes) → IsValid rb → store rb (b ∷ bs) ≡ store (put rb b) bs
unfolding store
store-put rb b bs v = λ i. record rb { buf = bufs i; head = heads i; full = fulls i }
  where
    open rb use {buf, cap, head, full}

    heads : (head + suc (length bs)) % cap ≡ ((head + 1) % cap + length bs) % cap
    heads = ap (λ k. (head + k) % cap) (omega arith) ∙ shift_index cap head (length bs)

    bufs : copy_in cap head 0 (b ∷ bs) buf ≡ copy_in cap ((head + 1) % cap) 0 bs (set buf head b)
    bufs =
        unfold copy_in in
        ap (λ k. copy_in cap head 1 bs (set buf k b))
          (ap (λ k. k % cap) (omega arith) ∙ mod-eq_of_lt v.head_in)
        ∙ copy_in_shift cap head 0 bs (set buf head b)

    fulls :
        full_after cap ((head + suc (length bs)) % cap) full (suc (length bs))
        ≡ full_after cap
            (((head + 1) % cap + length bs) % cap)
            (full || leb cap (head + 1))
            (length bs)
    fulls =
        full_after_lem cap head (suc (length bs)) full v.head_in
        ∙ passes_split cap head (length bs) full v.head_in
        ∙ sym (full_after_lem cap ((head + 1) % cap) (length bs) _ (next_head head v.head_in))

pub put-IsValid : (rb : RingBuffer) (b : ℕ) → IsValid rb → IsValid (put rb b)
put-IsValid rb b v = record {
  storage = length-set rb.buf rb.head b ∙ v.storage;
  head_in = next_head rb.head v.head_in;
}

store-nil : (rb : RingBuffer) → IsValid rb → store rb [] ≡ rb
unfolding store copy_in
store-nil rb v = λ i. record rb { head = heads i; full = fulls i }
  where
    open rb use {cap, head, full}

    heads : (head + 0) % cap ≡ head
    heads = ap (λ k. k % cap) (omega arith) ∙ mod-eq_of_lt v.head_in

    fulls : full_after cap ((head + 0) % cap) full 0 ≡ full
    fulls = full_after_lem cap head 0 full v.head_in ∙ no_room full (omega arith)
      where
        no_room : (f : Bool) → head + 0 < cap → (f || leb cap (head + 0)) ≡ f
        no_room f h = ground arith

-- `Write` stores a run of bytes exactly as if they came one by one.
pub store-put_all : (rb : RingBuffer) (bs : Bytes) → IsValid rb → store rb bs ≡ put_all rb bs
store-put_all rb [] v = store-nil rb v
store-put_all rb (b ∷ bs) v = store-put rb b bs v ∙ store-put_all (put rb b) bs (put-IsValid rb b v)

pub put_all-IsValid : (rb : RingBuffer) (bs : Bytes) → IsValid rb → IsValid (put_all rb bs)
put_all-IsValid rb [] v = v
put_all-IsValid rb (b ∷ bs) v = put_all-IsValid (put rb b) bs (put-IsValid rb b v)

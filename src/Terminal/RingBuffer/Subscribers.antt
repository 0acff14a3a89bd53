-- ===== src/Terminal/RingBuffer/Subscribers.antt =====
-- What subscribers see: a write reaches each of them or is dropped for the full ones alone.
use mathlib.Core.Option
use mathlib.Core.Option.{some-injective}
use opendray_v2_lab.Common.Dict.{
  lookup, lookup-insert, lookup-delete, AllValues, AllValues-insert, AllValues-delete,
}
use opendray_v2_lab.Common.{
  ℕ, ◌+◌, ◌%◌, ◌^◌, ◌≤◌, ◌≡◌, refl, List, [], ◌∷◌, arith, Bytes, true, false, length, none, some,
  nat_eq, nat_beq_iff, ◌==◌, if◌then◌else◌, length-append, ◌⊎◌, inl, inr, sym, subst, Option-cases,
}
use opendray_v2_lab.Terminal.RingBuffer.{
  RingBuffer, Channel, Call, writes, subscribes, unsubscribes, step, channel_cap, offer, publish,
  store, write, subscribe, unsubscribe,
}

lookup-publish :
    (chunk : Bytes) (id : ℕ) (subs : List (ℕ × Channel))
    → lookup id (publish chunk subs) ≡ Option.map (offer chunk) (lookup id subs)
unfolding publish lookup
lookup-publish chunk id [] = refl
lookup-publish chunk id ((j, ch) ∷ subs) = ground (arith, lookup-publish chunk id subs)

-- After a write of some bytes every subscriber still has its channel, with the data behind what
-- waited in it, or unchanged if 256 chunks waited already; no subscriber comes or goes.
pub lookup-write :
    (rb rb' : RingBuffer) (b : ℕ) (bs : Bytes) (id : ℕ)
    → write rb (b ∷ bs) ≡ some rb'
    → lookup id rb'.subs ≡ Option.map (offer (b ∷ bs)) (lookup id rb.subs)
unfolding write store
lookup-write rb rb' b bs id e = ground (arith, lookup-publish (b ∷ bs) id rb.subs)

-- A channel that `Write` may send to: open, so that the send cannot panic, and within its capacity.
pub record IsLive (ch : Channel) : Type 0 where
  pub bounded : length ch.pending ≤ channel_cap
  pub opened : ch.closed ≡ false

offer-IsLive : (chunk : Bytes) (ch : Channel) → IsLive ch → IsLive (offer chunk ch)
unfolding offer
offer-IsLive chunk ch h = ground (arith, length-append ch.pending (chunk ∷ []))

publish-IsLive :
    (chunk : Bytes) (subs : List (ℕ × Channel))
    → AllValues IsLive subs
    → AllValues IsLive (publish chunk subs)
unfolding publish
publish-IsLive chunk [] a = tt
publish-IsLive chunk ((id, ch) ∷ subs) a =
    (offer-IsLive chunk ch a.0, publish-IsLive chunk subs a.1)

subs-write :
    (rb rb' : RingBuffer) (bs : Bytes)
    → write rb bs ≡ some rb'
    → (rb'.subs ≡ rb.subs) ⊎ (rb'.subs ≡ publish bs rb.subs)
unfolding write store
subs-write rb rb' [] e = ground arith
subs-write rb rb' (b ∷ bs) e = ground arith

write-IsLive :
    (rb rb' : RingBuffer) (bs : Bytes)
    → AllValues IsLive rb.subs
    → write rb bs ≡ some rb'
    → AllValues IsLive rb'.subs
write-IsLive rb rb' bs a e = elim (subs-write rb rb' bs e) [
  | inl same ↦ subst (AllValues IsLive) (sym same) a
  | inr sent ↦ subst (AllValues IsLive) (sym sent) (publish-IsLive bs rb.subs a)
]

unsubscribe-IsLive :
    (rb : RingBuffer) (id : ℕ)
    → AllValues IsLive rb.subs
    → AllValues IsLive (unsubscribe rb id).0.subs
unfolding unsubscribe
unsubscribe-IsLive rb id a = elim (Option-cases (lookup id rb.subs)) [
  | inl e ↦ rw (e, unsubscribe) a
  | inr (ch, e) ↦ rw (e, unsubscribe) (AllValues-delete IsLive id rb.subs a)
]

-- Every call that does not panic keeps all channels of the map open and within 256 chunks: `Write`
-- never sends on a channel that `Unsubscribe` closed.
pub step-IsLive :
    (rb rb' : RingBuffer) (c : Call)
    → AllValues IsLive rb.subs
    → step rb c ≡ some rb'
    → AllValues IsLive rb'.subs
unfolding step
step-IsLive rb rb' (writes bs) a e = write-IsLive rb rb' bs a e
step-IsLive rb rb' subscribes a e =
    subst (λ (r : RingBuffer). AllValues IsLive r.subs) (some-injective _ _ e)
      (unfold subscribe in
        AllValues-insert IsLive _ _ rb.subs (record { bounded = omega arith; opened = refl }) a)
step-IsLive rb rb' (unsubscribes id) a e =
    subst (λ (r : RingBuffer). AllValues IsLive r.subs) (some-injective _ _ e)
      (unsubscribe-IsLive rb id a)

-- `Unsubscribe` closes the channel of that id, with what waits in it kept, and takes it out of the
-- map; it leaves every other subscriber and the bytes alone, and does nothing for an unknown id.
pub lookup-unsubscribe :
    (rb : RingBuffer) (id j : ℕ)
    → (lookup j (unsubscribe rb id).0.subs ≡ (if id == j then none else lookup j rb.subs))
      × ((unsubscribe rb id).1
          ≡ Option.map (λ (ch : Channel). record ch { closed = true }) (lookup id rb.subs))
unfolding unsubscribe
lookup-unsubscribe rb id j = ground (arith, lookup-delete id j rb.subs, nat_beq_iff id j)

-- `Subscribe` hands out an open, empty channel under the id that it returns, and touches no other.
pub lookup-subscribe :
    (rb : RingBuffer) (j : ℕ)
    → lookup j (subscribe rb).0.subs ≡ (
        if (subscribe rb).1 == j
        then some (record { pending = []; closed = false })
        else lookup j rb.subs)
unfolding subscribe
lookup-subscribe rb j = lookup-insert ((rb.sub_id + 1) % 2 ^ 64) j _ rb.subs

-- ===== src/Terminal/RingBuffer/History.antt =====
-- What a buffer shows after any sequence of writes.
use mathlib.Core.List.{flatten}
use opendray_v2_lab.Common.{
  ℕ, ◌<◌, ◌≡◌, refl, ap, ◌∙◌, sym, List, [], ◌∷◌, ◌++◌, append_assoc, arith, Bytes,
  length-replicate, Option, none, some, append-nil,
}
use opendray_v2_lab.Terminal.RingBuffer.{RingBuffer, new_ring_buffer, write, snapshot}
use opendray_v2_lab.Terminal.RingBuffer.Fold.{IsValid}
use opendray_v2_lab.Terminal.RingBuffer.Window.{
  last, last-last, snapshot-write, length-snapshot, last_whole,
}

-- Writes in order, stopping at a panic.
unfoldable pub write_all : RingBuffer → List Bytes → Option RingBuffer
write_all rb [] = some rb
write_all rb (d ∷ ds) = elim (write rb d) [ none ↦ none | some rb' ↦ write_all rb' ds ]

pub new_ring_buffer-IsValid : (c : ℕ) → 0 < c → IsValid (new_ring_buffer c)
unfolding new_ring_buffer
new_ring_buffer-IsValid c h = record { storage = length-replicate c 0; head_in = h }

-- A run of writes does not panic, and leaves the last `cap` bytes of the former contents and the
-- data, in order.
snapshot-write_all :
    (ds : List Bytes) (rb : RingBuffer)
    → IsValid rb
    → (final : RingBuffer) × (write_all rb ds ≡ some final)
      × (snapshot final ≡ last rb.cap (snapshot rb ++ flatten ds))
unfolding write_all flatten
snapshot-write_all [] rb v = (
  rb,
  refl,
  sym (
      ap (last rb.cap) (append-nil (snapshot rb))
      ∙ last_whole rb.cap (snapshot rb) (length-snapshot rb v)),
)
snapshot-write_all (d ∷ ds) rb v =
    let (rb', e, shown, v', same) = snapshot-write rb d v in
    let (final, e', shown') = snapshot-write_all ds rb' v' in
    (
      final,
      ground (arith, e, e'),
      shown'
          ∙ ap (λ s. last rb'.cap (s ++ flatten ds)) shown
          ∙ ap (λ c. last c (last rb.cap (snapshot rb ++ d) ++ flatten ds)) same
          ∙ last-last rb.cap (snapshot rb ++ d) (flatten ds)
          ∙ ap (last rb.cap) (append_assoc (snapshot rb) d (flatten ds)),
    )

-- For every positive capacity and every sequence of writes to a new buffer, no write panics, and
-- `Snapshot` then returns the last `capacity` bytes of all the data, oldest first.
pub snapshot-history :
    (capacity : ℕ) (ds : List Bytes)
    → 0 < capacity
    → (final : RingBuffer) × (write_all (new_ring_buffer capacity) ds ≡ some final)
      × (snapshot final ≡ last capacity (flatten ds))
unfolding new_ring_buffer snapshot
snapshot-history capacity ds h =
    snapshot-write_all ds (new_ring_buffer capacity) (new_ring_buffer-IsValid capacity h)

-- ===== src/Terminal/RingBuffer/Tests.antt =====
-- Runs of the ring buffer, and its theorems at concrete buffers.
use mathlib.Core.Option
use mathlib.Core.List.{flatten}
use opendray_v2_lab.Common.{◌≡◌, refl, false, [], ◌∷◌, arith, codes, some, nat_eq, ◌++◌}
use opendray_v2_lab.Terminal.RingBuffer.{
  RingBuffer, new_ring_buffer, write, snapshot, store, copy_in, full_after, publish, offer,
}
use opendray_v2_lab.Terminal.RingBuffer.Fold.{IsValid}
use opendray_v2_lab.Terminal.RingBuffer.Window.{last, snapshot-write}
use opendray_v2_lab.Terminal.RingBuffer.History.{
  write_all, snapshot-history, new_ring_buffer-IsValid,
}

wrapped :
    Option.map snapshot (write_all (new_ring_buffer 4) (codes "abc" ∷ codes "de" ∷ []))
    ≡ some (codes "bcde")
unfolding snapshot write_all new_ring_buffer write store copy_in full_after publish
wrapped = refl

snapshot-history_example :
    (final : RingBuffer) × (write_all (new_ring_buffer 4) (codes "abc" ∷ codes "de" ∷ [])
      ≡ some final)
    × (snapshot final ≡ last 4 (flatten (codes "abc" ∷ codes "de" ∷ [])))
snapshot-history_example = snapshot-history 4 (codes "abc" ∷ codes "de" ∷ []) (omega arith)

snapshot-write_example :
    (rb' : RingBuffer) × (write (new_ring_buffer 4) (codes "abcdef") ≡ some rb')
    × (snapshot rb' ≡ last (new_ring_buffer 4).cap (snapshot (new_ring_buffer 4) ++ codes "abcdef"))
    × IsValid rb'
    × (rb'.cap ≡ (new_ring_buffer 4).cap)
snapshot-write_example =
    snapshot-write (new_ring_buffer 4) (codes "abcdef") (new_ring_buffer-IsValid 4 (omega arith))

abbrev watched : RingBuffer
watched = record {
  buf = 0 ∷ 0 ∷ [];
  cap = 2;
  head = 0;
  full = false;
  subs = (1, record { pending = []; closed = false }) ∷ [];
  sub_id = 1;
}

abbrev watched_after : RingBuffer
watched_after = record {
  buf = 7 ∷ 0 ∷ [];
  cap = 2;
  head = 1;
  full = false;
  subs = (1, record { pending = (7 ∷ []) ∷ []; closed = false }) ∷ [];
  sub_id = 1;
}

watched-write : write watched (7 ∷ []) ≡ some watched_after
unfolding write store copy_in full_after publish offer
watched-write = refl

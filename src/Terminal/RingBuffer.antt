-- ===== src/Terminal/RingBuffer.antt =====
-- kernel/terminal/buffer.go: the circular byte buffer behind a terminal, with its subscribers.
-- A method takes the buffer and returns it; a lock is held over each block that is one function
-- here. `none` is a Go panic (a remainder by a capacity of zero). A channel is the list of the
-- chunks that wait in it, oldest first. Indices are Go `int`s, and far below their bound.
pub mod Fold
pub mod Window
pub mod History
pub mod Subscribers
mod Tests
use opendray_v2_lab.Common.Dict.{insert, delete, lookup}
use opendray_v2_lab.Common.{
  ℕ, ◌+◌, ◌-◌, ◌%◌, ◌^◌, Bool, true, false, not, ◌&&◌, List, [], ◌∷◌, ◌++◌, map, Option, none, some,
  Bytes, ltb, leb, ◌==◌, nat_eq, if◌then◌else◌, length, set, take, drop, replicate,
}

-- What a `make(chan []byte, 256)` holds.
pub record Channel : Type 0 where
  pub pending : List Bytes
  pub closed : Bool

pub record RingBuffer : Type 0 where
  pub buf : Bytes
  pub cap : ℕ
  pub head : ℕ
  pub full : Bool
  pub subs : List (ℕ × Channel)
  pub sub_id : ℕ

abbrev pub channel_cap : ℕ
channel_cap = 256

pub new_ring_buffer : ℕ → RingBuffer
new_ring_buffer capacity = record {
  buf = replicate capacity 0;
  cap = capacity;
  head = 0;
  full = false;
  subs = [];
  sub_id = 0;
}

-- `for i, b := range data { rb.buf[(rb.head+i)%rb.cap] = b }`, from index `i` on.
pub copy_in : ℕ → ℕ → ℕ → Bytes → Bytes → Bytes
copy_in cap head i [] buf = buf
copy_in cap head i (b ∷ rest) buf = copy_in cap head (i + 1) rest (set buf ((head + i) % cap) b)

-- The two tests that set `full`, after `head` has moved by `len` bytes to `new_head`.
pub full_after : ℕ → ℕ → Bool → ℕ → Bool
full_after cap new_head full len =
    let old_head = (new_head + cap - len) % cap in
    if not full && leb cap len
    then true
    else if not full
    then (if leb new_head old_head && ltb 0 len then true else full)
    else full

-- The block of `Write` under `mu`.
pub store : RingBuffer → Bytes → RingBuffer
store rb data_in =
    let new_head = (rb.head + length data_in) % rb.cap in
    record rb {
      buf = copy_in rb.cap rb.head 0 data_in rb.buf;
      head = new_head;
      full = full_after rb.cap new_head rb.full (length data_in);
    }

-- `select { case ch <- chunk: default: }`: a full channel drops the chunk.
pub offer : Bytes → Channel → Channel
offer chunk ch =
    if ltb (length ch.pending) channel_cap
    then record ch { pending = ch.pending ++ chunk ∷ [] }
    else ch

-- The loop over the subscribers.
pub publish : Bytes → List (ℕ × Channel) → List (ℕ × Channel)
publish chunk [] = []
publish chunk ((id, ch) ∷ subs) = (id, offer chunk ch) ∷ publish chunk subs

pub write : RingBuffer → Bytes → Option RingBuffer
write rb [] = some rb
write rb (b ∷ rest) =
    let stored = store rb (b ∷ rest) in
    if rb.cap == 0 then none else some (record stored { subs = publish (b ∷ rest) stored.subs })

pub snapshot : RingBuffer → Bytes
snapshot rb =
    if not rb.full then take rb.head rb.buf else drop rb.head rb.buf ++ take rb.head rb.buf

-- The returned number is the id; the channel is the one that `subs` holds under it.
pub subscribe : RingBuffer → RingBuffer × ℕ
subscribe rb =
    let id = (rb.sub_id + 1) % 2 ^ 64 in
    (
      record rb { sub_id = id; subs = insert id (record { pending = []; closed = false }) rb.subs },
      id,
    )

-- The second part is the channel that was closed, as its subscriber sees it.
pub unsubscribe : RingBuffer → ℕ → RingBuffer × Option Channel
unsubscribe rb id = elim (lookup id rb.subs) [
  | none ↦ (rb, none)
  | some ch ↦ (record rb { subs = delete id rb.subs }, some (record ch { closed = true }))
]

-- The calls that change a buffer; `none` is a panic.
pub data Call : Type 0 where
  writes : Bytes → Call
  subscribes : Call
  unsubscribes : ℕ → Call

pub step : RingBuffer → Call → Option RingBuffer
step rb (writes bs) = write rb bs
step rb subscribes = some (subscribe rb).0
step rb (unsubscribes id) = some (unsubscribe rb id).0

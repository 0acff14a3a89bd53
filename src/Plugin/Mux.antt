-- ===== src/Plugin/Mux.antt =====
-- plugin/host/mux.go: JSON-RPC calls and notifications over one stream. A call stands under the number
-- that nextID gives it: its channel, of capacity one, is the list of what waits in it. Every function here
-- is one stretch of a goroutine; dispatch and closeAll run on the reader's alone, so the send that follows a
-- lookup meets at most the end of the call. Parameters are json.Unmarshal of a
-- number, strconv.Unquote and the writer's answer; the handler of requests is an input and output of its
-- goroutine.
mod Loop
pub mod Window
pub mod Own
mod Tests
use opendray_v2_lab.Common.Dict.{lookup, insert, delete}
use opendray_v2_lab.Common.Order.{ℤ, negsuc}
use opendray_v2_lab.Common.{
  ℕ, ◌+◌, Bool, true, false, List, [], ◌∷◌, ◌++◌, Option, none, some, Bytes, bytes_eq, nat_eq,
  nat_beq, ltb, length, drop, map, if◌then◌else◌,
}
use opendray_v2_lab.Go.Decimal.{format_nat}

pub record RpcError : Type 0 where
  pub code : ℤ
  pub message : Bytes

-- RPC, with an absent field as an empty one.
pub record Rpc : Type 0 where
  pub id : Bytes
  pub method : Bytes
  pub params : Bytes
  pub result : Bytes
  pub error : Option RpcError

pub record Notification : Type 0 where
  pub method : Bytes
  pub params : Bytes

-- `requests` are the inbound requests that goroutines handle.
pub record Mux : Type 0 where
  pub next_id : ℕ
  pub pending : List (Bytes × ℕ)
  pub chans : List (ℕ × List Rpc)
  pub notif_ch : List Notification
  pub done : Bool
  pub requests : List Rpc

abbrev pub new_mux : Mux
new_mux = record {
  next_id = 0;
  pending = [];
  chans = [];
  notif_ch = [];
  done = false;
  requests = [];
}

-- Call, up to its request: the number of the call, and the id it goes by.
unfoldable pub register : Mux → Mux × ℕ
register m =
    let n = m.next_id + 1 in
    (
      record m {
        next_id = n;
        pending = insert (format_nat n) n m.pending;
        chans = insert n [] m.chans;
      },
      n,
    )

-- The deferred end of Call; its channel is garbage then.
unfoldable pub forget : ℕ → Mux → Mux
forget n m = record m { pending = delete (format_nat n) m.pending; chans = delete n m.chans }

abbrev pub capacity : ℕ
capacity = 32

unfoldable pub push_notification : Notification → List Notification → List Notification
push_notification n waiting =
    if ltb (length waiting) capacity then waiting ++ n ∷ [] else drop 1 waiting ++ n ∷ []

-- A send that does not block, to a channel of capacity one.
abbrev pub offered : Rpc → List Rpc → List Rpc
offered msg [] = msg ∷ []
offered msg (r ∷ rs) = r ∷ rs

abbrev pub offer_to : Rpc → ℕ → List (ℕ × List Rpc) → Option (List Rpc) → List (ℕ × List Rpc)
offer_to msg n chans none = chans
offer_to msg n chans (some waiting) = insert n (offered msg waiting) chans

unfoldable pub offer : Rpc → ℕ → List (ℕ × List Rpc) → List (ℕ × List Rpc)
offer msg n chans = offer_to msg n chans (lookup n chans)

unfoldable pub parse_id : (Bytes → Option Bytes) → (Bytes → Option Bytes) → Bytes → Option Bytes
parse_id unquote number [] = none
parse_id unquote number (c ∷ raw) = if nat_beq c b'"' then unquote (c ∷ raw) else number (c ∷ raw)

abbrev pub deliver : Rpc → Option ℕ → Mux → Mux
deliver msg none m = m
deliver msg (some n) m = record m { chans = offer msg n m.chans }

abbrev pub respond : Rpc → Option Bytes → Mux → Mux
respond msg none m = m
respond msg (some id) m = deliver msg (lookup id m.pending) m

abbrev pub nonempty : Bytes → Bool
nonempty [] = false
nonempty (c ∷ s) = true

unfoldable pub dispatch : (Bytes → Option Bytes) → (Bytes → Option Bytes) → Rpc → Mux → Mux
unfolding push_notification offer parse_id
dispatch unquote number msg m =
    if nonempty msg.method
    then (if nonempty msg.id then record m { requests = m.requests ++ msg ∷ [] } else record m {
      notif_ch = push_notification (record { method = msg.method; params = msg.params }) m.notif_ch;
    })
    else if nonempty msg.id
    then respond msg (parse_id unquote number msg.id) m
    else m

-- RPCErrInternal, -32603
abbrev pub internal : ℤ
internal = negsuc 32602

abbrev pub closing : Bytes → Rpc
closing message = record {
  id = [];
  method = [];
  params = [];
  result = [];
  error = some (record { code = internal; message = message });
}

unfoldable pub offer_each : Rpc → List (Bytes × ℕ) → List (ℕ × List Rpc) → List (ℕ × List Rpc)
unfolding offer
offer_each msg [] chans = chans
offer_each msg ((id, n) ∷ rest) chans = offer_each msg rest (offer msg n chans)

-- closeAll, for the error's text.
unfoldable pub close_all : Bytes → Mux → Mux
unfolding offer_each
close_all message m = if m.done then m else record m {
  done = true;
  pending = [];
  chans = offer_each (closing message) m.pending m.chans;
}

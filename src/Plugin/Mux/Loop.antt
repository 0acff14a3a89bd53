-- ===== src/Plugin/Mux/Loop.antt =====
-- plugin/host/mux.go: the read loop, the answer to a request of the sidecar, and what a call returns.
-- Parameters are the handler's outcome, json.Unmarshal of a frame, and the texts of errors.
use opendray_v2_lab.Common.{
  Bool, true, false, List, [], ◌∷◌, ◌++◌, Option, none, some, Bytes, codes,
}
use opendray_v2_lab.Plugin.Frame.{ReadResult, ReadError, body, failed}
use opendray_v2_lab.Plugin.Mux.{Mux, Rpc, RpcError, internal, dispatch, close_all}

-- What Handle gives: a result, in its JSON or with the error of its encoding, an RPCError, or another error.
pub data Handled : Type 0 where
  result_json : Bytes → Handled
  result_unmarshalable : Bytes → Handled
  rpc_error : RpcError → Handled
  other_error : Bytes → Handled

abbrev pub internal_error : Bytes → Option RpcError
internal_error message = some (record { code = internal; message = message })

abbrev pub response : Bytes → Bytes → Option RpcError → Rpc
response id result error = record {
  id = id;
  method = [];
  params = [];
  result = result;
  error = error;
}

-- handleInbound: the message that goes back.
unfoldable pub handle_inbound : Rpc → Handled → Rpc
handle_inbound msg (result_json raw) = response msg.id raw none
handle_inbound msg (result_unmarshalable why) =
    response msg.id [] (internal_error (codes "marshal: " ++ why))
handle_inbound msg (rpc_error e) = response msg.id [] (some e)
handle_inbound msg (other_error why) = response msg.id [] (internal_error why)

-- The end of Call, on a response.
pub data Returned : Type 0 where
  returned : Bytes → Returned
  raised : RpcError → Returned

unfoldable pub returns : Rpc → Returned
returns msg = elim msg.error [ none ↦ returned msg.result | some e ↦ raised e ]

abbrev pub dispatch_parsed :
    (Bytes → Option Bytes) → (Bytes → Option Bytes) → Option Rpc → Mux → Mux
dispatch_parsed unquote number none m = m
dispatch_parsed unquote number (some msg) m = dispatch unquote number msg m

-- readLoop over its rounds: whether the context is done, and what Read gives. The loop ends at the first
-- of either, and closes the multiplexer; the closing at its return changes nothing then.
module _ (unquote number : Bytes → Option Bytes) (unmarshal : Bytes → Option Rpc)
    (text : ReadError → Bytes) (cancelled : Bytes) where
  unfoldable pub read_loop : List (Bool × ReadResult) → Mux → Mux
  unfolding close_all dispatch
  read_loop [] m = m
  read_loop ((true, r) ∷ rounds) m = close_all cancelled m
  read_loop ((false, failed why) ∷ rounds) m = close_all (text why) m
  read_loop ((false, body raw) ∷ rounds) m =
      read_loop rounds (dispatch_parsed unquote number (unmarshal raw) m)

-- ===== src/Plugin/Mux/Tests.antt =====
-- Runs of the multiplexer of plugin/host/mux.go, and instances of what is proved about it.
use opendray_v2_lab.Plugin.Frame.{body, failed, eof}
use opendray_v2_lab.Plugin.Mux.{internal}
use opendray_v2_lab.Plugin.Mux.Loop.{
  read_loop, handle_inbound, other_error, internal_error, returns, raised,
}
use opendray_v2_lab.Common.{true, false, ◌==◌, if◌then◌else◌}
use opendray_v2_lab.Common.Dict.{lookup, insert, delete}
use opendray_v2_lab.Common.{
  ◌≡◌, ◌⊎◌, refl, List, [], ◌∷◌, ◌++◌, Option, none, some, Bytes, bytes_eq, nat_eq, codes, arith,
}
use opendray_v2_lab.Go.Decimal.{format_nat, digits}
use opendray_v2_lab.Plugin.Mux.{
  Mux, Rpc, new_mux, register, forget, dispatch, offer, parse_id, closing, close_all, offer_each,
}
use opendray_v2_lab.Plugin.Mux.Window.{newest, notifications, dispatch_all, dispatch_all-newest}
use opendray_v2_lab.Plugin.Mux.Own.{
  Reachable, started, then_step, registers, dispatches, closes, Reachable-own,
}

-- Without escapes: the closing quote goes.
abbrev unquote : Bytes → Option Bytes
unquote [] = none
unquote (c ∷ []) = none
unquote (c ∷ d ∷ s) = some (d ∷ [])

abbrev number : Bytes → Option Bytes
number s = some s

abbrev answer : Rpc
answer = record { id = codes "\"1\""; method = []; params = []; result = codes "{}"; error = none }

abbrev notice : Rpc
notice = record { id = []; method = codes "log"; params = codes "{}"; result = []; error = none }

unfoldable called : Mux
unfolding register
called = (register (register new_mux).0).0

unfoldable answered : Mux
unfolding called dispatch
answered = dispatch unquote number answer called

unfoldable closed : Mux
unfolding answered close_all
closed = close_all (codes "EOF") answered

answered_test : lookup 1 answered.chans ≡ some (answer ∷ [])
unfolding answered called register dispatch parse_id offer lookup insert format_nat digits
answered_test = refl

-- The first call keeps its answer, the second gets the notice.
closed_test : lookup 2 closed.chans ≡ some (closing (codes "EOF") ∷ [])
unfolding closed close_all offer_each answered called register dispatch parse_id offer lookup insert
    format_nat digits
closed_test = refl

forgotten_test : (forget 1 answered).chans ≡ (2, []) ∷ []
unfolding forget answered called register dispatch parse_id offer lookup insert delete format_nat
    digits
forgotten_test = refl

-- A late answer finds no call.
late_test : (dispatch unquote number answer (forget 1 called)).chans ≡ (2, []) ∷ []
unfolding forget called register dispatch parse_id offer lookup insert delete format_nat digits
late_test = refl

closed-Reachable : Reachable unquote number closed
unfolding closed answered called
closed-Reachable =
    then_step (then_step (then_step (then_step started registers) registers) (dispatches answer))
      (closes (codes "EOF"))

Reachable-own_example :
    (◌≡◌ {A = List Rpc} [] [])
    × ((parse_id unquote number answer.id ≡ some (format_nat 1))
        ⊎ ((message : Bytes) × (answer ≡ closing message)))
Reachable-own_example = Reachable-own unquote number closed 1 answer [] closed-Reachable first_kept
  where
    first_kept : lookup 1 closed.chans ≡ some (answer ∷ [])
    first_kept =
        unfold closed close_all offer_each answered called register dispatch parse_id offer lookup
          insert format_nat digits in
        refl

dispatch_all-newest_example :
    (dispatch_all unquote number (notice ∷ answer ∷ notice ∷ []) called).notif_ch
    ≡ newest (called.notif_ch ++ notifications (notice ∷ answer ∷ notice ∷ []))
dispatch_all-newest_example =
    dispatch_all-newest unquote number (notice ∷ answer ∷ notice ∷ []) called
      (unfold called register in (omega arith))

-- A frame that does not parse is passed over; the end of the stream closes the multiplexer.
loop_test :
    (read_loop unquote number
      (λ raw. if raw == codes "{}" then some answer else none)
      (λ why. codes "EOF")
      []
      ((false, body (codes "?")) ∷ (false, body (codes "{}")) ∷ (false, failed eof) ∷ [])
      called).chans
    ≡ closed.chans
unfolding read_loop closed close_all offer_each answered called register dispatch parse_id offer
    lookup insert format_nat digits
loop_test = refl

cancelled_test :
    (read_loop unquote number
      (λ raw. some answer)
      (λ why. [])
      (codes "canceled")
      ((true, failed eof) ∷ [])
      called).done
    ≡ true
unfolding read_loop close_all called register
cancelled_test = refl

inbound_test :
    (handle_inbound notice (other_error (codes "no"))).error ≡ internal_error (codes "no")
unfolding handle_inbound
inbound_test = refl

returns_test :
    returns (closing (codes "EOF")) ≡ raised (record { code = internal; message = codes "EOF" })
unfolding returns
returns_test = refl

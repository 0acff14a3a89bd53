-- ===== src/Bridge/Storage/Tests.antt =====
-- Calls of opendray.storage, and instances of what is proved of them.
use opendray_v2_lab.Common.Dict.{lookup, insert}
use opendray_v2_lab.Common.{
  ◌≡◌, ◌≢◌, ◌⊎◌, refl, true, List, [], ◌∷◌, none, some, Bytes, bytes_eq, bytes_beq, codes, arith,
}
use opendray_v2_lab.Bridge.Gate.{
  Gate, Verdict, no_permissions, with_permissions, allow, found, parsed, check, parse_permissions,
  evaluate, conclude,
}
use opendray_v2_lab.Bridge.Gate.Decide.{Consented}
use opendray_v2_lab.Bridge.Storage.{
  value, null, einval, wire, etimeout, refused, Args, map_set_error, storage_need, dispatch,
}
use opendray_v2_lab.Bridge.Storage.Gated.{dispatch-Consented, dispatch-RowOf, dispatch-IsStored}
use opendray_v2_lab.Bridge.Storage.RoundTrip.{dispatch-set_get}
use opendray_v2_lab.Store.Kv.{
  Row, Database, RowKey, row_key_eq, value_too_large, plugin_quota_exceeded, kv_set,
}
use opendray_v2_lab.Store.Kv.Table.{IsStored, total}

abbrev gate : Gate
gate = record {
  load = λ plugin. found (codes "{}");
  audit = none;
  json = record {
    to_permissions = λ raw. parsed record no_permissions { storage = true };
    to_bool = λ raw. none;
    to_strings = λ raw. none;
    to_fs = λ raw. none;
  };
  parse_url = λ s. none;
  parse_ip = λ s. none;
}

-- The arguments of the two calls below.
abbrev args : Args
args = record { to_list = λ raw. some (codes "k" ∷ codes "v" ∷ []); to_text = λ raw. some raw }

abbrev healthy : Database
healthy = record {
  query = none;
  exec = none;
  seen = [];
  jsonb = λ val. val;
  like = λ s pattern. bytes_beq s pattern;
}

abbrev in_order : List Bytes → List Bytes
in_order keys = keys

too_large : map_set_error value_too_large ≡ wire einval
unfolding map_set_error
too_large = refl

over_quota : map_set_error plugin_quota_exceeded ≡ wire etimeout
unfolding map_set_error
over_quota = refl

IsStored-empty : IsStored []
IsStored-empty = record { distinct = tt; small = tt; within = λ p. unfold total in omega arith }

consented : Consented gate (codes "clock") storage_need
consented = record {
  raw = codes "{}";
  perms = record no_permissions { storage = true };
  stored = refl;
  decoded = unfold parse_permissions in refl;
  covers = unfold evaluate in refl;
}

dispatch-Consented_example :
    Consented gate (codes "clock") storage_need
    ⊎ ((v : Verdict) × (v ≢ allow)
        × ((dispatch gate 1 args in_order healthy (codes "clock") (codes "set") [] [] []).0
            ≡ (refused v, [])))
dispatch-Consented_example =
    dispatch-Consented gate 1 args in_order healthy (codes "clock") (codes "set") [] [] []

dispatch-RowOf_example :
    lookup
      (codes "kanban", codes "k")
      (dispatch gate 1 args in_order healthy (codes "clock") (codes "set") [] [] []).0.1
    ≡ lookup {K = RowKey} {V = Row} (codes "kanban", codes "k") []
dispatch-RowOf_example =
    dispatch-RowOf gate 1 args in_order healthy (codes "clock") (codes "set") [] [] []
      (codes "kanban") (codes "k") (λ e. cc e)

dispatch-IsStored_example :
    IsStored (dispatch gate 1 args in_order healthy (codes "clock") (codes "set") [] [] []).0.1
dispatch-IsStored_example =
    dispatch-IsStored gate 1 args in_order healthy (codes "clock") (codes "set") [] [] []
      IsStored-empty refl

told : (dispatch gate 1 args in_order healthy (codes "clock") (codes "set") [] [] []).0.0 ≡ null
unfolding dispatch check evaluate kv_set insert with_permissions parse_permissions conclude
told = refl

dispatch-set_get_example :
    (dispatch gate 2 args in_order healthy
      (codes "clock")
      (codes "get")
      []
      []
      (dispatch gate 1 args in_order healthy (codes "clock") (codes "set") [] [] []).0.1).0.0
    ≡ value (codes "v")
dispatch-set_get_example =
    dispatch-set_get gate 1 2 args in_order healthy healthy (codes "clock") [] [] (codes "k")
      (codes "k") (codes "v") (codes "k") [] (codes "v" ∷ []) [] [] [] consented refl refl refl refl
      refl told

-- ===== src/Bridge/Storage.antt =====
-- plugin/bridge/api_storage.go: opendray.storage over the table of kernel/store/plugin_kv.go. Of a fixed message
-- the code is kept, and of a database error its text too. json.Unmarshal into a list and into a string,
-- the order of the database and what it does are arguments.
pub mod Gated
pub mod Substring
mod RoundTrip
mod Tests
use opendray_v2_lab.Common.{
  ℕ, zero, suc, ◌+◌, ◌-◌, Bool, true, false, List, [], ◌∷◌, Option, none, some, Bytes, bytes_eq,
  codes, ◌==◌, ltb, length, take, drop, if◌then◌else◌,
}
use opendray_v2_lab.Bridge.Gate.{Gate, AuditEvent, Verdict, allow, deny, fail, Need, check}
use opendray_v2_lab.Plugin.Contributions.{is_empty}
use opendray_v2_lab.Store.Kv.{
  Table, Database, KvError, value_too_large, plugin_quota_exceeded, db_error, KvResult, done,
  failed, kv_get, kv_set, kv_delete, kv_list,
}

pub data Code : Type 0 where
  einval einternal eunavail etimeout : Code

pub data Reply : Type 0 where
  value : Bytes → Reply
  null : Reply
  keys : List Bytes → Reply
  wire : Code → Reply
  internal : Bytes → Reply
  refused : Verdict → Reply

pub record Args : Type 0 where
  pub to_list : Bytes → Option (List Bytes)
  pub to_text : Bytes → Option Bytes

-- err.Error()
abbrev pub text_of : KvError → Bytes
text_of value_too_large = codes "store: plugin_kv value exceeds 1 MiB per key"
text_of plugin_quota_exceeded = codes "store: plugin_kv quota exceeded (100 MiB per plugin)"
text_of (db_error text) = text

-- The rounds of the loop from `i` on.
unfoldable pub found_from : ℕ → ℕ → Bytes → Bytes → Bool
found_from zero i s sub = false
found_from (suc n) i s sub =
    let rest = found_from n (i + 1) s sub in
    if take (length sub) (drop i s) == sub then true else rest

unfoldable pub contains_substr : Bytes → Bytes → Bool
unfolding found_from
contains_substr s sub =
    if is_empty sub
    then true
    else if ltb (length s) (length sub)
    then false
    else found_from (length s - length sub + 1) 0 s sub

unfoldable pub map_set_error : KvError → Reply
unfolding contains_substr
map_set_error err =
    if contains_substr (text_of err) (codes "value exceeds 1 MiB")
    then wire einval
    else if contains_substr (text_of err) (codes "quota exceeded")
    then wire etimeout
    else internal (text_of err)

abbrev pub fallback_of : List Bytes → Reply
fallback_of [] = null
fallback_of (raw ∷ rest) = value raw

abbrev pub got : List Bytes → KvResult (Option Bytes) → Reply
got rest (failed err) = internal (text_of err)
got rest (done none) = fallback_of rest
got rest (done (some val)) = value val

-- The key, where the first argument is a string, and what is done with it.
abbrev pub with_key {ℓ} : {A : Type ℓ} → Option Bytes → A → (Bytes → A) → A
with_key none bad go = bad
with_key (some key) bad go = go key

abbrev pub get_args : Args → Database → Bytes → Option (List Bytes) → Table → Reply
get_args a f plugin_name none t = wire einval
get_args a f plugin_name (some []) t = wire einval
get_args a f plugin_name (some (raw ∷ rest)) t =
    with_key (a.to_text raw) (wire einval) λ key. got rest (kv_get f plugin_name key t)

abbrev pub set_reply : Option KvError → Reply
set_reply none = null
set_reply (some err) = map_set_error err

abbrev pub set_key : Database → Bytes → Bytes → Table → Bytes → Reply × Table
set_key f plugin_name val t key =
    let (err, t') = kv_set f plugin_name key val t in (set_reply err, t')

abbrev pub set_args : Args → Database → Bytes → Option (List Bytes) → Table → Reply × Table
set_args a f plugin_name none t = (wire einval, t)
set_args a f plugin_name (some []) t = (wire einval, t)
set_args a f plugin_name (some (raw ∷ [])) t = (wire einval, t)
set_args a f plugin_name (some (raw ∷ val ∷ rest)) t =
    with_key (a.to_text raw) (wire einval, t) (set_key f plugin_name val t)

abbrev pub delete_reply : Option KvError → Reply
delete_reply none = null
delete_reply (some err) = internal (text_of err)

abbrev pub delete_key : Database → Bytes → Table → Bytes → Reply × Table
delete_key f plugin_name t key =
    let (err, t') = kv_delete f plugin_name key t in (delete_reply err, t')

abbrev pub delete_args : Args → Database → Bytes → Option (List Bytes) → Table → Reply × Table
delete_args a f plugin_name none t = (wire einval, t)
delete_args a f plugin_name (some []) t = (wire einval, t)
delete_args a f plugin_name (some (raw ∷ rest)) t =
    with_key (a.to_text raw) (wire einval, t) (delete_key f plugin_name t)

abbrev pub listed : KvResult (List Bytes) → Reply
listed (failed err) = internal (text_of err)
listed (done found) = keys found

abbrev pub list_args :
    Args → (List Bytes → List Bytes) → Database → Bytes → Option (List Bytes) → Table → Reply
list_args a sort f plugin_name none t = wire einval
list_args a sort f plugin_name (some []) t = listed (kv_list sort f plugin_name [] t)
list_args a sort f plugin_name (some (raw ∷ rest)) t =
    with_key (a.to_text raw) (wire einval) λ prefix. listed (kv_list sort f plugin_name prefix t)

-- The method of an allowed call.
unfoldable pub run_method :
    Args → (List Bytes → List Bytes) → Database → Bytes → Bytes → Bytes → Table → Reply × Table
unfolding kv_get kv_set kv_delete kv_list map_set_error
run_method a sort f plugin_name method args t =
    if method == codes "get"
    then (get_args a f plugin_name (a.to_list args) t, t)
    else if method == codes "set"
    then set_args a f plugin_name (a.to_list args) t
    else if method == codes "delete"
    then delete_args a f plugin_name (a.to_list args) t
    else if method == codes "list"
    then (list_args a sort f plugin_name (a.to_list args) t, t)
    else (wire eunavail, t)

abbrev pub storage_need : Need
storage_need = record { cap = codes "storage"; target = [] }

abbrev pub after_gate : Verdict → Reply × Table → Table → Reply × Table
after_gate allow ran t = ran
after_gate (deny msg) ran t = (refused (deny msg), t)
after_gate (fail msg) ran t = (refused (fail msg), t)

unfoldable pub dispatch :
    Gate
    → ℕ
    → Args
    → (List Bytes → List Bytes)
    → Database
    → (plugin_name method args : Bytes) → List AuditEvent
    → Table
    → (Reply × Table) × List AuditEvent
unfolding run_method
dispatch g elapsed a sort f plugin_name method args rows t =
    let (verdict, rows') = check g elapsed plugin_name storage_need rows in
    (after_gate verdict (run_method a sort f plugin_name method args t) t, rows')

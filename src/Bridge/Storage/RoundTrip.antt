-- ===== src/Bridge/Storage/RoundTrip.antt =====
-- plugin/bridge/api_storage.go and kernel/store/plugin_kv.go: what is set is what is got.
use opendray_v2_lab.Store.Kv.Table.{written_row}
use opendray_v2_lab.Common.Dict.{lookup, lookup-insert}
use opendray_v2_lab.Common.{
  ℕ, ◌+◌, ◌≡◌, refl, sym, ap, ◌∙◌, List, ◌∷◌, Option, none, some, Bytes, bytes_eq, codes, pick,
  length, ltb, leb,
}
use opendray_v2_lab.Bridge.Gate.{Gate, AuditEvent}
use opendray_v2_lab.Bridge.Gate.Decide.{Consented, check-allow_iff}
use opendray_v2_lab.Bridge.Storage.{
  Reply, value, null, wire, einval, Args, with_key, get_args, got, set_args, set_key, set_reply,
  map_set_error, contains_substr, text_of, run_method, storage_need, after_gate, dispatch,
}
use opendray_v2_lab.Store.Kv.{
  Database, key_beq_iff, row_key_eq, Table, KvError, upsert, set_within, kv_get, kv_set,
  total_except, max_per_plugin_bytes, max_value_bytes,
}

-- A write that reports no error has put the value under the key.
pub kv_set_done :
    (f : Database) (p k val : Bytes) (t : Table)
    → (kv_set f p k val t).0 ≡ none
    → lookup (p, k) (kv_set f p k val t).1 ≡ some (written_row f val)
unfolding kv_set
kv_set_done f p k val t =
    pick Stored (ltb max_value_bytes (length val)) _ _ (λ _ e. absurd (cc e)) (λ _. within f.query)
  where
    Stored : Option KvError × Table → Type 0
    Stored r = r.0 ≡ none → lookup (p, k) r.1 ≡ some (written_row f val)

    written : (o : Option Bytes) → Stored (upsert o (p, k) (written_row f val) t)
    written (some text) = λ e. absurd (cc e)
    written none = λ e.
        lookup-insert (p, k) (p, k) (written_row f val) t
        ∙ rw ((key_beq_iff (p, k) (p, k)).1 refl) refl

    within : (o : Option Bytes) → Stored (set_within o f p k val t)
    within (some text) = λ e. absurd (cc e)
    within none =
        pick Stored (leb max_per_plugin_bytes (total_except p k f.seen + length val)) _ _
          (λ _ e. absurd (cc e)) (λ _. written f.exec)

not_null : (err : KvError) → map_set_error err ≡ null → ⊥
unfolding map_set_error
not_null err =
    pick (λ r. r ≡ null → ⊥) (contains_substr (text_of err) (codes "value exceeds 1 MiB")) _ _
      (λ _ e. cc e)
      (λ _.
        pick (λ r. r ≡ null → ⊥) (contains_substr (text_of err) (codes "quota exceeded")) _ _
          (λ _ e. cc e) (λ _ e. cc e))

reply_null : (o : Option KvError) → set_reply o ≡ null → o ≡ none
reply_null none e = refl
reply_null (some err) e = absurd (not_null err e)

-- An allowed call runs its method.
dispatch_allowed :
    (g : Gate) (elapsed : ℕ) (a : Args) (sort : List Bytes → List Bytes) (f : Database)
    (plugin_name method args : Bytes) (rows : List AuditEvent) (t : Table)
    → Consented g plugin_name storage_need
    → (dispatch g elapsed a sort f plugin_name method args rows t).0
      ≡ run_method a sort f plugin_name method args t
unfolding dispatch
dispatch_allowed g elapsed a sort f plugin_name method args rows t c =
    ap (λ v. after_gate v (run_method a sort f plugin_name method args t) t)
      ((check-allow_iff g elapsed plugin_name storage_need rows).1 c)

module _ (a : Args) (sort : List Bytes → List Bytes) (f : Database) (plugin_name : Bytes) where
  run_set :
      (args raw val key : Bytes) (rest : List Bytes) (t : Table)
      → a.to_list args ≡ some (raw ∷ val ∷ rest)
      → a.to_text raw ≡ some key
      → run_method a sort f plugin_name (codes "set") args t ≡ set_key f plugin_name val t key
  unfolding run_method
  run_set args raw val key rest t e k =
      ap (λ o. set_args a f plugin_name o t) e
      ∙ ap (λ o. with_key o (wire einval, t) (set_key f plugin_name val t)) k

  run_get :
      (args raw key : Bytes) (rest : List Bytes) (t : Table)
      → a.to_list args ≡ some (raw ∷ rest)
      → a.to_text raw ≡ some key
      → run_method a sort f plugin_name (codes "get") args t
        ≡ (got rest (kv_get f plugin_name key t), t)
  unfolding run_method
  run_get args raw key rest t e k =
      ap (λ o. (get_args a f plugin_name o t, t)) e
      ∙ ap (λ o. (with_key o (wire einval) (λ key. got rest (kv_get f plugin_name key t)), t)) k

-- Once a plugin with consent is told that its value is set, a call that gets the key, with none in between, is
-- answered by that value in the form in which the JSONB column gave it back, unless the database reports an error
-- then.
pub dispatch-set_get :
    (g : Gate) (now then_at : ℕ) (a : Args) (sort : List Bytes → List Bytes) (f f' : Database)
    (plugin_name args args' raw raw' val key : Bytes) (rest rest' : List Bytes)
    (rows rows' : List AuditEvent) (t : Table)
    → Consented g plugin_name storage_need
    → a.to_list args ≡ some (raw ∷ val ∷ rest)
    → a.to_text raw ≡ some key
    → a.to_list args' ≡ some (raw' ∷ rest')
    → a.to_text raw' ≡ some key
    → f'.query ≡ none
    → (dispatch g now a sort f plugin_name (codes "set") args rows t).0.0 ≡ null
    → (dispatch g then_at a sort f' plugin_name
        (codes "get")
        args'
        rows'
        (dispatch g now a sort f plugin_name (codes "set") args rows t).0.1).0.0
      ≡ value (f.jsonb val)
dispatch-set_get g now then_at a sort f f' plugin_name args args' raw raw' val key rest rest' rows
      rows' t c e k e' k' works told =
    let ran : (dispatch g now a sort f plugin_name (codes "set") args rows t).0
        ≡ set_key f plugin_name val t key =
      dispatch_allowed g now a sort f plugin_name (codes "set") args rows t c
      ∙ run_set a sort f plugin_name args raw val key rest t e k in
    let t' = (dispatch g now a sort f plugin_name (codes "set") args rows t).0.1 in
    let no_error : (kv_set f plugin_name key val t).0 ≡ none =
      reply_null (kv_set f plugin_name key val t).0 (sym (ap (λ r. r.0) ran) ∙ told) in
    let held : lookup (plugin_name, key) t' ≡ some (written_row f val) =
      ap (λ (r : Reply × Table). lookup (plugin_name, key) r.1) ran
      ∙ kv_set_done f plugin_name key val t no_error in
    ap (λ r. r.0)
      (dispatch_allowed g then_at a sort f' plugin_name (codes "get") args' rows' t' c
        ∙ run_get a sort f' plugin_name args' raw' key rest' t' e' k')
    ∙ unfold kv_get in rw (works, held) refl

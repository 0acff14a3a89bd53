-- ===== src/Bridge/Storage/Gated.antt =====
-- plugin/bridge/api_storage.go: what a call of a plugin can reach.
use opendray_v2_lab.Common.Dict.{lookup, lookup-insert, lookup-delete}
use opendray_v2_lab.Common.{
  ℕ, ◌+◌, ◌≡◌, ◌≢◌, ◌⊎◌, inl, inr, refl, sym, ap, ◌∙◌, false, List, [], ◌∷◌, Option, none, some,
  Bytes, bytes_eq, bytes_beq_iff, codes, ◌==◌, Bool-cases, pick, length, ltb, leb,
}
use opendray_v2_lab.Bridge.Gate.{Gate, AuditEvent, Verdict, allow, deny, fail, check}
use opendray_v2_lab.Bridge.Gate.Decide.{Consented, check-allow_iff}
use opendray_v2_lab.Bridge.Storage.{
  Reply, wire, einval, refused, Args, with_key, set_args, set_key, delete_args, delete_key,
  run_method, storage_need, after_gate, dispatch,
}
use opendray_v2_lab.Store.Kv.{
  Database, Row, key_beq, row_key_eq, Table, KvError, upsert, set_within, remove_row, kv_set,
  kv_delete, total_except, max_per_plugin_bytes, max_value_bytes,
}
use opendray_v2_lab.Store.Kv.Table.{IsStored, written_row, kv_set-IsStored, kv_delete-IsStored}

-- A property that the table has, and that `set` and `delete` of the plugin leave it with.
module _ (P : Table → Type 0) (f : Database) (plugin_name : Bytes) (t : Table) (h : P t)
    (sets : (key val : Bytes) → P (kv_set f plugin_name key val t).1)
    (deletes : (key : Bytes) → P (kv_delete f plugin_name key t).1) where
  set_args-keeps : (a : Args) (o : Option (List Bytes)) → P (set_args a f plugin_name o t).1
  set_args-keeps a none = h
  set_args-keeps a (some []) = h
  set_args-keeps a (some (raw ∷ [])) = h
  set_args-keeps a (some (raw ∷ val ∷ rest)) = keyed (a.to_text raw)
    where
      keyed : (o : Option Bytes) → P (with_key o (wire einval, t) (set_key f plugin_name val t)).1
      keyed none = h
      keyed (some key) = sets key val

  delete_args-keeps : (a : Args) (o : Option (List Bytes)) → P (delete_args a f plugin_name o t).1
  delete_args-keeps a none = h
  delete_args-keeps a (some []) = h
  delete_args-keeps a (some (raw ∷ rest)) = keyed (a.to_text raw)
    where
      keyed : (o : Option Bytes) → P (with_key o (wire einval, t) (delete_key f plugin_name t)).1
      keyed none = h
      keyed (some key) = deletes key

  run_method-keeps :
      (a : Args) (sort : List Bytes → List Bytes) (method args : Bytes)
      → P (run_method a sort f plugin_name method args t).1
  unfolding run_method
  run_method-keeps a sort method args =
      let to = λ (r : Reply × Table). P r.1 in
      pick to (method == codes "get") _ _ (λ _. h)
        (λ _.
          pick to (method == codes "set") _ _ (λ _. set_args-keeps a (a.to_list args))
            (λ _.
              pick to (method == codes "delete") _ _ (λ _. delete_args-keeps a (a.to_list args))
                (λ _. pick to (method == codes "list") _ _ (λ _. h) (λ _. h))))

  dispatch-keeps :
      (g : Gate) (elapsed : ℕ) (a : Args) (sort : List Bytes → List Bytes) (method args : Bytes)
      (rows : List AuditEvent)
      → P (dispatch g elapsed a sort f plugin_name method args rows t).0.1
  unfolding dispatch
  dispatch-keeps g elapsed a sort method args rows =
      decided (check g elapsed plugin_name storage_need rows).0
    where
      decided : (v : Verdict) → P (after_gate v (run_method a sort f plugin_name method args t) t).1
      decided allow = run_method-keeps a sort method args
      decided (deny msg) = h
      decided (fail msg) = h

-- Without a consent to storage a call is answered by the gate's refusal, and the table stays as it is.
pub dispatch-Consented :
    (g : Gate) (elapsed : ℕ) (a : Args) (sort : List Bytes → List Bytes) (f : Database)
    (plugin_name method args : Bytes) (rows : List AuditEvent) (t : Table)
    → Consented g plugin_name storage_need
      ⊎ ((v : Verdict) × (v ≢ allow)
          × ((dispatch g elapsed a sort f plugin_name method args rows t).0 ≡ (refused v, t)))
unfolding dispatch
dispatch-Consented g elapsed a sort f plugin_name method args rows t =
    decided (check g elapsed plugin_name storage_need rows).0 refl
  where
    decided :
        (v : Verdict)
        → (check g elapsed plugin_name storage_need rows).0 ≡ v
        → Consented g plugin_name storage_need
          ⊎ ((v : Verdict) × (v ≢ allow)
              × (after_gate
                    (check g elapsed plugin_name storage_need rows).0
                    (run_method a sort f plugin_name method args t)
                    t
                  ≡ (refused v, t)))
    decided allow e = inl ((check-allow_iff g elapsed plugin_name storage_need rows).0 e)
    decided (deny msg) e = inr (
      deny msg,
      (λ x. cc x),
      ap (λ v. after_gate v (run_method a sort f plugin_name method args t) t) e,
    )
    decided (fail msg) e = inr (
      fail msg,
      (λ x. cc x),
      ap (λ v. after_gate v (run_method a sort f plugin_name method args t) t) e,
    )

abbrev RowOf : Bytes → Bytes → Option Row → Table → Type 0
RowOf other key stored t = lookup (other, key) t ≡ stored

other_key : (p k other key : Bytes) → (p == other) ≡ false → key_beq (p, k) (other, key) ≡ false
other_key p k other key apart = rw apart refl

kv_set-RowOf :
    (f : Database) (p k val other key : Bytes) (stored : Option Row) (t : Table)
    → (p == other) ≡ false
    → RowOf other key stored t
    → RowOf other key stored (kv_set f p k val t).1
unfolding kv_set
kv_set-RowOf f p k val other key stored t apart h =
    pick (λ (r : Option KvError × Table). RowOf other key stored r.1)
      (ltb max_value_bytes (length val)) _ _ (λ _. h) (λ _. within f.query)
  where
    written : (o : Option Bytes) → RowOf other key stored (upsert o (p, k) (written_row f val) t).1
    written (some text) = h
    written none =
        lookup-insert (p, k) (other, key) (written_row f val) t
        ∙ rw (other_key p k other key apart) h

    within : (o : Option Bytes) → RowOf other key stored (set_within o f p k val t).1
    within (some text) = h
    within none =
        pick (λ (r : Option KvError × Table). RowOf other key stored r.1)
          (leb max_per_plugin_bytes (total_except p k f.seen + length val)) _ _ (λ _. h)
          (λ _. written f.exec)

kv_delete-RowOf :
    (f : Database) (p k other key : Bytes) (stored : Option Row) (t : Table)
    → (p == other) ≡ false
    → RowOf other key stored t
    → RowOf other key stored (kv_delete f p k t).1
unfolding kv_delete
kv_delete-RowOf f p k other key stored t apart h = removed f.exec
  where
    removed : (o : Option Bytes) → RowOf other key stored (remove_row o (p, k) t).1
    removed (some text) = h
    removed none = lookup-delete (p, k) (other, key) t ∙ rw (other_key p k other key apart) h

-- No call of a plugin, whatever the database does, changes what another plugin has stored under any key.
pub dispatch-RowOf :
    (g : Gate) (elapsed : ℕ) (a : Args) (sort : List Bytes → List Bytes) (f : Database)
    (plugin_name method args : Bytes) (rows : List AuditEvent) (t : Table) (other key : Bytes)
    → other ≢ plugin_name
    → lookup (other, key) (dispatch g elapsed a sort f plugin_name method args rows t).0.1
      ≡ lookup (other, key) t
dispatch-RowOf g elapsed a sort f plugin_name method args rows t other key apart =
    let apart' : (plugin_name == other) ≡ false = elim (Bool-cases (plugin_name == other)) [
      | inl same ↦ absurd (apart (sym ((bytes_beq_iff plugin_name other).0 same)))
      | inr differ ↦ differ
    ] in
    let stored = lookup (other, key) t in
    dispatch-keeps (RowOf other key stored) f plugin_name t refl
      (λ k val. kv_set-RowOf f plugin_name k val other key stored t apart' refl)
      (λ k. kv_delete-RowOf f plugin_name k other key stored t apart' refl) g elapsed a sort method
      args rows

-- A call keeps the table within its limits, at most 1 MiB for each value and less than 100 MiB for each plugin, when
-- no other call changes the table between the two statements of a set.
pub dispatch-IsStored :
    (g : Gate) (elapsed : ℕ) (a : Args) (sort : List Bytes → List Bytes) (f : Database)
    (plugin_name method args : Bytes) (rows : List AuditEvent) (t : Table)
    → IsStored t
    → f.seen ≡ t
    → IsStored (dispatch g elapsed a sort f plugin_name method args rows t).0.1
dispatch-IsStored g elapsed a sort f plugin_name method args rows t stored alone =
    dispatch-keeps IsStored f plugin_name t stored
      (λ key val. kv_set-IsStored f plugin_name key val t alone stored)
      (λ key. kv_delete-IsStored f plugin_name key t stored) g elapsed a sort method args rows

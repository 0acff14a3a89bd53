-- ===== src/Store/Kv/Table.antt =====
-- kernel/store/plugin_kv.go: how much a plugin stores.
use opendray_v2_lab.Common.Dict.{
  lookup, insert, delete, Distinct, Distinct-insert, Distinct-delete, AllValues, AllValues-insert,
  AllValues-delete,
}
use opendray_v2_lab.Common.{
  ℕ, ◌+◌, ◌<◌, ◌≤◌, ◌≡◌, refl, sym, ap, ◌∙◌, subst, Bool, true, false, not, ◌&&◌, [], ◌∷◌, Option,
  none, some, Bytes, bytes_eq, bytes_beq_iff, ◌==◌, Bool-cases, pick, inl, inr, length, ltb, leb,
  arith, if◌then◌else◌, &&-eq-true,
}
use opendray_v2_lab.Store.Kv.{
  RowKey, row_key_eq, Row, Table, Database, KvError, max_value_bytes, max_per_plugin_bytes,
  total_except, upsert, set_within, kv_set, remove_row, kv_delete,
}

-- The bytes of a plugin's values.
unfoldable pub total : Bytes → Table → ℕ
total plugin_name [] = 0
total plugin_name (((p, k), val) ∷ t) =
    (if p == plugin_name then val.size_bytes else 0) + total plugin_name t

split_off :
    (b c : Bool) (n rest more : ℕ)
    → b && c ≡ false
    → rest ≡ more
    → (if b && not c then n else 0) + rest ≡ (if b then n else 0) + more
split_off b c n rest more h e = ground (arith, h, e)

total_except-none :
    (p k : Bytes) (t : Table) → lookup (p, k) t ≡ none → total_except p k t ≡ total p t
unfolding total_except total lookup
total_except-none p k [] h = refl
total_except-none p k (((q, j), val) ∷ t) h = elim (Bool-cases ((q == p) && (j == k))) [
  | inl hit ↦ absurd (cc (rw hit at h))
  | inr miss ↦
      split_off (q == p) (j == k) (val.size_bytes) (total_except p k t) (total p t) miss
        (total_except-none p k t (rw miss at h))
]

replaced :
    (own b c : Bool) (n old rest more : ℕ)
    → own ≡ true
    → b ≡ true
    → c ≡ true
    → more ≡ rest
    → (if own then n else 0) + rest ≡ (if b && not c then old else 0) + more + n
replaced own b c n old rest more h x y e = ground (arith, h, x, y, e)

kept :
    (b c : Bool) (n old rest more : ℕ)
    → b && c ≡ false
    → rest ≡ more + n
    → (if b then old else 0) + rest ≡ (if b && not c then old else 0) + more + n
kept b c n old rest more h e = ground (arith, h, e)

-- After a row is written, its plugin stores what it stores under other keys and the new value.
pub total-insert :
    (p k : Bytes) (val : Row) (t : Table)
    → Distinct t
    → total p (insert (p, k) val t) ≡ total_except p k t + val.size_bytes
unfolding total_except total insert
total-insert p k val [] d = ground (arith, bytes_beq_iff p p)
total-insert p k val (((q, j), old) ∷ t) d = elim (Bool-cases ((q == p) && (j == k))) [
  | inl hit ↦
      let (same_p, same_k) = (&&-eq-true (q == p) (j == k)).0 hit in
      let e = (bytes_beq_iff q p).0 same_p in
      let f = (bytes_beq_iff j k).0 same_k in
      let gone : lookup (p, k) t ≡ none = subst (λ i. lookup i t ≡ none) (cc (e, f)) d.0 in
      rw hit (
        replaced (p == p) (q == p) (j == k) (val.size_bytes) (old.size_bytes) (total p t)
          (total_except p k t) ((bytes_beq_iff p p).1 refl) same_p same_k
          (total_except-none p k t gone))
  | inr miss ↦ rw miss (
      kept (q == p) (j == k) (val.size_bytes) (old.size_bytes) (total p (insert (p, k) val t))
        (total_except p k t) miss (total-insert p k val t d.1))
]

elsewhere :
    (own b c : Bool) (n old rest more : ℕ)
    → own ≡ false
    → (b ≡ true → c ≡ false)
    → rest ≡ more
    → b ≡ true
    → (if own then n else 0) + rest ≡ (if c then old else 0) + more
elsewhere own b c n old rest more h apart e x = ground (arith, h, apart x, e)

-- What the other plugins store stays as it is.
pub total-insert_other :
    (p k other : Bytes) (val : Row) (t : Table)
    → (p == other) ≡ false
    → total other (insert (p, k) val t) ≡ total other t
unfolding total insert
total-insert_other p k other val [] apart = ground (arith, apart)
total-insert_other p k other val (((q, j), old) ∷ t) apart =
    elim (Bool-cases ((q == p) && (j == k))) [
      | inl hit ↦
          let same = (bytes_beq_iff q p).0 ((&&-eq-true (q == p) (j == k)).0 hit).0 in
          rw hit (
            elsewhere (p == other) true (q == other) (val.size_bytes) (old.size_bytes)
              (total other t) (total other t) apart (λ _. ap (λ r. r == other) same ∙ apart) refl
              refl)
      | inr miss ↦ rw miss (
          ap (λ n. (if q == other then old.size_bytes else 0) + n)
            (total-insert_other p k other val t apart))
    ]

lt_of_le : {a b c : ℕ} → a ≤ b → b < c → a < c
lt_of_le h k = omega (arith, h, k)

drop_row : (b : Bool) (n less more : ℕ) → less ≤ more → less ≤ (if b then n else 0) + more
drop_row b n less more h = ground (arith, h)

keep_row :
    (b : Bool) (n less more : ℕ)
    → less ≤ more
    → (if b then n else 0) + less ≤ (if b then n else 0) + more
keep_row b n less more h = ground (arith, h)

pub total-delete :
    (key : RowKey) (other : Bytes) (t : Table) → total other (delete key t) ≤ total other t
unfolding total delete
total-delete key other [] = omega arith
total-delete key other (((q, j), old) ∷ t) = elim (Bool-cases ((q, j) == key)) [
  | inl hit ↦ rw hit (
      drop_row (q == other) (old.size_bytes) (total other (delete key t)) (total other t)
        (total-delete key other t))
  | inr miss ↦ rw miss (
      keep_row (q == other) (old.size_bytes) (total other (delete key t)) (total other t)
        (total-delete key other t))
]

-- No key stands twice, no value is over the limit of a key, and every plugin stores less than its quota.
pub record IsStored (t : Table) : Type 0 where
  pub distinct : Distinct t
  pub small : AllValues (λ row. row.size_bytes ≤ max_value_bytes) t
  pub within : (p : Bytes) → total p t < max_per_plugin_bytes

-- The row that KVSet writes.
abbrev pub written_row : Database → Bytes → Row
written_row f val = record { value = f.jsonb val; size_bytes = length val }

module _ (f : Database) (p k val : Bytes) (t : Table) (alone : f.seen ≡ t) (w : IsStored t) where
  upsert-IsStored :
      length val ≤ max_value_bytes
      → total_except p k t + length val < max_per_plugin_bytes
      → (o : Option Bytes) → IsStored (upsert o (p, k) (written_row f val) t).1
  upsert-IsStored light fits (some text) = w
  upsert-IsStored light fits none =
      let row = written_row f val in
      record {
        distinct = Distinct-insert (p, k) row t w.distinct;
        small =
            AllValues-insert (λ row. row.size_bytes ≤ max_value_bytes) (p, k) row t light w.small;
        within = λ other. elim (Bool-cases (p == other)) [
          | inl same ↦
              subst (λ o. total o (insert (p, k) row t) < max_per_plugin_bytes)
                ((bytes_beq_iff p other).0 same)
                (subst (λ n. n < max_per_plugin_bytes) (sym (total-insert p k row t w.distinct))
                  fits)
          | inr apart ↦
              subst (λ n. n < max_per_plugin_bytes) (sym (total-insert_other p k other row t apart))
                (w.within other)
        ];
      }

  room_below : (n : ℕ) → leb max_per_plugin_bytes n ≡ false → n < max_per_plugin_bytes
  room_below n h = ground (arith, h)

  set_within-IsStored :
      length val ≤ max_value_bytes → (o : Option Bytes) → IsStored (set_within o f p k val t).1
  set_within-IsStored light (some text) = w
  set_within-IsStored light none =
      pick (λ (r : Option KvError × Table). IsStored r.1)
        (leb max_per_plugin_bytes (total_except p k f.seen + length val)) _ _ (λ full. w)
        (λ room.
          upsert-IsStored light
            (subst (λ s. total_except p k s + length val < max_per_plugin_bytes) alone
              (room_below (total_except p k f.seen + length val) room))
            f.exec)

  light_enough : ltb max_value_bytes (length val) ≡ false → length val ≤ max_value_bytes
  light_enough h = ground (arith, h)

  -- KVSet, whether it succeeds or not, keeps the limits, when no other call runs between its statements.
  pub kv_set-IsStored : IsStored (kv_set f p k val t).1
  unfolding kv_set
  kv_set-IsStored =
      pick (λ (r : Option KvError × Table). IsStored r.1) (ltb max_value_bytes (length val)) _ _
        (λ large. w) (λ fits. set_within-IsStored (light_enough fits) f.query)

-- KVDelete keeps the limits.
pub kv_delete-IsStored :
    (f : Database) (p k : Bytes) (t : Table) → IsStored t → IsStored (kv_delete f p k t).1
unfolding kv_delete
kv_delete-IsStored f p k t w = removed f.exec
  where
    removed : (o : Option Bytes) → IsStored (remove_row o (p, k) t).1
    removed (some text) = w
    removed none = record {
      distinct = Distinct-delete (p, k) t w.distinct;
      small = AllValues-delete (λ row. row.size_bytes ≤ max_value_bytes) (p, k) t w.small;
      within = λ other. lt_of_le (total-delete (p, k) other t) (w.within other);
    }

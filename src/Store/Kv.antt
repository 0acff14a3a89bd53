-- ===== src/Store/Kv.antt =====
-- kernel/store/plugin_kv.go: the table plugin_kv and its four operations. What the database does
-- is an argument; updated_at is left out.
pub mod Table
mod Tests
use opendray_v2_lab.Common.Dict.{lookup, insert, delete}
use opendray_v2_lab.Common.{
  ℕ, ◌+◌, ◌*◌, ◌^◌, ◌≡◌, ◌↔◌, refl, Bool, true, false, not, ◌&&◌, List, [], ◌∷◌, ◌++◌, Option, none,
  some, Bytes, bytes_eq, bytes_beq_iff, Comparable, ◌==◌, &&-eq-true, codes, ltb, leb, length, take,
  arith, if◌then◌else◌,
}

-- The primary key: a plugin's name and a key.
abbrev pub RowKey : Type 0
RowKey = Bytes × Bytes

abbrev pub key_beq : RowKey → RowKey → Bool
key_beq (p, k) (q, j) = (p == q) && (k == j)

pub key_beq_iff : (a b : RowKey) → (key_beq a b ≡ true) ↔ (a ≡ b)
key_beq_iff (p, k) (q, j) = (
  λ h.
      let (x, y) = (&&-eq-true (p == q) (k == j)).0 h in
      cc ((bytes_beq_iff p q).0 x, (bytes_beq_iff k j).0 y),
  λ e.
      (&&-eq-true (p == q) (k == j)).1 ((bytes_beq_iff p q).1 (cc e), (bytes_beq_iff k j).1 (cc e)),
)

instance abbrev pub row_key_eq : Comparable RowKey
row_key_eq = record { equals = key_beq; equals_iff = key_beq_iff }

-- A value as the JSONB column gives it back, and the size that it was written with.
pub record Row : Type 0 where
  pub value : Bytes
  pub size_bytes : ℕ

abbrev pub Table : Type 0
Table = List (RowKey × Row)

-- What the database does: the error's text, or none, that it reports for a read or a count and for a write, the
-- table that the count of KVSet sees, as other calls may run between its two statements, the form in which a
-- JSONB column gives a value back, and its operator LIKE.
pub record Database : Type 0 where
  pub query : Option Bytes
  pub exec : Option Bytes
  pub seen : Table
  pub jsonb : Bytes → Bytes
  pub like : Bytes → Bytes → Bool

pub data KvError : Type 0 where
  value_too_large : KvError
  plugin_quota_exceeded : KvError
  db_error : Bytes → KvError

-- A result and nil, or an error.
pub data KvResult (A : Type 0) : Type 0 where
  done : A → KvResult A
  failed : KvError → KvResult A

abbrev pub max_value_bytes : ℕ
max_value_bytes = 1048576

abbrev pub max_per_plugin_bytes : ℕ
max_per_plugin_bytes = 104857600

abbrev pub unless : {A : Type 0} → Option Bytes → A → KvResult A
unless none a = done a
unless (some text) a = failed (db_error text)

-- The value, or none when no row has the key.
abbrev pub value_of : Option Row → Option Bytes
value_of none = none
value_of (some row) = some row.value

unfoldable pub kv_get : Database → Bytes → Bytes → Table → KvResult (Option Bytes)
unfolding lookup
kv_get f plugin_name key t = unless f.query (value_of (lookup (plugin_name, key) t))

-- SELECT COALESCE(SUM(size_bytes), 0) … WHERE plugin_name = $1 AND key != $2
unfoldable pub total_except : Bytes → Bytes → Table → ℕ
total_except plugin_name key [] = 0
total_except plugin_name key (((p, k), row) ∷ t) =
    (if (p == plugin_name) && not (k == key) then row.size_bytes else 0)
    + total_except plugin_name key t

abbrev pub upsert : Option Bytes → RowKey → Row → Table → Option KvError × Table
upsert none key row t = (none, insert key row t)
upsert (some text) key row t = (some (db_error text), t)

abbrev pub set_within :
    Option Bytes → Database → Bytes → Bytes → Bytes → Table → Option KvError × Table
set_within (some text) f plugin_name key val t = (some (db_error text), t)
set_within none f plugin_name key val t =
    if leb max_per_plugin_bytes (total_except plugin_name key f.seen + length val)
    then (some plugin_quota_exceeded, t)
    else upsert f.exec (plugin_name, key) (record { value = f.jsonb val; size_bytes = length val })
        t

unfoldable pub kv_set : Database → Bytes → Bytes → Bytes → Table → Option KvError × Table
unfolding total_except insert
kv_set f plugin_name key val t =
    if ltb max_value_bytes (length val)
    then (some value_too_large, t)
    else set_within f.query f plugin_name key val t

abbrev pub remove_row : Option Bytes → RowKey → Table → Option KvError × Table
remove_row none key t = (none, delete key t)
remove_row (some text) key t = (some (db_error text), t)

unfoldable pub kv_delete : Database → Bytes → Bytes → Table → Option KvError × Table
unfolding delete
kv_delete f plugin_name key t = remove_row f.exec (plugin_name, key) t

-- WHERE plugin_name = $1 AND key LIKE $2 || '%'
unfoldable pub matching : Database → Bytes → Bytes → Table → List Bytes
matching f plugin_name prefix [] = []
matching f plugin_name prefix (((p, k), row) ∷ t) =
    let rest = matching f plugin_name prefix t in
    if (p == plugin_name) && f.like k (prefix ++ codes "%") then k ∷ rest else rest

-- ORDER BY key ASC LIMIT 1000; `sort` is the order of the database.
unfoldable pub kv_list :
    (List Bytes → List Bytes) → Database → Bytes → Bytes → Table → KvResult (List Bytes)
unfolding matching
kv_list sort f plugin_name prefix t =
    unless f.query (take 1000 (sort (matching f plugin_name prefix t)))

-- ===== src/Store/Kv/Tests.antt =====
-- Runs of the key-value table.
use opendray_v2_lab.Common.Dict.{lookup, insert, delete}
use opendray_v2_lab.Common.{
  ◌≡◌, refl, [], ◌∷◌, ◌++◌, none, some, Bytes, codes, has_prefix, take, length, ◌-◌,
}
use opendray_v2_lab.Store.Kv.{Row, Table, Database, done, kv_get, kv_set, kv_delete, kv_list}

abbrev row : Bytes → Row
row val = record { value = val; size_bytes = length val }

abbrev table : Table
table =
    ((codes "clock", codes "tz"), row (codes "1"))
    ∷ ((codes "kanban", codes "tz"), row (codes "2"))
    ∷ []

-- A database that works; its LIKE knows patterns that end in a percent sign.
abbrev database : Database
database = record {
  query = none;
  exec = none;
  seen = table;
  jsonb = λ val. val;
  like = λ s pattern. has_prefix s (take (length pattern - 1) pattern);
}

written :
    kv_set database (codes "clock") (codes "a") (codes "9") table
    ≡ (none, table ++ ((codes "clock", codes "a"), row (codes "9")) ∷ [])
unfolding kv_set insert
written = refl

read_back : kv_get database (codes "kanban") (codes "tz") table ≡ done (some (codes "2"))
unfolding kv_get lookup
read_back = refl

removed :
    kv_delete database (codes "clock") (codes "tz") table
    ≡ (none, ((codes "kanban", codes "tz"), row (codes "2")) ∷ [])
unfolding kv_delete delete
removed = refl

listed : kv_list (λ keys. keys) database (codes "clock") (codes "t") table ≡ done (codes "tz" ∷ [])
unfolding kv_list
listed = refl

-- ===== src/Leveldb/Table.antt =====
-- A table in memory that keeps its keys in order: the interface of LevelDB can be met.
use blockchain_indexer.Base.{
  ◌≡◌, refl, ◌∙◌, true, Option, none, some, List, [], ◌∷◌, Str, arith, if◌then◌else◌,
}
use blockchain_indexer.Base.Text.{str_eq, str_lt, str_eq→eq, str_eq_refl}
use blockchain_indexer.Leveldb.{Op, put, delete, after, Leveldb, Laws}

abbrev pub Table : Type 0
Table = List (Str × Str)

unfoldable pub table_get : Table → Str → Option Str
table_get [] k = none
table_get ((j, v) ∷ m) k = if str_eq j k then some v else table_get m k

unfoldable pub table_put : Str → Str → Table → Table
table_put k v [] = (k, v) ∷ []
table_put k v ((j, w) ∷ m) =
    if str_eq j k
    then (j, v) ∷ m
    else if str_lt k j
    then (k, v) ∷ (j, w) ∷ m
    else (j, w) ∷ table_put k v m

unfoldable pub table_delete : Str → Table → Table
table_delete k [] = []
table_delete k ((j, v) ∷ m) =
    let rest = table_delete k m in if str_eq j k then rest else (j, v) ∷ rest

unfoldable pub table_write : Table → List Op → Table
table_write m [] = m
table_write m (put k v ∷ ops) = table_write (table_put k v m) ops
table_write m (delete k ∷ ops) = table_write (table_delete k m) ops

unfoldable pub table_seek : Table → Str → Table
table_seek [] start = []
table_seek ((j, v) ∷ m) start =
    let rest = table_seek m start in if str_lt j start then rest else (j, v) ∷ m

-- The entries before `start`, the last of them first, behind `seen`.
unfoldable pub before : Table → Str → Table → Table
before [] start seen = seen
before ((j, v) ∷ m) start seen =
    let rest = before m start ((j, v) ∷ seen) in if str_lt j start then rest else seen

unfoldable pub table_seek_back : Table → Str → Table
table_seek_back m start = elim (table_seek m start) [ [] ↦ [] | e ∷ _ ↦ e ∷ before m start [] ]

get-put_lem :
    (m : Table) (k v j : Str)
    → table_get (table_put k v m) j ≡ (if str_eq k j then some v else table_get m j)
unfolding table_get table_put
get-put_lem [] k v j = refl
get-put_lem ((i, w) ∷ m) k v j = ground (
  arith,
  get-put_lem m k v j,
  str_eq→eq i k,
  str_eq→eq i j,
  str_eq→eq k j,
  str_eq_refl i,
  str_eq_refl k,
)

get-delete :
    (m : Table) (k j : Str)
    → table_get (table_delete k m) j ≡ (if str_eq k j then none else table_get m j)
unfolding table_get table_delete
get-delete [] k j = ground arith
get-delete ((i, w) ∷ m) k j = ground (
  arith,
  get-delete m k j,
  str_eq→eq i k,
  str_eq→eq i j,
  str_eq→eq k j,
  str_eq_refl i,
  str_eq_refl k,
)

get-write_lem :
    (ops : List Op) (m : Table) (k : Str)
    → table_get (table_write m ops) k ≡ after ops k (table_get m k)
unfolding table_write after
get-write_lem [] m k = refl
get-write_lem (put j v ∷ ops) m k = get-write_lem ops (table_put j v m) k ∙ rw (get-put_lem m j v k)
get-write_lem (delete j ∷ ops) m k = get-write_lem ops (table_delete j m) k ∙ rw (get-delete m j k)

abbrev pub table : Leveldb
table = record {
  Db = Table;
  get = table_get;
  write = λ m ops. (table_write m ops, true);
  put_one = λ m k v. table_put k v m;
  seek = table_seek;
  seek_back = table_seek_back;
}

pub table-Laws : Laws table
table-Laws = record {
  get-write = λ m ops k _. get-write_lem ops m k;
  get-put_one = λ m j v k. get-put_lem m j v k;
}

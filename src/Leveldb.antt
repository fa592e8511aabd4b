-- ===== src/Leveldb.antt =====
-- LevelDB, which the indexer and the server call: an ordered map from byte strings to byte strings
-- behind an interface. `Laws` states its documented behaviour.
pub mod Table
use blockchain_indexer.Base.{◌≡◌, Bool, true, Option, none, some, List, [], ◌∷◌, Str, if◌then◌else◌}
use blockchain_indexer.Base.Text.{str_eq, str_lt}

-- The entries of a WriteBatch.
pub data Op : Type 0 where
  put : Str → Str → Op
  delete : Str → Op

-- What a key holds after the operations of a batch, done in order.
unfoldable pub after : List Op → Str → Option Str → Option Str
after [] k old = old
after (put j v ∷ ops) k old = after ops k (if str_eq j k then some v else old)
after (delete j ∷ ops) k old = after ops k (if str_eq j k then none else old)

-- `get` gives `none` where the status is not ok. `write` gives the status too. `seek` gives the
-- entries that an iterator visits by Next after Seek(start), and `seek_back` those that it visits
-- by Prev, the one that Seek(start) finds first.
pub record Leveldb : Type 1 where
  pub Db : Type 0
  pub get : Db → Str → Option Str
  pub write : Db → List Op → Db × Bool
  pub put_one : Db → Str → Str → Db
  pub seek : Db → Str → List (Str × Str)
  pub seek_back : Db → Str → List (Str × Str)

-- A batch that was written is seen whole by every later Get, and so is a single Put.
pub record Laws (ldb : Leveldb) : Type 0 where
  pub get-write :
      (db : ldb.Db) (ops : List Op) (k : Str)
      → (ldb.write db ops).1 ≡ true
      → ldb.get (ldb.write db ops).0 k ≡ after ops k (ldb.get db k)
  pub get-put_one :
      (db : ldb.Db) (j v k : Str)
      → ldb.get (ldb.put_one db j v) k ≡ (if str_eq j k then some v else ldb.get db k)

-- The loop `for (it->Seek(start); it->Valid() && it->key() < limit; it->Next())`.
unfoldable pub until : Str → List (Str × Str) → List (Str × Str)
until limit [] = []
until limit ((k, v) ∷ entries) =
    let rest = (k, v) ∷ until limit entries in if str_lt k limit then rest else []

unfoldable pub range : (ldb : Leveldb) → ldb.Db → Str → Str → List (Str × Str)
range ldb db start limit = until limit (ldb.seek db start)

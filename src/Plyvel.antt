-- ===== src/Plyvel.antt =====
-- The interface of a LevelDB database, package `plyvel`, at one type of values. Its documented
-- behaviour: `get` after `put` and `delete`, and an iteration that lists each key once with the
-- value that `get` returns, from the moment at which it begins. The order of iteration is that of
-- `entries`.
pub mod Memory
use belcoin.Tesseract.{Bytes}
use belcoin.Dict.{Dict, lookup, Distinct}
use belcoin.Prelude.{◌≡◌, Option, none, some, ◌==◌, if◌then◌else◌}

pub record Level (V : Type 0) : Type 1 where
  pub Db : Type 0
  pub get : Db → Bytes → Option V
  pub put : Db → Bytes → V → Db
  pub delete : Db → Bytes → Db
  pub entries : Db → Dict V
  pub get-put :
      (d : Db) (k j : Bytes) (v : V) → get (put d k v) j ≡ (if k == j then some v else get d j)
  pub get-delete : (d : Db) (k j : Bytes) → get (delete d k) j ≡ (if k == j then none else get d j)
  pub lookup-entries : (d : Db) (k : Bytes) → lookup k (entries d) ≡ get d k
  pub entries-Distinct : (d : Db) → Distinct (entries d)

-- ===== src/Plyvel/Memory.antt =====
-- A store in memory that has the documented behaviour of a LevelDB database: a dict.
use belcoin.Dict.{
  Dict, lookup, insert, without, Distinct, lookup-insert, lookup-without, without-Distinct,
}
use belcoin.Tesseract.{Bytes}
use belcoin.Prelude.{◌≡◌, refl, arith, [], ◌∷◌}
use belcoin.Plyvel.{Level}

module _ {V : Type 0} where
  -- The first entry of each key.
  abbrev pub entries : Dict V → Dict V
  entries [] = []
  entries ((k, v) ∷ d) = (k, v) ∷ without k (entries d)

  pub lookup-entries : (d : Dict V) (j : Bytes) → lookup j (entries d) ≡ lookup j d
  lookup-entries [] j = refl
  lookup-entries ((k, v) ∷ d) j = ground (arith, lookup-without k j (entries d), lookup-entries d j)

  pub entries-Distinct : (d : Dict V) → Distinct (entries d)
  entries-Distinct [] = tt
  entries-Distinct ((k, v) ∷ d) = (
    ground (arith, lookup-without k k (entries d)),
    without-Distinct k (entries d) (entries-Distinct d),
  )

abbrev pub memory : (V : Type 0) → Level V
memory V = record {
  Db = Dict V;
  get = λ d k. lookup k d;
  put = λ d k v. insert k v d;
  delete = λ d k. without k d;
  entries = entries;
  get-put = λ d k j v. lookup-insert k j v d;
  get-delete = λ d k j. lookup-without k j d;
  lookup-entries = lookup-entries;
  entries-Distinct = entries-Distinct;
}

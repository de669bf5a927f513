-- ===== src/Exec.antt =====
-- Methods that mutate an object and may raise. What was written before a raise stays written, so
-- the state comes back beside the exception too.
pub mod Keeps
pub mod Agrees
use belcoin.Prelude.{List, [], ◌∷◌, Option, none, some}

-- The exceptions that the modelled code raises itself or lets through.
pub data Raised : Type 0 where
  key_error : Raised
  index_error : Raised
  unbound_local_error : Raised
  attribute_error : Raised
  type_error : Raised
  zero_division_error : Raised
  assertion_error : Raised
  invalid_transaction_error : Raised
  decode_error : Raised
  struct_error : Raised

pub data Result (A : Type 0) : Type 0 where
  ok : A → Result A
  err : Raised → Result A

abbrev pub Exec : Type 0 → Type 0 → Type 0
Exec S A = S → Result A × S

module _ {S A : Type 0} where
  abbrev pub pure : A → Exec S A
  pure a s = (ok a, s)

  abbrev pub raise : Raised → Exec S A
  raise e s = (err e, s)

  abbrev pub gets : (S → A) → Exec S A
  gets f s = (ok (f s), s)

  abbrev pub or_raise : Option A → Raised → Exec S A
  or_raise none e = raise e
  or_raise (some a) _ = pure a

abbrev pub modify : {S : Type 0} → (S → S) → Exec S (Unit {0})
modify f s = (ok tt, f s)

infixl 5 ◌>>=◌ ◌>>◌
abbrev pub ◌>>=◌ : {S A B : Type 0} → Exec S A → (A → Exec S B) → Exec S B
◌>>=◌ m f s = elim (m s).0 [ ok a ↦ f a (m s).1 | err e ↦ (err e, (m s).1) ]

abbrev pub ◌>>◌ : {S A B : Type 0} → Exec S A → Exec S B → Exec S B
m >> k = m >>= λ _. k

-- `for x in xs: body(x)`
unfoldable pub for_each : {S A : Type 0} → List A → (A → Exec S (Unit {0})) → Exec S (Unit {0})
for_each [] body = pure tt
for_each (x ∷ xs) body = body x >>= λ _. for_each xs body

-- `addCallback(m)` and then `addErrback(h)`: what `m` raises goes to `h`.
abbrev pub catch : {S : Type 0} → Exec S (Unit {0}) → Exec S (Unit {0}) → Exec S (Unit {0})
catch m h s = elim (m s).0 [ ok _ ↦ (ok tt, (m s).1) | err _ ↦ h (m s).1 ]

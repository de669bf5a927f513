-- ===== src/Exec/Keeps.antt =====
-- Actions that keep an invariant, whether they return or raise.
use belcoin.Prelude.{Bool, true, false, Option, none, some, List, [], ◌∷◌, if◌then◌else◌}
use belcoin.Exec.{
  Exec, Raised, Result, ok, err, pure, raise, gets, or_raise, modify, for_each, catch, ◌>>=◌,
}

pub record Keeps {S A : Type 0} (P : S → Type 0) (m : Exec S A) : Type 0 where
  pub at : (s : S) → P s → P (m s).1

module _ {S A B : Type 0} {P : S → Type 0} where
  bind_from :
      (r : Result A) (s : S) (f : A → Exec S B)
      → ((a : A) → Keeps P (f a))
      → P s
      → P (◌>>=◌ {S = S} (λ s'. (r, s')) f s).1
  bind_from (ok a) s f kf h = (kf a).at s h
  bind_from (err e) s f kf h = h

  pub Keeps-bind :
      (m : Exec S A) (f : A → Exec S B) → Keeps P m → ((a : A) → Keeps P (f a)) → Keeps P (m >>= f)
  Keeps-bind m f km kf = record { at = λ s h. bind_from (m s).0 (m s).1 f kf (km.at s h) }

  -- The same at one state, where only the first action's end there is known.
  pub bind-at :
      (m : Exec S A) (f : A → Exec S B) (s : S)
      → P (m s).1
      → ((a : A) → Keeps P (f a))
      → P ((m >>= f) s).1
  bind-at m f s h kf = bind_from (m s).0 (m s).1 f kf h

module _ {S : Type 0} {P : S → Type 0} where
  pub Keeps-modify : (f : S → S) → ((s : S) → P s → P (f s)) → Keeps P (modify f)
  Keeps-modify f k = record { at = k }

  catch_from :
      (r : Result (Unit {0})) (s : S) (m : Exec S (Unit {0}))
      → Keeps P m
      → P s
      → P (catch {S = S} (λ s'. (r, s')) m s).1
  catch_from (ok _) s m k h = h
  catch_from (err e) s m k h = k.at s h

  pub Keeps-catch : (m n : Exec S (Unit {0})) → Keeps P m → Keeps P n → Keeps P (catch m n)
  Keeps-catch m n km kn = record { at = λ s h. catch_from (m s).0 (m s).1 n kn (km.at s h) }

module _ {S A : Type 0} {P : S → Type 0} where
  pub Keeps-pure : (a : A) → Keeps P (pure a)
  Keeps-pure a = record { at = λ s h. h }

  pub Keeps-raise : (e : Raised) → Keeps P (raise {A = A} e)
  Keeps-raise e = record { at = λ s h. h }

  pub Keeps-gets : (f : S → A) → Keeps P (gets f)
  Keeps-gets f = record { at = λ s h. h }

  pub Keeps-or_raise : (o : Option A) (e : Raised) → Keeps P (or_raise o e)
  Keeps-or_raise none e = record { at = λ s h. h }
  Keeps-or_raise (some a) e = record { at = λ s h. h }

  -- A loop keeps what its body keeps.
  pub Keeps-for_each :
      (xs : List A) (body : A → Exec S (Unit {0}))
      → ((x : A) → Keeps P (body x))
      → Keeps P (for_each xs body)
  unfolding for_each
  Keeps-for_each [] body k = record { at = λ s h. h }
  Keeps-for_each (x ∷ xs) body k =
      Keeps-bind (body x) (λ _. for_each xs body) (k x) (λ _. Keeps-for_each xs body k)

  pub Keeps-if : (b : Bool) (m n : Exec S A) → Keeps P m → Keeps P n → Keeps P (if b then m else n)
  Keeps-if true m n km kn = km
  Keeps-if false m n km kn = kn

pub ruleset keeps_rules = (
  Keeps-bind, Keeps-modify, Keeps-for_each, Keeps-if, Keeps-pure, Keeps-gets, Keeps-or_raise,
  Keeps-catch,
)

-- ===== src/Exec/Agrees.antt =====
-- Actions that two related states run alike: with the same result, and to related states.
use mathlib.Core.Path.{subst}
use belcoin.Prelude.{
  ◌≡◌, refl, ap, Bool, true, false, Option, none, some, List, [], ◌∷◌, if◌then◌else◌, In, inl, inr,
}
use belcoin.Exec.{
  Exec, Raised, Result, ok, err, pure, raise, gets, or_raise, modify, for_each, ◌>>=◌,
}

pub record Agrees {S A : Type 0} (R : S → S → Type 0) (m : Exec S A) : Type 0 where
  pub at : (s s' : S) → R s s' → ((m s).0 ≡ (m s').0) × R (m s).1 (m s').1

module _ {S A B : Type 0} {R : S → S → Type 0} where
  bind_same :
      (r : Result A) (f : A → Exec S B) (s s' : S)
      → ((a : A) → Agrees R (f a))
      → R s s'
      → ((◌>>=◌ {S = S} (λ z. (r, z)) f s).0 ≡ (◌>>=◌ {S = S} (λ z. (r, z)) f s').0)
        × R (◌>>=◌ {S = S} (λ z. (r, z)) f s).1 (◌>>=◌ {S = S} (λ z. (r, z)) f s').1
  bind_same (ok a) f s s' k h = (k a).at s s' h
  bind_same (err e) f s s' k h = (refl, h)

  pub Agrees-bind :
      (m : Exec S A) (f : A → Exec S B)
      → Agrees R m
      → ((a : A) → Agrees R (f a))
      → Agrees R (m >>= f)
  Agrees-bind m f km kf = record {
    at = λ s s' h.
        let (e, h') = km.at s s' h in
        subst
          (λ r.
            ((m >>= f) s).0 ≡ (◌>>=◌ {S = S} (λ z. (r, z)) f (m s').1).0
            × R ((m >>= f) s).1 (◌>>=◌ {S = S} (λ z. (r, z)) f (m s').1).1)
          e (bind_same (m s).0 f (m s).1 (m s').1 kf h');
  }

module _ {S : Type 0} {R : S → S → Type 0} where
  pub Agrees-modify : (f : S → S) → ((s s' : S) → R s s' → R (f s) (f s')) → Agrees R (modify f)
  Agrees-modify f k = record { at = λ s s' h. (refl, k s s' h) }

module _ {S A : Type 0} {R : S → S → Type 0} where
  pub Agrees-pure : (a : A) → Agrees R (pure a)
  Agrees-pure a = record { at = λ s s' h. (refl, h) }

  pub Agrees-gets : (f : S → A) → ((s s' : S) → R s s' → f s ≡ f s') → Agrees R (gets f)
  Agrees-gets f k = record { at = λ s s' h. (ap ok (k s s' h), h) }

  pub Agrees-raise : (e : Raised) → Agrees {A = A} R (raise e)
  Agrees-raise e = record { at = λ s s' h. (refl, h) }

  pub Agrees-or_raise : (o : Option A) (e : Raised) → Agrees R (or_raise o e)
  Agrees-or_raise none e = record { at = λ s s' h. (refl, h) }
  Agrees-or_raise (some a) e = record { at = λ s s' h. (refl, h) }

  pub Agrees-if :
      (b : Bool) (m n : Exec S A) → Agrees R m → Agrees R n → Agrees R (if b then m else n)
  Agrees-if true m n km kn = km
  Agrees-if false m n km kn = kn

module _ {S A : Type 0} {R : S → S → Type 0} where
  pub Agrees-for_each :
      (xs : List A) (body : A → Exec S (Unit {0}))
      → ((x : A) → In x xs → Agrees R (body x))
      → Agrees R (for_each xs body)
  unfolding for_each
  Agrees-for_each [] body k = Agrees-pure tt
  Agrees-for_each (x ∷ xs) body k =
      Agrees-bind (body x) (λ _. for_each xs body) (k x (inl refl))
        (λ _. Agrees-for_each xs body (λ y i. k y (inr i)))

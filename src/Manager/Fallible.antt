-- ===== src/Manager/Fallible.antt =====
-- Transactions with `?`: a computation with a state that ends in a result, and where an error ends all
-- that follows.
use clash_nyanpasu_service.Failure.{Error}
use clash_nyanpasu_service.Manager.Effects.{Result, ok, err, M}

-- The rest of a computation, after a result.
unfoldable pub proceed : {S A B : Type 0} → (A → M S (Result B)) → Result A → M S (Result B)
proceed f (ok a) s = f a s
proceed f (err e) s = (s, err e)

infixl 5 ◌>>=◌ ◌>>◌
unfoldable pub ◌>>=◌ : {S A B : Type 0} → M S (Result A) → (A → M S (Result B)) → M S (Result B)
unfolding proceed
◌>>=◌ m f s = proceed f (m s).1 (m s).0

unfoldable pub ◌>>◌ : {S A B : Type 0} → M S (Result A) → M S (Result B) → M S (Result B)
unfolding proceed
◌>>◌ m k s = proceed (λ a. k) (m s).1 (m s).0

abbrev pub return : {S A : Type 0} → A → M S (Result A)
return a s = (s, ok a)

abbrev pub throw : {S A : Type 0} → Error → M S (Result A)
throw e s = (s, err e)

-- A computation whose result is not one of these.
unfoldable pub lift : {S A : Type 0} → M S A → M S (Result A)
lift m s = ((m s).0, ok (m s).1)

unfoldable pub rely : {S A : Type 0} → Result A → M S (Result A)
rely r s = (s, r)

-- The rules: what holds before is made to hold after, if every stretch does its part.
module _ {S A B : Type 0} (P : S → Type 0) (R : A → S → Type 0) (E : Error → S → Type 0)
    (Q : Result B → S → Type 0) where
  abbrev pub Upon : Result A → S → Type 0
  Upon (ok a) s = R a s
  Upon (err e) s = E e s

  proceed_lem :
      (f : A → M S (Result B)) (r : Result A) (s : S)
      → Upon r s
      → ((a : A) (t : S) → R a t → Q (f a t).1 (f a t).0)
      → ((e : Error) (t : S) → E e t → Q (err e) t)
      → Q (proceed f r s).1 (proceed f r s).0
  unfolding proceed
  proceed_lem f (ok a) s u k l = k a s u
  proceed_lem f (err e) s u k l = l e s u

  pub bind_lem :
      (m : M S (Result A)) (f : A → M S (Result B))
      → ((s : S) → P s → Upon (m s).1 (m s).0)
      → ((a : A) (t : S) → R a t → Q (f a t).1 (f a t).0)
      → ((e : Error) (t : S) → E e t → Q (err e) t)
      → (s : S) → P s
      → Q ((m >>= f) s).1 ((m >>= f) s).0
  unfolding ◌>>=◌
  bind_lem m f u k l s p = proceed_lem f _ _ (u s p) k l

  pub next_lem :
      (m : M S (Result A)) (f : M S (Result B))
      → ((s : S) → P s → Upon (m s).1 (m s).0)
      → ((a : A) (t : S) → R a t → Q (f t).1 (f t).0)
      → ((e : Error) (t : S) → E e t → Q (err e) t)
      → (s : S) → P s
      → Q ((m >> f) s).1 ((m >> f) s).0
  unfolding ◌>>◌
  next_lem m f u k l s p = proceed_lem (λ a. f) _ _ (u s p) k l

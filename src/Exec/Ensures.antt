-- ===== src/Exec/Ensures.antt =====
-- What holds when an action returns: from a world of the first predicate, a value and a world of
-- the second one. A throw promises nothing.
use brain_mate.Common.{Bool, true, false, if◌then◌else◌, ◌≡◌, refl, sym}
use brain_mate.Errors.{Error}
use brain_mate.Exec.{World, Exec, Result, ok, err, pure, throw, resume, catch, handle, ◌>>=◌}
use brain_mate.Exec.Keeps.{Keeps}

abbrev pub Returned : {S A : Type 0} → (A → World S → Type 0) → Result A × World S → Type 0
Returned Q (ok a, w) = Q a w
Returned Q (err e, w) = Unit

pub record Ensures {S A : Type 0} (P : World S → Type 0) (Q : A → World S → Type 0) (m : Exec S A)
    : Type 0 where
  pub at : (w : World S) → P w → Returned Q (m w)

-- the outcome of an action that is known to return
pub Returned-ok :
    {S A : Type 0} (Q : A → World S → Type 0) (x : Result A × World S) (a : A)
    → Returned Q x
    → x.0 ≡ ok a
    → Q a x.1
Returned-ok Q (ok b, w) a h e = let same : b ≡ a = cc in rw (sym same) h
Returned-ok Q (err x, w) a h e = absurd (cc)

rethrow-Ensures :
    {S A : Type 0} (Q : A → World S → Type 0) (x : Result A × World S) (h : Error → Exec S A)
    → Returned Q x
    → ((e : Error) (w : World S) → Returned Q (h e w))
    → Returned Q (handle x h)
rethrow-Ensures Q (ok a, w) h q eh = q
rethrow-Ensures Q (err e, w) h q eh = eh e w

Returned-with :
    {S A : Type 0} (P : World S → Type 0) (Q : A → World S → Type 0) (x : Result A × World S)
    → P x.1
    → Returned Q x
    → Returned (λ a w. P w × Q a w) x
Returned-with P Q (ok a, w) p q = (p, q)
Returned-with P Q (err e, w) p q = tt

module _ {S A : Type 0} {P : World S → Type 0} {Q : A → World S → Type 0} where
  pub Ensures-pure : (a : A) → ((w : World S) → P w → Q a w) → Ensures P Q (pure a)
  Ensures-pure a h = record { at = h }

  pub Ensures-throw : (e : Error) → Ensures P Q (throw e)
  Ensures-throw e = record { at = λ w h. tt }

  pub Ensures-if :
      (b : Bool) (m n : Exec S A) → Ensures P Q m → Ensures P Q n → Ensures P Q (if b then m else n)
  Ensures-if true m n hm hn = hm
  Ensures-if false m n hm hn = hn

  handle-Ensures :
      (x : Result A × World S) (h : Error → Exec S A)
      → Returned Q x
      → P x.1
      → ((e : Error) → Ensures P Q (h e))
      → Returned Q (handle x h)
  handle-Ensures (ok a, w) h q p eh = q
  handle-Ensures (err e, w) h q p eh = (eh e).at w p

  pub Ensures-catch :
      (m : Exec S A) (h : Error → Exec S A)
      → Keeps P m
      → Ensures P Q m
      → ((e : Error) → Ensures P Q (h e))
      → Ensures P Q (catch m h)
  Ensures-catch m h km em eh = record {
    at = λ w p. handle-Ensures (m w) h (em.at w p) (km.at w p) eh;
  }

  -- a `catch` whose promise needs nothing
  pub Ensures-rethrow :
      (m : Exec S A) (h : Error → Exec S A)
      → Ensures P Q m
      → ((e : Error) (w : World S) → Returned Q (h e w))
      → Ensures P Q (catch m h)
  Ensures-rethrow m h em eh = record { at = λ w p. rethrow-Ensures Q (m w) h (em.at w p) eh }

  pub Ensures-with : (m : Exec S A) → Keeps P m → Ensures P Q m → Ensures P (λ a w. P w × Q a w) m
  Ensures-with m km h = record { at = λ w p. Returned-with P Q (m w) (km.at w p) (h.at w p) }

  pub Ensures-weaker :
      (P' : World S → Type 0) (m : Exec S A)
      → ((w : World S) → P' w → P w)
      → Ensures P Q m
      → Ensures P' Q m
  Ensures-weaker P' m k h = record { at = λ w p. h.at w (k w p) }

Returned-Keeps :
    {S A : Type 0} (P : World S → Type 0) (x : Result A × World S) → P x.1 → Returned (λ _. P) x
Returned-Keeps P (ok a, w) h = h
Returned-Keeps P (err e, w) h = tt

-- an invariant holds in particular when the action returns
pub Ensures-of_Keeps :
    {S A : Type 0} (P : World S → Type 0) (m : Exec S A) → Keeps P m → Ensures P (λ _. P) m
Ensures-of_Keeps P m k = record { at = λ w p. Returned-Keeps P (m w) (k.at w p) }

module _ {S A B : Type 0} {M : A → World S → Type 0} {Q : B → World S → Type 0} where
  resume-Ensures :
      (x : Result A × World S) (f : A → Exec S B)
      → Returned M x
      → ((a : A) → Ensures (M a) Q (f a))
      → Returned Q (resume x f)
  resume-Ensures (ok a, w) f h ef = (ef a).at w h
  resume-Ensures (err e, w) f h ef = tt

module _ {S A B : Type 0} {P : World S → Type 0} {M : A → World S → Type 0}
    {Q : B → World S → Type 0} where
  -- one action after the other, by what holds of the value between them
  pub Ensures-then :
      (m : Exec S A) (f : A → Exec S B)
      → Ensures P M m
      → ((a : A) → Ensures (M a) Q (f a))
      → Ensures P Q (m >>= f)
  Ensures-then m f em ef = record { at = λ w p. resume-Ensures (m w) f (em.at w p) ef }

module _ {S A B : Type 0} {P : World S → Type 0} {Q : B → World S → Type 0} where
  -- an action that keeps the first predicate
  pub Ensures-bind :
      (m : Exec S A) (f : A → Exec S B)
      → Keeps P m
      → ((a : A) → Ensures P Q (f a))
      → Ensures P Q (m >>= f)
  Ensures-bind m f km ef = Ensures-then m f (Ensures-of_Keeps P m km) ef

-- an action that ends in a throw promises everything
pub Returned-thrown :
    {S A B : Type 0} (Q : B → World S → Type 0) (x : Result A × World S) (e : Error)
    → Returned Q (resume x (λ _. throw e))
Returned-thrown Q (ok a, w) e = tt
Returned-thrown Q (err x, w) e = tt

-- an action that is known to return, followed by another
pub resume-ok :
    {S A B : Type 0} (x : Result A × World S) (a : A) (f : A → Exec S B)
    → x.0 ≡ ok a
    → resume x f ≡ f a x.1
resume-ok (ok b, w) a f h = let same : b ≡ a = cc in rw (same) refl
resume-ok (err e, w) a f h = absurd (cc)

-- ===== src/Exec/Returns.antt =====
-- Actions that return a value.
use brain_mate.Common.{◌≡◌, refl, Bool, true, false, if◌then◌else◌}
use brain_mate.Exec.{World, Exec, Result, ok, err, handle, resume, pure, date_now, is_circuit_open}
use brain_mate.Exec.Keeps.{date_now_reply}

module _ {S : Type 0} where
  -- it returned a value
  pub record Returns {A : Type 0} (x : Result A × World S) : Type 0 where
    pub value : A
    pub returned : x.0 ≡ ok value

  pub caught : {A : Type 0} (x : Result A × World S) (a : A) → Returns (handle x (λ _. pure a))
  caught (ok b, w) a = record { value = b; returned = refl }
  caught (err e, w) a = record { value = a; returned = refl }

  -- an action that returns, followed by actions that do
  pub follows :
      {A B : Type 0} (x : Result A × World S) (f : A → Exec S B)
      → Returns x
      → ((a : A) (w : World S) → Returns (f a w))
      → Returns (resume x f)
  follows (ok a, w) f r k = k a w
  follows (err e, w) f r k = absurd (impossible r.returned)
    where
      impossible : (err e ≡ ok r.value) → ⊥
      impossible p = absurd (cc)

  pub choice :
      {B : Type 0} (b : Bool) (m n : Exec S B) (w : World S)
      → Returns (m w)
      → Returns (n w)
      → Returns ((if b then m else n) w)
  choice true m n w km kn = km
  choice false m n w km kn = kn

  date_now-Returns : (w : World S) → Returns (date_now w)
  unfolding date_now
  date_now-Returns w = record { value = (date_now w).1.clock; returned = (date_now_reply w).0 }

  pub is_circuit_open-Returns : (w : World S) → Returns (is_circuit_open w)
  unfolding is_circuit_open
  is_circuit_open-Returns w =
      follows (date_now w) _ (date_now-Returns w) (λ now v. record { value = _; returned = refl })

  pub nothing : {A : Type 0} (a : A) (w : World S) → Returns (pure a w)
  nothing a w = record { value = a; returned = refl }

-- ===== src/Exec/Yields.antt =====
-- Actions that always return, whatever becomes of their commands: the value that they return, and
-- a clock that does not go back.
use brain_mate.Common.{ℕ, ◌≡◌, refl, ◌≤◌, Bool, true, false, List, [], ◌∷◌, if◌then◌else◌, arith}
use brain_mate.Errors.{Error}
use brain_mate.Exec.{
  World, Exec, Result, ok, err, Wire, fine, lost, late, pure, resume, catch, handle, deliver,
  command, advance, date_now, is_circuit_open, ◌>>=◌,
}

-- the clock does not go back, whether the action returns or throws
pub record Onward {S A : Type 0} (m : Exec S A) : Type 0 where
  pub at : (w : World S) → w.clock ≤ (m w).1.clock

abbrev pub Good : {S A : Type 0} → (A → World S → Type 0) → Result A × World S → Type 0
Good Q (ok a, w) = Q a w
Good Q (err e, w) = ⊥

-- From a world of the first predicate, the action returns a value and a world of the second one.
pub record Succeeds {S A : Type 0} (P : World S → Type 0) (Q : A → World S → Type 0) (m : Exec S A)
    : Type 0 where
  pub at : (w : World S) → P w → Good Q (m w)

-- The action returns a value of the predicate, and the clock does not go back.
pub record Yields {S A : Type 0} (V : A → Type 0) (m : Exec S A) : Type 0 where
  pub at : (w : World S) → Good (λ a w'. V a × (w.clock ≤ w'.clock)) (m w)

abbrev pub Anything : {A : Type 0} → A → Type 0
Anything a = Unit

module _ {S A : Type 0} where
  pub Onward-pure : (a : A) → Onward {S = S} (pure a)
  Onward-pure a = record { at = λ w. omega arith }

  pub Onward-if : (b : Bool) (m n : Exec S A) → Onward m → Onward n → Onward (if b then m else n)
  Onward-if true m n hm hn = hm
  Onward-if false m n hm hn = hn

  deliver_onward : (ws : List Wire) (x : A × S) (w : World S) → w.clock ≤ (deliver ws x w).1.clock
  deliver_onward [] x w = omega arith
  deliver_onward (fine ∷ ws) x w = omega arith
  deliver_onward (lost m ∷ ws) x w = omega arith
  deliver_onward (late m ∷ ws) x w = omega arith

  pub Onward-command : (f : S → A × S) → Onward (command f)
  unfolding command
  Onward-command f = record { at = λ w. deliver_onward w.wire (f w.redis) w }

module _ {S A B : Type 0} where
  resume-Onward :
      (x : Result A × World S) (f : A → Exec S B) (n : ℕ)
      → n ≤ x.1.clock
      → ((a : A) → Onward (f a))
      → n ≤ (resume x f).1.clock
  resume-Onward (ok a, w) f n h hf = omega (arith, h, (hf a).at w)
  resume-Onward (err e, w) f n h hf = h

  pub Onward-bind :
      (m : Exec S A) (f : A → Exec S B) → Onward m → ((a : A) → Onward (f a)) → Onward (m >>= f)
  Onward-bind m f hm hf = record { at = λ w. resume-Onward (m w) f w.clock (hm.at w) hf }

Good-onward :
    {S A : Type 0} (V : A → Type 0) (x : Result A × World S) (n : ℕ)
    → Good (λ a w'. V a × (n ≤ w'.clock)) x
    → n ≤ x.1.clock
Good-onward V (ok a, w) n h = h.1
Good-onward V (err e, w) n h = absurd h

Good-value :
    {S A : Type 0} (V : A → Type 0) (P : World S → Type 0) (x : Result A × World S) (n : ℕ)
    → ((w : World S) → n ≤ w.clock → P w)
    → Good (λ a w'. V a × (n ≤ w'.clock)) x
    → Good (λ a w'. P w' × V a) x
Good-value V P (ok a, w) n up h = (up w h.1, h.0)
Good-value V P (err e, w) n up h = absurd h

Good-resume :
    {S A B : Type 0} (M : A → World S → Type 0) (Q : B → World S → Type 0) (x : Result A × World S)
    (f : A → Exec S B)
    → Good M x
    → ((a : A) (w : World S) → M a w → Good Q (f a w))
    → Good Q (resume x f)
Good-resume M Q (ok a, w) f h k = k a w h
Good-resume M Q (err e, w) f h k = absurd h

Good-later :
    {S A : Type 0} (V : A → Type 0) (x : Result A × World S) (n k : ℕ)
    → n ≤ k
    → Good (λ a w'. V a × (k ≤ w'.clock)) x
    → Good (λ a w'. V a × (n ≤ w'.clock)) x
Good-later V (ok a, w) n k h g = (g.0, omega (arith, h, g.1))
Good-later V (err e, w) n k h g = absurd g

Good-handle :
    {S A : Type 0} (x : Result A × World S) (h : Error → Exec S A) (n : ℕ)
    → n ≤ x.1.clock
    → ((e : Error) → Yields Anything (h e))
    → Good (λ a w'. Anything a × (n ≤ w'.clock)) (handle x h)
Good-handle (ok a, w) h n p k = (tt, p)
Good-handle (err e, w) h n p k = Good-later Anything (h e w) n w.clock p ((k e).at w)

module _ {S A : Type 0} {V : A → Type 0} where
  pub Yields-pure : (a : A) → V a → Yields {S = S} V (pure a)
  Yields-pure a v = record { at = λ w. (v, omega arith) }

  pub Yields-if :
      (b : Bool) (m n : Exec S A)
      → (b ≡ true → Yields V m)
      → (b ≡ false → Yields V n)
      → Yields V (if b then m else n)
  Yields-if true m n hm hn = hm refl
  Yields-if false m n hm hn = hn refl

  pub Yields-Onward : (m : Exec S A) → Yields V m → Onward m
  Yields-Onward m y = record { at = λ w. Good-onward V (m w) w.clock (y.at w) }

  -- an action that yields, before one that needs the world that it started from
  pub Succeeds-of_Yields :
      (P : World S → Type 0) (m : Exec S A)
      → ((w w' : World S) → P w → w.clock ≤ w'.clock → P w')
      → Yields V m
      → Succeeds P (λ a w. P w × V a) m
  Succeeds-of_Yields P m up y = record {
    at = λ w p. Good-value V P (m w) w.clock (λ w' h. up w w' p h) (y.at w);
  }

module _ {S A : Type 0} where
  -- try and catch: what the block returns is not said
  pub Yields-catch :
      (m : Exec S A) (h : Error → Exec S A)
      → Onward m
      → ((e : Error) → Yields Anything (h e))
      → Yields Anything (catch m h)
  Yields-catch m h km kh = record { at = λ w. Good-handle (m w) h w.clock (km.at w) kh }

Good-weaker :
    {S A : Type 0} (V U : A → Type 0) (x : Result A × World S) (n : ℕ)
    → ((a : A) → V a → U a)
    → Good (λ a w'. V a × (n ≤ w'.clock)) x
    → Good (λ a w'. U a × (n ≤ w'.clock)) x
Good-weaker V U (ok a, w) n k h = (k a h.0, h.1)
Good-weaker V U (err e, w) n k h = absurd h

pub Yields-weaker :
    {S A : Type 0} (V U : A → Type 0) (m : Exec S A)
    → ((a : A) → V a → U a)
    → Yields V m
    → Yields U m
Yields-weaker V U m k y = record { at = λ w. Good-weaker V U (m w) w.clock k (y.at w) }

module _ {S A B : Type 0} {V : A → Type 0} {U : B → Type 0} where
  pub Yields-bind :
      (m : Exec S A) (f : A → Exec S B)
      → Yields V m
      → ((a : A) → V a → Yields U (f a))
      → Yields U (m >>= f)
  Yields-bind m f y k = record {
    at = λ w.
        Good-resume (λ a w'. V a × (w.clock ≤ w'.clock)) _ (m w) f (y.at w)
          (λ a w' v. Good-later U (f a w') w.clock w'.clock v.1 ((k a v.0).at w'));
  }

module _ {S A B : Type 0} {P : World S → Type 0} {M : A → World S → Type 0}
    {Q : B → World S → Type 0} where
  pub Succeeds-then :
      (m : Exec S A) (f : A → Exec S B)
      → Succeeds P M m
      → ((a : A) → Succeeds (M a) Q (f a))
      → Succeeds P Q (m >>= f)
  Succeeds-then m f h k = record {
    at = λ w p. Good-resume M Q (m w) f (h.at w p) (λ a w' q. (k a).at w' q);
  }

module _ {S : Type 0} where
  advance_yields :
      (ts : List ℕ) (w : World S) → Good (λ n w'. Anything n × (w.clock ≤ w'.clock)) (advance ts w)
  advance_yields [] w = (tt, omega arith)
  advance_yields (t ∷ ts) w = (tt, omega arith)

  pub date_now-Yields : Yields {S = S} Anything date_now
  unfolding date_now
  date_now-Yields = record { at = λ w. advance_yields w.ticks w }

  pub is_circuit_open-Yields : Yields {S = S} Anything is_circuit_open
  unfolding is_circuit_open
  is_circuit_open-Yields =
      Yields-bind _ _ date_now-Yields (λ now u. record { at = λ w. (tt, omega arith) })

module _ {S A : Type 0} {P : World S → Type 0} {Q : A → World S → Type 0} where
  pub Succeeds-pure : (a : A) → ((w : World S) → P w → Q a w) → Succeeds P Q (pure a)
  Succeeds-pure a h = record { at = h }

  pub Succeeds-if :
      (b : Bool) (m n : Exec S A)
      → (b ≡ true → Succeeds P Q m)
      → (b ≡ false → Succeeds P Q n)
      → Succeeds P Q (if b then m else n)
  Succeeds-if true m n hm hn = hm refl
  Succeeds-if false m n hm hn = hn refl

  pub Succeeds-weaker :
      (P' : World S → Type 0) (m : Exec S A)
      → ((w : World S) → P' w → P w)
      → Succeeds P Q m
      → Succeeds P' Q m
  Succeeds-weaker P' m k h = record { at = λ w p. h.at w (k w p) }

module _ {S : Type 0} (P : World S → Type 0)
    (up : (w w' : World S) → P w → w.clock ≤ w'.clock → P w') where
  advance-Succeeds :
      (ts : List ℕ) (w : World S) → P w → Good (λ now w'. P w' × (now ≡ w'.clock)) (advance ts w)
  advance-Succeeds [] w p = (p, refl)
  advance-Succeeds (t ∷ ts) w p = (up w _ p (omega arith), refl)

  -- the moment that is read is the clock's
  pub date_now-Succeeds : Succeeds P (λ now w. P w × (now ≡ w.clock)) date_now
  unfolding date_now
  date_now-Succeeds = record { at = λ w p. advance-Succeeds w.ticks w p }

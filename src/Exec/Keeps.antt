-- ===== src/Exec/Keeps.antt =====
-- Invariants of actions, one rule for each way to build an action. An invariant holds after the
-- action whether it returns or throws, whatever becomes of its commands.
use brain_mate.Common.{Option, none, some}
use brain_mate.Errors.{Error}
use brain_mate.Exec.{redis_pool, client_or}
use brain_mate.Common.{ℕ, String, ◌≡◌, refl, Bool, true, false, List, [], ◌∷◌, if◌then◌else◌, arith}
use brain_mate.Errors.{Error}
use brain_mate.Exec.{
  World, Exec, Result, ok, err, Wire, fine, lost, late, Reply, replied, unreachable, Request, pure,
  throw, resume, catch, handle, deliver, command, advance, date_now, answer, fetch, fetch_body,
  ◌>>=◌,
}

pub record Keeps {S A : Type 0} (P : World S → Type 0) (m : Exec S A) : Type 0 where
  pub at : (w : World S) → P w → P (m w).1

module _ {S A : Type 0} {P : World S → Type 0} where
  pub Keeps-pure : (a : A) → Keeps P (pure a)
  Keeps-pure a = record { at = λ w h. h }

  pub Keeps-throw : (e : Error) → Keeps P (throw {A = A} e)
  Keeps-throw e = record { at = λ w h. h }

  pub Keeps-if : (b : Bool) (m n : Exec S A) → Keeps P m → Keeps P n → Keeps P (if b then m else n)
  Keeps-if true m n km kn = km
  Keeps-if false m n km kn = kn

  handle-Keeps :
      (x : Result A × World S) (h : Error → Exec S A)
      → P x.1
      → ((e : Error) → Keeps P (h e))
      → P (handle x h).1
  handle-Keeps (ok a, w) h p kh = p
  handle-Keeps (err e, w) h p kh = (kh e).at w p

  pub Keeps-catch :
      (m : Exec S A) (h : Error → Exec S A)
      → Keeps P m
      → ((e : Error) → Keeps P (h e))
      → Keeps P (catch m h)
  Keeps-catch m h km kh = record { at = λ w p. handle-Keeps (m w) h (km.at w p) kh }

module _ {S A B : Type 0} {P : World S → Type 0} where
  resume-Keeps :
      (x : Result A × World S) (f : A → Exec S B)
      → P x.1
      → ((a : A) → Keeps P (f a))
      → P (resume x f).1
  resume-Keeps (ok a, w) f p kf = (kf a).at w p
  resume-Keeps (err e, w) f p kf = p

  pub Keeps-bind :
      (m : Exec S A) (f : A → Exec S B) → Keeps P m → ((a : A) → Keeps P (f a)) → Keeps P (m >>= f)
  Keeps-bind m f km kf = record { at = λ w p. resume-Keeps (m w) f (km.at w p) kf }

-- the client in use changes nothing
client_or-Keeps :
    {S : Type 0} (P : World S → Type 0) (o : Option Error) (w : World S) → P w → P (client_or o w).1
client_or-Keeps P none w p = p
client_or-Keeps P (some e) w p = p

pub redis_pool-Keeps : {S : Type 0} {P : World S → Type 0} → Keeps P redis_pool
unfolding redis_pool
redis_pool-Keeps {P = P} = record { at = λ w p. client_or-Keeps P w.unusable w p }

pub ruleset keeps_rules =
    (redis_pool-Keeps, Keeps-pure, Keeps-throw, Keeps-if, Keeps-catch, Keeps-bind)

-- What follows an action that returned.
pub resume_ok :
    {S A B : Type 0} (x : Result A × World S) (a : A) (f : A → Exec S B)
    → x.0 ≡ ok a
    → resume x f ≡ f a x.1
resume_ok (ok b, w) a f h = cc
resume_ok (err e, w) a f h = absurd (cc)

pub handle_ok :
    {S A : Type 0} (x : Result A × World S) (a : A) (h : Error → Exec S A)
    → x.0 ≡ ok a
    → handle x h ≡ x
handle_ok (ok b, w) a h e = refl
handle_ok (err x, w) a h e = absurd (cc)

pub date_now_reply :
    {S : Type 0} (w : World S)
    → ((date_now w).0 ≡ ok (date_now w).1.clock)
      × ((date_now w).1.redis ≡ w.redis)
      × ((date_now w).1.wire ≡ w.wire)
unfolding date_now
date_now_reply w = ground arith

-- An invariant of the server's state.
pub record On {S : Type 0} (Q : S → Type 0) (w : World S) : Type 0 where
  pub holds : Q w.redis

module _ {S A : Type 0} {Q : S → Type 0} where
  deliver-On : (ws : List Wire) (x : A × S) (w : World S) → Q x.1 → On Q w → On Q (deliver ws x w).1
  deliver-On [] (a, s) w h p = record { holds = h }
  deliver-On (fine ∷ ws) (a, s) w h p = record { holds = h }
  deliver-On (lost m ∷ ws) (a, s) w h p = record { holds = p.holds }
  deliver-On (late m ∷ ws) (a, s) w h p = record { holds = h }

  pub command-On : (f : S → A × S) → ((s : S) → Q s → Q (f s).1) → Keeps (On Q) (command f)
  unfolding command
  command-On f kf = record { at = λ w p. deliver-On w.wire (f w.redis) w (kf w.redis p.holds) p }

module _ {S : Type 0} {Q : S → Type 0} where
  advance-On : (ts : List ℕ) (w : World S) → On Q w → On Q (advance ts w).1
  advance-On [] w p = p
  advance-On (t ∷ ts) w p = record { holds = p.holds }

  pub date_now-On : Keeps (On Q) date_now
  unfolding date_now
  date_now-On = record { at = λ w p. advance-On w.ticks w p }

  answer-On : (rs : List Reply) (w : World S) → On Q w → On Q (answer rs w).1
  answer-On [] w p = p
  answer-On (replied n body ∷ rs) w p = record { holds = p.holds }
  answer-On (unreachable m ∷ rs) w p = record { holds = p.holds }

  pub fetch_body-On : (r : Request) (token : String) → Keeps (On Q) (fetch_body r token)
  unfolding fetch_body
  fetch_body-On r token = record { at = λ w p. answer-On w.replies _ (record { holds = p.holds }) }

  pub fetch-On : (r : Request) (token : String) → Keeps (On Q) (fetch r token)
  unfolding fetch
  fetch-On r token = Keeps-bind _ _ (fetch_body-On r token) (λ reply. Keeps-pure reply.0)

-- No command fails from here on.
pub record IsCalm {S : Type 0} (w : World S) : Type 0 where
  pub calm : w.wire ≡ []

module _ {S A : Type 0} where
  deliver-IsCalm :
      (ws : List Wire) (x : A × S) (w : World S) → ws ≡ [] → IsCalm w → IsCalm (deliver ws x w).1
  deliver-IsCalm [] (a, s) w e p = record { calm = p.calm }
  deliver-IsCalm (_ ∷ ws) x w e p = absurd (cc)

  pub command-IsCalm : (f : S → A × S) → Keeps IsCalm (command f)
  unfolding command
  command-IsCalm f = record { at = λ w p. deliver-IsCalm w.wire (f w.redis) w p.calm p }

  pub command_lem :
      (f : S → A × S) (w : World S)
      → IsCalm w
      → command f w ≡ (ok (f w.redis).0, record w { redis = (f w.redis).1 })
  unfolding command
  command_lem f w p = rw (p.calm, deliver) refl

module _ {S : Type 0} where
  advance-IsCalm : (ts : List ℕ) (w : World S) → IsCalm w → IsCalm (advance ts w).1
  advance-IsCalm [] w p = p
  advance-IsCalm (t ∷ ts) w p = record { calm = p.calm }

  pub date_now-IsCalm : Keeps IsCalm (date_now {S = S})
  unfolding date_now
  date_now-IsCalm = record { at = λ w p. advance-IsCalm w.ticks w p }

  answer-IsCalm : (rs : List Reply) (w : World S) → IsCalm w → IsCalm (answer rs w).1
  answer-IsCalm [] w p = p
  answer-IsCalm (replied n body ∷ rs) w p = record { calm = p.calm }
  answer-IsCalm (unreachable m ∷ rs) w p = record { calm = p.calm }

  fetch_body-IsCalm : (r : Request) (token : String) → Keeps IsCalm (fetch_body {S = S} r token)
  unfolding fetch_body
  fetch_body-IsCalm r token = record {
    at = λ w p. answer-IsCalm w.replies _ (record { calm = p.calm });
  }

  pub fetch-IsCalm : (r : Request) (token : String) → Keeps IsCalm (fetch {S = S} r token)
  unfolding fetch
  fetch-IsCalm r token = Keeps-bind _ _ (fetch_body-IsCalm r token) (λ reply. Keeps-pure reply.0)

pub ruleset on_rules = (keeps_rules, date_now-On, fetch-On)

pub ruleset calm_rules = (keeps_rules, command-IsCalm, date_now-IsCalm, fetch-IsCalm)

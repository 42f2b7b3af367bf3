-- ===== src/Exec.antt =====
-- The process as its code sees it: the Redis server, the outcome of each command sent to it, the
-- clock, and the services that it calls. An action returns or throws, and changes this world.
pub mod Keeps
pub mod Ensures
pub mod Yields
pub mod Returns
use brain_mate.Common.{ℕ, String, ◌+◌, Bool, Option, none, some, List, [], ◌∷◌, ltb}
use brain_mate.Errors.{Error, failure}

pub data Result {ℓ} (A : Type ℓ) : Type ℓ where
  ok : A → Result A
  err : Error → Result A

-- What becomes of a command: it is answered; it never reaches the server; or it is carried out
-- and the reply is lost. In the last two cases the client throws, with this message.
pub data Wire : Type 0 where
  fine : Wire
  lost late : String → Wire

-- The reply of the auth gateway to a request, its status and its body, or a failed `fetch`.
pub data Reply : Type 0 where
  replied : ℕ → String → Reply
  unreachable : String → Reply

-- A request to the gateway: the body of POST /v1/auth/session, the query of
-- DELETE /v1/auth/session/{sid}, or POST /v1/auth/logout. The token that is sent with it is the
-- internal one, or the bearer's for the last.
pub data Request : Type 0 where
  post_session : String → String → ℕ → ℕ → Request
  delete_session : String → Option String → Option ℕ → Request
  post_logout : Request

-- `circuitState` of lib/reconciliation-worker.ts
pub record CircuitState : Type 0 where
  pub open_until : ℕ
  pub failures : ℕ

-- `enqueueWindow` of lib/reconciliation-worker.ts
pub record EnqueueWindow : Type 0 where
  pub sec : ℕ
  pub count : ℕ

-- `_circuit` of lib/redis.ts
pub record Breaker : Type 0 where
  pub consecutive_errors : ℕ
  pub open_until : ℕ
  pub total_errors : ℕ
  pub total_connects : ℕ

-- `wire`, `ticks` and `replies` are what is still to come; an empty list is a wire that answers, a
-- clock that stands still and a gateway that is down. `unusable` is what `getRedisPool` throws
-- while there is no client in use. `sent` is what went to the gateway, with the token, the last
-- first.
pub record World (S : Type 0) : Type 0 where
  pub redis : S
  pub wire : List Wire
  pub clock : ℕ
  pub ticks : List ℕ
  pub replies : List Reply
  pub sent : List (Request × String)
  pub circuit : CircuitState
  pub window : EnqueueWindow
  pub breaker : Breaker
  pub unusable : Option Error

abbrev pub Exec : Type 0 → Type 0 → Type 0
Exec S A = World S → Result A × World S

module _ {S : Type 0} where
  abbrev pub pure : {A : Type 0} → A → Exec S A
  pure a w = (ok a, w)

  abbrev pub throw : {A : Type 0} → Error → Exec S A
  throw e w = (err e, w)

  abbrev pub resume : {A B : Type 0} → Result A × World S → (A → Exec S B) → Result B × World S
  resume (ok a, w) f = f a w
  resume (err e, w) f = (err e, w)

  infixl 5 ◌>>=◌ ◌>>◌
  abbrev pub ◌>>=◌ : {A B : Type 0} → Exec S A → (A → Exec S B) → Exec S B
  ◌>>=◌ m f w = resume (m w) f

  abbrev pub ◌>>◌ : {A B : Type 0} → Exec S A → Exec S B → Exec S B
  m >> k = m >>= λ _. k

  abbrev pub handle : {A : Type 0} → Result A × World S → (Error → Exec S A) → Result A × World S
  handle (ok a, w) h = (ok a, w)
  handle (err e, w) h = h e w

  -- try { m } catch (e) { h e }
  abbrev pub catch : {A : Type 0} → Exec S A → (Error → Exec S A) → Exec S A
  catch m h w = handle (m w) h

  -- One command: the server's answer and its next state, by what becomes of the command.
  abbrev pub deliver : {A : Type 0} → List Wire → A × S → Exec S A
  deliver [] (a, s) w = (ok a, record w { redis = s })
  deliver (fine ∷ ws) (a, s) w = (ok a, record w { redis = s; wire = ws })
  deliver (lost m ∷ ws) (a, s) w = (err (failure m), record w { wire = ws })
  deliver (late m ∷ ws) (a, s) w = (err (failure m), record w { redis = s; wire = ws })

  unfoldable pub command : {A : Type 0} → (S → A × S) → Exec S A
  command f w = deliver w.wire (f w.redis) w

  -- `Date.now()`: the clock moves on by the next tick first.
  abbrev pub advance : List ℕ → Exec S ℕ
  advance [] w = (ok w.clock, w)
  advance (t ∷ ts) w = (ok (w.clock + t), record w { clock = w.clock + t; ticks = ts })

  unfoldable pub date_now : Exec S ℕ
  date_now w = advance w.ticks w

  -- `fetch` of a gateway URL, with the internal token.
  abbrev pub answer : List Reply → Exec S (ℕ × String)
  answer [] w = (err (failure "fetch failed"), w)
  answer (replied n body ∷ rs) w = (ok (n, body), record w { replies = rs })
  answer (unreachable m ∷ rs) w = (err (failure m), record w { replies = rs })

  unfoldable pub fetch_body : Request → String → Exec S (ℕ × String)
  fetch_body r token w = answer w.replies (record w { sent = (r, token) ∷ w.sent })

  -- the status alone
  unfoldable pub fetch : Request → String → Exec S ℕ
  fetch r token = do reply ← fetch_body r token; pure reply.0

  -- `getRedisPool` of lib/redis.ts, which throws where there is no client, or one that has ended
  abbrev pub client_or : Option Error → Exec S (Unit {0})
  client_or none w = (ok tt, w)
  client_or (some e) w = (err e, w)

  unfoldable pub redis_pool : Exec S (Unit {0})
  redis_pool w = client_or w.unusable w

  -- `isCircuitOpen` of lib/redis.ts: Date.now() < _circuit.openUntil
  unfoldable pub is_circuit_open : Exec S Bool
  unfolding date_now
  is_circuit_open = do now ← date_now; λ w. (ok (ltb now w.breaker.open_until), w)

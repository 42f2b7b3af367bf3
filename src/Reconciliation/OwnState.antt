-- ===== src/Reconciliation/OwnState.antt =====
-- Invariants of the server under the process's own state and the requests to the gateway.
use brain_mate.Common.{ℕ, String, Option, none, some, List, [], ◌∷◌}
use brain_mate.Exec.{Request, date_now, is_circuit_open}
use brain_mate.Exec.Keeps.{Keeps, On, Keeps-bind, on_rules}
use brain_mate.Reconciliation.Window.{allow_enqueue_now, write_window}
use brain_mate.Reconciliation.Gateway.{try_tokens, fetch_with_token_fallback}
use brain_mate.Reconciliation.Worker.{
  record_success, count_failure, open_circuit, record_failure, own_circuit_open,
}

module _ {S : Type 0} {Q : S → Type 0} where
  pub record_success-On : Keeps (On Q) record_success
  unfolding record_success
  record_success-On = record { at = λ w p. record { holds = p.holds } }

  pub count_failure-On : Keeps (On Q) count_failure
  unfolding count_failure
  count_failure-On = record { at = λ w p. record { holds = p.holds } }

  pub open_circuit-On : (until : ℕ) → Keeps (On Q) (open_circuit until)
  unfolding open_circuit
  open_circuit-On until = record { at = λ w p. record { holds = p.holds } }

  pub own_circuit_open-On : Keeps (On Q) own_circuit_open
  unfolding own_circuit_open
  own_circuit_open-On = Keeps-bind date_now _ (search on_rules) (λ now. record { at = λ w p. p })

  pub is_circuit_open-On : Keeps (On Q) is_circuit_open
  unfolding is_circuit_open
  is_circuit_open-On = Keeps-bind date_now _ (search on_rules) (λ now. record { at = λ w p. p })

  pub allow_enqueue_now-On : Keeps (On Q) allow_enqueue_now
  unfolding allow_enqueue_now write_window
  allow_enqueue_now-On =
      Keeps-bind date_now _ (search on_rules)
        (λ now. record { at = λ w p. record { holds = p.holds } })

  pub try_tokens-On :
      (r : Request) (last : Option ℕ) (tokens : List String)
      → Keeps (On Q) (try_tokens r last tokens)
  unfolding try_tokens
  try_tokens-On r none [] = search on_rules
  try_tokens-On r (some status) [] = search on_rules
  try_tokens-On r none (token ∷ tokens) =
      search (on_rules, λ (n : ℕ). try_tokens-On r (some n) tokens)
  try_tokens-On r (some status) (token ∷ tokens) =
      search (on_rules, λ (n : ℕ). try_tokens-On r (some n) tokens)

  pub record_failure-On : Keeps (On Q) record_failure
  unfolding record_failure
  record_failure-On = search (on_rules, count_failure-On, open_circuit-On) depth 7

  pub fetch_with_token_fallback-On :
      (r : Request) (tokens : List String) → Keeps (On Q) (fetch_with_token_fallback r tokens)
  unfolding fetch_with_token_fallback
  fetch_with_token_fallback-On r tokens = try_tokens-On r none tokens

pub ruleset own_state = (
  record_success-On, own_circuit_open-On, is_circuit_open-On, allow_enqueue_now-On,
  record_failure-On, fetch_with_token_fallback-On,
)

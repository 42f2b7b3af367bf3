-- ===== src/Queue/Keys.antt =====
-- The Redis keys of lib/writeright-queue.ts, and `ns` of lib/redis.ts.
use brain_mate.Common.{
  String, ◌≡◌, false, refl, ◌∙◌, sym, ap, List, [], ◌∷◌, ◌<>◌, str_eq, str_eq-false, apart,
}
use text.Mathlib.TextLemmas.{append_assoc}

-- parts.join(":")
unfoldable pub ns : List String → String
ns [] = ""
ns (part ∷ []) = part
ns (part ∷ parts) = part <> (":" <> ns parts)

unfoldable pub jobs_key : String
jobs_key = ns ("writeright" ∷ "jobs" ∷ [])

unfoldable pub job_status_key : String → String
job_status_key job_id = ns ("writeright" ∷ "job" ∷ job_id ∷ [])

unfoldable pub job_result_key : String → String
job_result_key job_id = ns ("writeright" ∷ "result" ∷ job_id ∷ [])

unfoldable pub cache_key : String → String
cache_key input_hash = ns ("writeright" ∷ "cache" ∷ input_hash ∷ [])

unfoldable pub rate_limit_key : String → String
rate_limit_key user_id = ns ("writeright" ∷ "ratelimit" ∷ user_id ∷ [])

unfoldable pub idempotency_key : String → String → String
idempotency_key user_id request_key = ns ("writeright" ∷ "idempotency" ∷ user_id ∷ request_key ∷ [])

-- the keys as a prefix and an identifier
pub ns3 : (a b x : String) → ns (a ∷ b ∷ x ∷ []) ≡ (a <> (":" <> (b <> ":"))) <> x
unfolding ns
ns3 a b x = sym (
    append_assoc a _ x
    ∙ ap (λ t. a <> t) (append_assoc ":" _ x ∙ ap (λ t. ":" <> t) (append_assoc b ":" x)))

-- the queue does not meet the other keys of the module
pub result_key_apart : (x y : String) → str_eq (job_result_key x) (job_status_key y) ≡ false
unfolding job_result_key job_status_key
result_key_apart x y = str_eq-false _ _ (λ e.
    apart "writeright:job:" "writeright:resu" "lt:" y x refl refl
      (sym (ns3 "writeright" "job" y) ∙ sym e ∙ ns3 "writeright" "result" x))

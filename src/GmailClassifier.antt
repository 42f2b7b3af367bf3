-- ===== src/GmailClassifier.antt =====
-- `emailToAvatarColor` of lib/gmail-classifier.ts. A 32-bit integer is its representative under
-- 2 ^ 32, and a text is the list of its UTF-16 code units.
pub mod Hash
mod Tests
use brain_mate.Common.{
  ℕ, zero, suc, String, ◌+◌, ◌-◌, ◌*◌, ◌%◌, ◌^◌, Option, none, some, List, [], ◌∷◌, ltb,
  if◌then◌else◌,
}

abbrev pub avatar_colors : List String
avatar_colors =
    "#d97757" ∷ "#3b82f6" ∷ "#8b5cf6" ∷ "#10b981" ∷ "#f59e0b" ∷ "#ec4899" ∷ "#06b6d4" ∷ "#6366f1"
    ∷ []

abbrev pub color_at : ℕ → List String → Option String
color_at n [] = none
color_at zero (c ∷ cs) = some c
color_at (suc n) (c ∷ cs) = color_at n cs

-- `(hash << 5) - hash + code`, and `hash |= 0`
unfoldable pub hash_step : ℕ → ℕ → ℕ
hash_step hash code = ((hash * 2 ^ 5) % 2 ^ 32 + (2 ^ 32 - hash) + code) % 2 ^ 32

-- the loop
unfoldable pub hash_loop : ℕ → List ℕ → ℕ
hash_loop hash [] = hash
hash_loop hash (code ∷ codes) = hash_loop (hash_step hash code) codes

-- `Math.abs` of a 32-bit integer
unfoldable pub abs_32 : ℕ → ℕ
abs_32 n = if ltb n (2 ^ 31) then n else 2 ^ 32 - n

-- `a ?? "#d97757"`
abbrev pub or_accent : Option String → String
or_accent none = "#d97757"
or_accent (some c) = c

unfoldable pub email_to_avatar_color : List ℕ → String
email_to_avatar_color [] = or_accent (color_at 0 avatar_colors)
email_to_avatar_color (code ∷ codes) =
    or_accent (color_at (abs_32 (hash_loop 0 (code ∷ codes)) % 8) avatar_colors)

-- ===== src/GmailClassifier/Hash.antt =====
-- The hash of `emailToAvatarColor` in lib/gmail-classifier.ts as arithmetic.
use brain_mate.Common.{
  ℕ, zero, suc, String, ◌≡◌, refl, ◌+◌, ◌*◌, ◌%◌, ◌^◌, ◌<◌, some, List, [], ◌∷◌, length, arith,
}
use brain_mate.GmailClassifier.{
  avatar_colors, color_at, hash_step, hash_loop, abs_32, or_accent, email_to_avatar_color,
}

-- the polynomial in 31 whose coefficients are the code units, without bound
pub polynomial : ℕ → List ℕ → ℕ
polynomial acc [] = acc
polynomial acc (code ∷ codes) = polynomial (31 * acc + code) codes

step_lem : (x code : ℕ) → hash_step (x % 2 ^ 32) code ≡ (31 * x + code) % 2 ^ 32
unfolding hash_step
step_lem x code = omega arith

loop_lem :
    (acc : ℕ) (codes : List ℕ) → hash_loop (acc % 2 ^ 32) codes ≡ polynomial acc codes % 2 ^ 32
unfolding hash_loop polynomial
loop_lem acc [] = refl
loop_lem acc (code ∷ codes) = rw (step_lem acc code) (loop_lem (31 * acc + code) codes)

within :
    (n : ℕ) (colors : List String)
    → n < length colors
    → color_at n colors ≡ some (or_accent (color_at n colors))
within n [] h = absurd (omega arith)
within zero (c ∷ colors) h = refl
within (suc n) (c ∷ colors) h = within n colors (omega (arith, h))

loop_zero : (codes : List ℕ) → hash_loop 0 codes ≡ polynomial 0 codes % 2 ^ 32
loop_zero codes = loop_lem 0 codes

-- The colour of an address that is not empty is the one that the Java hash of its code units picks:
-- the loop, with its shifts and its wrap-around at 32 bits, is the polynomial in 31 modulo 2 ^ 32,
-- whose absolute value as a signed number, modulo 8, is a position of the palette; the default
-- after `??` is never taken.
pub color_picked :
    (code : ℕ) (codes : List ℕ)
    → color_at (abs_32 (polynomial 0 (code ∷ codes) % 2 ^ 32) % 8) avatar_colors
      ≡ some (email_to_avatar_color (code ∷ codes))
unfolding email_to_avatar_color
color_picked code codes =
    rw (loop_zero (code ∷ codes))
      (within (abs_32 (polynomial 0 (code ∷ codes) % 2 ^ 32) % 8) avatar_colors (omega arith))

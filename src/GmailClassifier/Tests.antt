-- ===== src/GmailClassifier/Tests.antt =====
-- Avatar colours of concrete addresses.
use brain_mate.Common.{◌≡◌, ◌%◌, ◌^◌, some, [], ◌∷◌}
use brain_mate.GmailClassifier.{avatar_colors, color_at, abs_32, email_to_avatar_color}
use brain_mate.GmailClassifier.Hash.{polynomial, color_picked}

-- "a@b"
color_picked_example :
    color_at (abs_32 (polynomial 0 (97 ∷ 64 ∷ 98 ∷ []) % 2 ^ 32) % 8) avatar_colors
    ≡ some (email_to_avatar_color (97 ∷ 64 ∷ 98 ∷ []))
color_picked_example = color_picked 97 (64 ∷ 98 ∷ [])

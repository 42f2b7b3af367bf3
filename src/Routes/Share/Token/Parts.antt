-- ===== src/Routes/Share/Token/Parts.antt =====
-- Splitting a token at its dots, and putting its parts together again.
use brain_mate.Common.{
  ℕ, ◌≡◌, refl, sym, ap, ◌∙◌, Bool, true, false, ◌||◌, List, [], ◌∷◌, ◌++◌, ◌==◌, arith, Bool-cases,
  inl, inr,
}
use brain_mate.Routes.Share.Token.{dot, joined_by_dot, split, cons_first, same_units}

unfoldable pub has_dot : List ℕ → Bool
has_dot [] = false
has_dot (x ∷ xs) = (x == dot) || has_dot xs

unfoldable pub joined : List (List ℕ) → List ℕ
joined [] = []
joined (part ∷ []) = part
joined (part ∷ next ∷ parts) = part ++ dot ∷ joined (next ∷ parts)

pub split-whole : (xs : List ℕ) → has_dot xs ≡ false → split xs ≡ xs ∷ []
unfolding split has_dot
split-whole [] h = refl
split-whole (x ∷ xs) h = elim (Bool-cases (x == dot)) [
  | inl e ↦ absurd (ground (arith, e, h))
  | inr n ↦ let rest : has_dot xs ≡ false = ground (arith, n, h) in rw (n, split-whole xs rest) refl
]

pub split-joined :
    (xs ys : List ℕ) → has_dot xs ≡ false → split (joined_by_dot xs ys) ≡ xs ∷ split ys
unfolding split has_dot joined_by_dot
split-joined [] ys h = refl
split-joined (x ∷ xs) ys h = elim (Bool-cases (x == dot)) [
  | inl e ↦ absurd (ground (arith, e, h))
  | inr n ↦
      let rest : has_dot xs ≡ false = ground (arith, n, h) in rw (n, split-joined xs ys rest) refl
]

pub joined_by_dot_assoc :
    (a b c : List ℕ) → joined_by_dot (joined_by_dot a b) c ≡ joined_by_dot a (joined_by_dot b c)
unfolding joined_by_dot
joined_by_dot_assoc [] b c = refl
joined_by_dot_assoc (x ∷ a) b c = ap (λ s. x ∷ s) (joined_by_dot_assoc a b c)

-- `split` gives at least one part.
pub data Parts (xs : List ℕ) : Type 0 where
  parts_of : (part : List ℕ) (parts : List (List ℕ)) → split xs ≡ part ∷ parts → Parts xs

split-Parts : (xs : List ℕ) → Parts xs
unfolding split
split-Parts [] = parts_of [] [] refl
split-Parts (x ∷ xs) = elim (split-Parts xs) [
  | parts_of part parts e ↦ elim (Bool-cases (x == dot)) [
    | inl y ↦ parts_of [] (part ∷ parts) (rw (y, e) refl)
    | inr n ↦ parts_of (x ∷ part) parts (rw (n, e) refl)
  ]
]

joined-cons_first : (x : ℕ) (parts : List (List ℕ)) → joined (cons_first x parts) ≡ x ∷ joined parts
unfolding joined
joined-cons_first x [] = refl
joined-cons_first x (part ∷ []) = refl
joined-cons_first x (part ∷ next ∷ parts) = refl

==→≡ : (a b : ℕ) → (a == b) ≡ true → a ≡ b
==→≡ a b h = ground arith

pub joined-split : (xs : List ℕ) → joined (split xs) ≡ xs
unfolding split joined
joined-split [] = refl
joined-split (x ∷ xs) = elim (split-Parts xs) [
  | parts_of part parts e ↦ elim (Bool-cases (x == dot)) [
    | inl y ↦
        let back : joined (part ∷ parts) ≡ xs = ap joined (sym e) ∙ joined-split xs in
        rw (y, e) (ap (λ s. dot ∷ s) back ∙ ap (λ c. c ∷ xs) (sym (==→≡ x dot y)))
    | inr n ↦ rw (n) (joined-cons_first x (split xs) ∙ ap (λ s. x ∷ s) (joined-split xs))
  ]
]

pub same_units_refl : (xs : List ℕ) → same_units xs xs ≡ true
unfolding same_units
same_units_refl [] = refl
same_units_refl (x ∷ xs) =
    let same : (x == x) ≡ true = ground arith in rw (same, same_units_refl xs) refl

pub same_units→≡ : (xs ys : List ℕ) → same_units xs ys ≡ true → xs ≡ ys
unfolding same_units
same_units→≡ [] [] h = refl
same_units→≡ [] (y ∷ ys) h = absurd (cc)
same_units→≡ (x ∷ xs) [] h = absurd (cc)
same_units→≡ (x ∷ xs) (y ∷ ys) h = elim (Bool-cases (x == y)) [
  | inl e ↦
      let rest : same_units xs ys ≡ true = ground (arith, e, h) in
      let tail : xs ≡ ys = same_units→≡ xs ys rest in let head : x ≡ y = ==→≡ x y e in cc
  | inr n ↦ absurd (ground (arith, n, h))
]

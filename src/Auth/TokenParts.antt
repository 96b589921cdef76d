-- ===== src/Auth/TokenParts.antt =====
-- The parts of a token: what is filled up and stripped again, and texts split at full stops.
use microfinance_microservic.Common.{
  ℕ, zero, suc, ◌+◌, ◌-◌, ◌%◌, ◌≤◌, ◌≡◌, refl, ap, ◌∙◌, true, List, [], ◌∷◌, ◌++◌, nat_eq,
  nat_eq_iff, lt→ltb, replicate, All, arith, Bool-cases, inl, inr,
}
use microfinance_microservic.Iso8583.Bcd.{Text}
use microfinance_microservic.Auth.Passwords.{same_text}
use microfinance_microservic.Auth.Tokens.{IsSafe, kept, rstrip_eq, cons_first, split_dots, is_ascii}

rstrip_fill : (k : ℕ) → rstrip_eq (replicate k 61) ≡ []
unfolding rstrip_eq
rstrip_fill zero = refl
rstrip_fill (suc k) = rw (rstrip_fill k) refl

-- Safe characters stay when what they are filled up with is stripped.
pub rstrip_safe : (s : Text) (k : ℕ) → All IsSafe s → rstrip_eq (s ++ replicate k 61) ≡ s
unfolding rstrip_eq
rstrip_safe [] k h = rstrip_fill k
rstrip_safe (c ∷ []) k ((small, e, d), hs) = rw (rstrip_fill k, e) refl
rstrip_safe (c ∷ x ∷ s) k (h, hs) = ap (kept c) (rstrip_safe (x ∷ s) k hs)

pub fill_lem : (n k : ℕ) → k ≤ 2 → (n + k) % 4 ≡ 0 → (4 - n % 4) % 4 ≡ k
fill_lem n k h e = omega (arith, h, e)

pub safe_ascii : (s : Text) → All IsSafe s → is_ascii s ≡ true
safe_ascii [] h = refl
safe_ascii (c ∷ s) ((small, e, d), hs) = rw (lt→ltb c 128 small) (safe_ascii s hs)

pub same_text_refl : (s : Text) → same_text s s ≡ true
unfolding same_text
same_text_refl [] = refl
same_text_refl (c ∷ s) = rw ((nat_eq_iff c c).1 refl) (same_text_refl s)

pub same_text-eq : (s t : Text) → same_text s t ≡ true → s ≡ t
unfolding same_text
same_text-eq [] [] h = refl
same_text-eq [] (d ∷ t) h = cc
same_text-eq (c ∷ s) [] h = cc
same_text-eq (c ∷ s) (d ∷ t) h = ground (arith, nat_eq_iff c d, same_text-eq s t)

pub split_safe : (s : Text) → All IsSafe s → split_dots s ≡ s ∷ []
unfolding split_dots
split_safe [] h = refl
split_safe (c ∷ s) ((small, e, d), hs) = rw (d, split_safe s hs) refl

pub split_dot : (s t : Text) → All IsSafe s → split_dots (s ++ 46 ∷ t) ≡ s ∷ split_dots t
unfolding split_dots
split_dot [] t h = refl
split_dot (c ∷ s) t ((small, e, d), hs) = rw (d, split_dot s t hs) refl

unfoldable pub joined : List Text → Text
joined [] = []
joined (part ∷ []) = part
joined (part ∷ next ∷ parts) = part ++ 46 ∷ joined (next ∷ parts)

joined_first : (c : ℕ) (parts : List Text) → joined (cons_first c parts) ≡ c ∷ joined parts
unfolding joined
joined_first c [] = refl
joined_first c (part ∷ []) = refl
joined_first c (part ∷ next ∷ parts) = refl

split_cons : (s : Text) → (part : Text) × (parts : List Text) × (split_dots s ≡ part ∷ parts)
unfolding split_dots
split_cons [] = ([], [], refl)
split_cons (c ∷ s) =
    let (part, parts, e) = split_cons s in
    elim (Bool-cases (nat_eq c 46)) [
      | inl dot ↦ ([], split_dots s, rw dot refl)
      | inr other ↦ (c ∷ part, parts, rw (other, e) refl)
    ]

joined_dot :
    (parts : List Text) {part : Text} {others : List Text}
    → parts ≡ part ∷ others
    → joined ([] ∷ parts) ≡ 46 ∷ joined parts
unfolding joined
joined_dot [] e = cc
joined_dot (part ∷ parts) e = refl

pub joined-split_dots : (s : Text) → joined (split_dots s) ≡ s
unfolding joined split_dots
joined-split_dots [] = refl
joined-split_dots (c ∷ s) = elim (Bool-cases (nat_eq c 46)) [
  | inl dot ↦ rw dot (
      joined_dot (split_dots s) (split_cons s).2
      ∙ cc (joined-split_dots s, (nat_eq_iff c 46).0 dot))
  | inr other ↦ rw other (joined_first c (split_dots s) ∙ ap (λ t. c ∷ t) (joined-split_dots s))
]

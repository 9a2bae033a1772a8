-- ===== src/Audit/Checks.antt =====
-- The lists of named checks of gacha_engine_service/pull_audit.py: what it means that none has failed.
use gacha_engine_service.Prelude.{
  ℕ, ◌≡◌, refl, ap, String, Bool, true, false, Option, none, some, List, [], ◌∷◌, inl, inr, arith,
  eq_iff, eq_refl, is_empty, if◌then◌else◌, ◌++◌, ◌⊎◌, All,
}
use gacha_engine_service.Audit.{verified, failed_checks, same_text, same_number, mismatch}

failed_checks-All :
    (checks : List (String × Bool)) → failed_checks checks ≡ [] → All (λ c. c.1 ≡ true) checks
unfolding failed_checks
failed_checks-All [] h = tt
failed_checks-All ((name, true) ∷ checks) h = (refl, failed_checks-All checks h)
failed_checks-All ((name, false) ∷ checks) h = absurd (ground arith)

pub failed_checks_none :
    (checks : List (String × Bool)) → All (λ c. c.1 ≡ true) checks → failed_checks checks ≡ []
unfolding failed_checks
failed_checks_none [] h = refl
failed_checks_none ((name, passed) ∷ checks) (e, h) = rw (e) (failed_checks_none checks h)

pub All-append :
    (xs ys : List (String × Bool))
    → All (λ c. c.1 ≡ true) xs
    → All (λ c. c.1 ≡ true) ys
    → All (λ c. c.1 ≡ true) (xs ++ ys)
All-append [] ys h k = k
All-append (x ∷ xs) ys (e, h) k = (e, All-append xs ys h k)

pub same_text_eq : (a b : Option String) → same_text a b ≡ true → a ≡ b
same_text_eq none none h = refl
same_text_eq none (some t) h = absurd (ground arith)
same_text_eq (some s) none h = absurd (ground arith)
same_text_eq (some s) (some t) h = ap some ((eq_iff s t).0 h)

empty_of :
    (names : List String) → (if is_empty names then verified else mismatch) ≡ verified → names ≡ []
empty_of [] h = refl
empty_of (name ∷ names) h = absurd (ground arith)

pub passed_checks :
    (checks : List (String × Bool))
    → (if is_empty (failed_checks checks) then verified else mismatch) ≡ verified
    → All (λ c. c.1 ≡ true) checks
passed_checks checks h = failed_checks-All checks (empty_of (failed_checks checks) h)

pub same_text_refl : (a : Option String) → same_text a a ≡ true
same_text_refl none = refl
same_text_refl (some s) = eq_refl s

pub same_number_refl : (a : Option ℕ) → same_number a a ≡ true
same_number_refl none = refl
same_number_refl (some n) = ground arith

pub List-cases {ℓ} :
    {A : Type ℓ} (xs : List A) → (xs ≡ []) ⊎ ((x : A) × (rest : List A) × (xs ≡ x ∷ rest))
List-cases [] = inl refl
List-cases (x ∷ xs) = inr (x, xs, refl)

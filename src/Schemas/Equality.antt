-- ===== src/Schemas/Equality.antt =====
-- `==` of the pydantic models, and `is distinct from` of the database on their JSON: by all fields.
use native.Mathlib.Decide.{ℕ_discrete}
use gacha_engine_service.Prelude.{
  ◌≡◌, refl, ◌↔◌, String, Bool, true, false, Option, List, eq_iff, str_eq,
}
use gacha_engine_service.Schemas.{PullRecord, PitySnapshot, PullResponse, PullCompletedEvent}

decide_text : (s t : String) (b : Bool) → str_eq s t ≡ b → Dec (s ≡ t)
decide_text s t true e = yes ((eq_iff s t).0 e)
decide_text s t false e = no (λ p. cc (e, (eq_iff s t).1 p))

unfoldable pub String-discrete : Discrete String
unfolding decide_text
String-discrete s t = decide_text s t (str_eq s t) refl

abbrev pub decided {ℓ} : {A : Type ℓ} → Dec A → Bool
decided (yes p) = true
decided (no p) = false

pub decided_iff {ℓ} : {A : Type ℓ} (d : Dec A) → (decided d ≡ true) ↔ A
decided_iff (yes p) = (λ _. p, λ _. refl)
decided_iff (no p) = (λ e. cc, λ a. absurd (p a))

unfoldable pub responses-discrete : Discrete (Option PullResponse)
unfolding String-discrete ℕ_discrete
responses-discrete = hlevel (String-discrete, ℕ_discrete)

unfoldable pub events-discrete : Discrete (Option PullCompletedEvent)
unfolding String-discrete ℕ_discrete
events-discrete = hlevel (String-discrete, ℕ_discrete)

unfoldable pub records-discrete : Discrete (List PullRecord)
unfolding String-discrete ℕ_discrete
records-discrete = hlevel (String-discrete, ℕ_discrete)

unfoldable pub snapshot-discrete : Discrete PitySnapshot
unfolding ℕ_discrete
snapshot-discrete = hlevel ℕ_discrete

-- ===== src/Prelude/Entries.antt =====
-- Predicates that hold of every entry of a Python dict.
use mathlib.Core.Path.{◌≡◌}
use mathlib.Core.Logic.{inl, inr}
use mathlib.Core.List.{[], ◌∷◌}
use mathlib.Core.Option.{some}
use native.Mathlib.Omega.{arith}
use gacha_engine_service.Prelude.Tests.{Bool-cases}
use gacha_engine_service.Prelude.Lists.{All}
use gacha_engine_service.Prelude.Dict.{Dict, Eq, lookup, insert}

module _ {ℓ κ μ} {K : Type ℓ} ⦃e : Eq K⦄ {V : Type κ} where
  -- `P` holds of every key with its value.
  abbrev pub Entries : (K → V → Type μ) → Dict K V → Type μ
  Entries P d = All (λ (entry : K × V). P entry.0 entry.1) d

  module _ (P : K → V → Type μ) where
    pub Entries-lookup : (k : K) (d : Dict K V) {v : V} → Entries P d → lookup k d ≡ some v → P k v
    Entries-lookup k [] h found = absurd (ground arith)
    Entries-lookup k ((j, w) ∷ d) {v} h found = elim (Bool-cases (e.beq j k)) [
      | inl same ↦
          let keys : j ≡ k = (e.beq_iff j k).0 same in
          let values : w ≡ v = ground arith in rw (← keys, ← values) h.0
      | inr other ↦ Entries-lookup k d h.1 (ground arith)
    ]

    pub Entries-insert :
        (k : K) (v : V) (d : Dict K V) → P k v → Entries P d → Entries P (insert k v d)
    Entries-insert k v [] p h = (p, tt)
    Entries-insert k v ((j, w) ∷ d) p h = elim (Bool-cases (e.beq j k)) [
      | inl same ↦ let keys : j ≡ k = (e.beq_iff j k).0 same in rw same (rw keys p, h.1)
      | inr other ↦ rw other (h.0, Entries-insert k v d p h.1)
    ]

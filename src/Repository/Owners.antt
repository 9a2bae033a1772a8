-- ===== src/Repository/Owners.antt =====
-- The rates and rules of a release stand under their own rarities, each rarity once for an owner.
use gacha_engine_service.Prelude.{
  ℕ, ◌≡◌, refl, String, Option, none, some, List, [], ◌∷◌, inl, inr, Option-cases,
}
use gacha_engine_service.Prelude.Dict.{
  Dict, nat_eq, string_eq, lookup, insert, UniqueKeys, insert-UniqueKeys,
}
use gacha_engine_service.Prelude.Entries.{Entries, Entries-lookup, Entries-insert}
use gacha_engine_service.Prelude.Result.{Ensures, Ensures-each}
use gacha_engine_service.CatalogConfig.{RarityRate, FeaturedRule, PityRule}
use gacha_engine_service.Operations.RoundTrip.{Keyed}
use gacha_engine_service.Repository.Values.{Values, Row}
use gacha_engine_service.Repository.Rows.{
  text, rate_from_row, featured_rule_from_row, pity_rule_from_row, put, rarity_rates_by_owner,
  featured_rules_by_owner, pity_rules_by_owner,
}
use gacha_engine_service.Repository.Build.{chosen_rules}

module _ {A : Type 0} (rarity : A → ℕ) where
  -- The rules of one owner.
  abbrev pub OwnRules : Dict ℕ A → Type 0
  OwnRules d = UniqueKeys d × Keyed rarity d

  abbrev pub Owned : Dict String (Dict ℕ A) → Type 0
  Owned d = Entries (λ _ rules. OwnRules rules) d

  insert-Keyed : (a : A) (d : Dict ℕ A) → Keyed rarity d → Keyed rarity (insert (rarity a) a d)
  insert-Keyed a d h = Entries-insert (λ k b. k ≡ rarity b) (rarity a) a d refl h

  found_rules :
      (owner_id : String) (d : Dict String (Dict ℕ A))
      → Owned d
      → OwnRules (elim (lookup owner_id d) as (λ _. Dict ℕ A) [ none ↦ [] | some rules ↦ rules ])
  found_rules owner_id d h = elim (Option-cases (lookup owner_id d)) [
    | inl e ↦ rw e (tt, tt)
    | inr (rules, e) ↦ rw e (Entries-lookup (λ _ r. OwnRules r) owner_id d h e)
  ]

  put-Owned :
      (V : Values) (owner_id : String) (a : A) (d : Dict String (Dict ℕ A))
      → Owned d
      → Owned (put V owner_id (rarity a) a d)
  put-Owned V owner_id a d h =
      let (unique, keyed) = found_rules owner_id d h in
      Entries-insert (λ _ r. OwnRules r) owner_id _ d
        (insert-UniqueKeys (rarity a) a _ unique, insert-Keyed a _ keyed) h

  pub chosen_rules-Own :
      (rule_set_id : Option String) (version_id : String)
      (by_rule_set by_version : Dict String (Dict ℕ A))
      → Owned by_rule_set
      → Owned by_version
      → OwnRules (chosen_rules rule_set_id version_id by_rule_set by_version)
  chosen_rules-Own none version_id by_rule_set by_version h k = found_rules version_id by_version k
  chosen_rules-Own (some id) version_id by_rule_set by_version h k =
      elim (Option-cases (lookup id by_rule_set)) [
        | inl e ↦ rw (e, chosen_rules) (found_rules version_id by_version k)
        | inr (rules, e) ↦
            rw (e, chosen_rules) (Entries-lookup (λ _ r. OwnRules r) id by_rule_set h e)
      ]

module _ (V : Values) (owner_key : String) where
  pub rarity_rates-Owned :
      (rows : List (Row V)) (found : Dict String (Dict ℕ RarityRate))
      → Owned (λ r. r.rarity) found
      → Ensures (Owned (λ r. r.rarity)) (rarity_rates_by_owner V owner_key rows found)
  unfolding rarity_rates_by_owner
  rarity_rates-Owned [] found h = h
  rarity_rates-Owned (row ∷ rows) found h =
      Ensures-each (Owned (λ r. r.rarity)) (text V row owner_key) _ λ owner_id.
        Ensures-each (Owned (λ r. r.rarity)) (rate_from_row V row) _
          λ rate. rarity_rates-Owned rows _ (put-Owned (λ r. r.rarity) V owner_id rate found h)

  pub featured_rules-Owned :
      (rows : List (Row V)) (found : Dict String (Dict ℕ FeaturedRule))
      → Owned (λ r. r.rarity) found
      → Ensures (Owned (λ r. r.rarity)) (featured_rules_by_owner V owner_key rows found)
  unfolding featured_rules_by_owner
  featured_rules-Owned [] found h = h
  featured_rules-Owned (row ∷ rows) found h =
      Ensures-each (Owned (λ r. r.rarity)) (text V row owner_key) _ λ owner_id.
        Ensures-each (Owned (λ r. r.rarity)) (featured_rule_from_row V row) _
          λ rule. featured_rules-Owned rows _ (put-Owned (λ r. r.rarity) V owner_id rule found h)

  pub pity_rules-Owned :
      (rows : List (Row V)) (found : Dict String (Dict ℕ PityRule))
      → Owned (λ r. r.rarity) found
      → Ensures (Owned (λ r. r.rarity)) (pity_rules_by_owner V owner_key rows found)
  unfolding pity_rules_by_owner
  pity_rules-Owned [] found h = h
  pity_rules-Owned (row ∷ rows) found h =
      Ensures-each (Owned (λ r. r.rarity)) (text V row owner_key) _ λ owner_id.
        Ensures-each (Owned (λ r. r.rarity)) (pity_rule_from_row V row) _
          λ rule. pity_rules-Owned rows _ (put-Owned (λ r. r.rarity) V owner_id rule found h)

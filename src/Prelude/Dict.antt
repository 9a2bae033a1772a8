-- ===== src/Prelude/Dict.antt =====
-- Python dicts in insertion order, keyed by numbers (`Dict ℕ`) or by texts.
use gacha_engine_service.Prelude.Tests.{◌==◌, ==_iff, str_eq, if◌then◌else◌, leb}
use Prim.Native.Nat.{ℕ}
use Prim.Native.String.{String}
use mathlib.Core.Path.{◌≡◌, refl}
use mathlib.Core.Logic.{◌↔◌}
use mathlib.Core.Bool.{Bool, true}
use mathlib.Core.List.{List, [], ◌∷◌}
use mathlib.Core.Option.{Option, none, some}
use native.Mathlib.Omega.{arith}
use text.Mathlib.TextEquality.{eq_iff}

-- Keys are compared by `beq`.
pub record Eq {ℓ} (A : Type ℓ) : Type ℓ where
  pub beq : A → A → Bool
  pub beq_iff : (a b : A) → (beq a b ≡ true) ↔ (a ≡ b)

abbrev nat_beq : ℕ → ℕ → Bool
nat_beq a b = a == b

instance abbrev pub nat_eq : Eq ℕ
nat_eq = record { beq = nat_beq; beq_iff = ==_iff }

instance abbrev pub string_eq : Eq String
string_eq = record { beq = str_eq; beq_iff = eq_iff }

abbrev pub or_else {ℓ} : {A : Type ℓ} → Option A → Option A → Option A
or_else none b = b
or_else (some a) b = some a

abbrev pub Dict {ℓ κ} : Type ℓ → Type κ → Type (ℓ ⊔ κ)
Dict K V = List (K × V)

module _ {ℓ κ} {K : Type ℓ} ⦃e : Eq K⦄ {V : Type κ} where
  -- `d.get(k)`
  abbrev pub lookup : K → Dict K V → Option V
  lookup k [] = none
  lookup k ((j, v) ∷ d) = if e.beq j k then some v else lookup k d

  -- `d[k] = v`
  abbrev pub insert : K → V → Dict K V → Dict K V
  insert k v [] = (k, v) ∷ []
  insert k v ((j, w) ∷ d) = if e.beq j k then (j, v) ∷ d else (j, w) ∷ insert k v d

  pub lookup-insert :
      (k j : K) (v : V) (d : Dict K V)
      → lookup j (insert k v d) ≡ (if e.beq k j then some v else lookup j d)
  lookup-insert k j v [] = refl
  lookup-insert k j v ((i, w) ∷ d) =
      ground (arith, e.beq_iff k j, e.beq_iff i k, e.beq_iff i j, lookup-insert k j v d)

  -- A dict comprehension: the entries in order, a later one for a key replacing an earlier one.
  abbrev pub of_entries : Dict K V → Dict K V → Dict K V
  of_entries [] found = found
  of_entries ((k, v) ∷ entries) found = of_entries entries (insert k v found)

  -- No key is listed twice, as in every Python dict.
  abbrev pub UniqueKeys : Dict K V → Type κ
  UniqueKeys [] = Unit
  UniqueKeys ((k, v) ∷ d) = (lookup k d ≡ none) × UniqueKeys d

  pub lookup-of_entries :
      (q : K) (entries found : Dict K V)
      → UniqueKeys entries
      → lookup q (of_entries entries found) ≡ or_else (lookup q entries) (lookup q found)
  lookup-of_entries q [] found u = refl
  lookup-of_entries q ((k, v) ∷ entries) found u =
      rw (lookup-of_entries q entries (insert k v found) u.1, lookup-insert k q v found)
        (ground (arith, u.0, e.beq_iff k q))

  pub insert-UniqueKeys : (k : K) (v : V) (d : Dict K V) → UniqueKeys d → UniqueKeys (insert k v d)
  insert-UniqueKeys k v [] u = (refl, tt)
  insert-UniqueKeys k v ((j, w) ∷ d) u =
      ground (arith, e.beq_iff j k, e.beq_iff k j, lookup-insert k j v d, insert-UniqueKeys k v d)

  pub of_entries-UniqueKeys :
      (entries found : Dict K V) → UniqueKeys found → UniqueKeys (of_entries entries found)
  of_entries-UniqueKeys [] found u = u
  of_entries-UniqueKeys ((k, v) ∷ entries) found u =
      of_entries-UniqueKeys entries (insert k v found) (insert-UniqueKeys k v found u)

module _ {κ} {V : Type κ} where
  abbrev pub insert_sorted : ℕ × V → Dict ℕ V → Dict ℕ V
  insert_sorted (k, v) [] = (k, v) ∷ []
  insert_sorted (k, v) ((j, w) ∷ d) =
      if leb k j then (k, v) ∷ (j, w) ∷ d else (j, w) ∷ insert_sorted (k, v) d

  -- `sorted(d.items())`, for a dict with number keys.
  abbrev pub sorted : Dict ℕ V → Dict ℕ V
  sorted [] = []
  sorted (entry ∷ d) = insert_sorted entry (sorted d)

  lookup-insert_sorted :
      (q k : ℕ) (v : V) (d : Dict ℕ V)
      → lookup q (insert_sorted (k, v) d) ≡ (if k == q then some v else lookup q d)
  lookup-insert_sorted q k v [] = refl
  lookup-insert_sorted q k v ((j, w) ∷ d) = ground (arith, lookup-insert_sorted q k v d)

  pub lookup-sorted : (q : ℕ) (d : Dict ℕ V) → lookup q (sorted d) ≡ lookup q d
  lookup-sorted q [] = refl
  lookup-sorted q ((k, v) ∷ d) = rw (lookup-insert_sorted q k v (sorted d), lookup-sorted q d)

  insert_sorted-UniqueKeys :
      (k : ℕ) (v : V) (d : Dict ℕ V)
      → lookup k d ≡ none
      → UniqueKeys d
      → UniqueKeys (insert_sorted (k, v) d)
  insert_sorted-UniqueKeys k v [] fresh u = (refl, tt)
  insert_sorted-UniqueKeys k v ((j, w) ∷ d) fresh u =
      ground (arith, insert_sorted-UniqueKeys k v d, lookup-insert_sorted j k v d)

  pub sorted-UniqueKeys : (d : Dict ℕ V) → UniqueKeys d → UniqueKeys (sorted d)
  sorted-UniqueKeys [] u = tt
  sorted-UniqueKeys ((k, v) ∷ d) u =
      insert_sorted-UniqueKeys k v (sorted d) (rw (lookup-sorted k d) u.0) (sorted-UniqueKeys d u.1)

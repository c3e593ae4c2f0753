-- ===== src/Map.antt =====
-- `std::map`: an association list, kept in the order in which the program iterates over it.
pub mod Each
use ft_irc.Base.{
  ℕ, ◌≡◌, refl, ◌∙◌, ◌↔◌, Bool, true, false, Option, none, some, List, [], ◌∷◌, arith, Text, ◌==◌,
  ltb, ==_iff, text_eq, text_lt, text_eq_iff, if◌then◌else◌, map, Bool-cases, inl, inr,
}

pub record Key {ℓ} (K : Type ℓ) : Type ℓ where
  pub beq : K → K → Bool
  pub before : K → K → Bool
  pub beq_iff : (a b : K) → (beq a b ≡ true) ↔ (a ≡ b)

instance abbrev pub nat_key : Key ℕ
nat_key = record { beq = ◌==◌; before = ltb; beq_iff = ==_iff }

instance abbrev pub text_key : Key Text
text_key = record { beq = text_eq; before = text_lt; beq_iff = text_eq_iff }

abbrev pub Map {ℓ κ} : Type ℓ → Type κ → Type (ℓ ⊔ κ)
Map K V = List (K × V)

beq_refl {ℓ} : {K : Type ℓ} ⦃o : Key K⦄ (k : K) → o.beq k k ≡ true
beq_refl ⦃o⦄ k = (o.beq_iff k k).1 refl

module _ {ℓ κ} {K : Type ℓ} {V : Type κ} ⦃o : Key K⦄ where
  -- `m.find(k)`; `none` is `m.end()`.
  unfoldable pub lookup : K → Map K V → Option V
  lookup k [] = none
  lookup k ((j, v) ∷ m) = if o.beq j k then some v else lookup k m

  -- `m.erase(k)`
  unfoldable pub erase : K → Map K V → Map K V
  erase k [] = []
  erase k ((j, v) ∷ m) = let rest = erase k m in if o.beq j k then rest else (j, v) ∷ rest

  -- A key that is not there goes before the first one that comes after it.
  unfoldable pub place : K → V → Map K V → Map K V
  place k v [] = (k, v) ∷ []
  place k v ((j, w) ∷ m) =
      let rest = place k v m in if o.before k j then (k, v) ∷ (j, w) ∷ m else (j, w) ∷ rest

  -- `m[k] = v`
  unfoldable pub insert : K → V → Map K V → Map K V
  insert k v m = place k v (erase k m)

  -- `m.count(k)`, and `m.find(k) != m.end()`
  unfoldable pub has : K → Map K V → Bool
  has k m = elim (lookup k m) [ none ↦ false | some v ↦ true ]

  pub lookup-erase :
      (k j : K) (m : Map K V) → lookup j (erase k m) ≡ (if o.beq k j then none else lookup j m)
  unfolding lookup erase
  lookup-erase k j [] = ground arith
  lookup-erase k j ((i, w) ∷ m) =
      ground (arith, o.beq_iff k j, o.beq_iff i k, o.beq_iff i j, lookup-erase k j m)

  lookup-place :
      (k j : K) (v : V) (m : Map K V)
      → lookup k m ≡ none
      → lookup j (place k v m) ≡ (if o.beq k j then some v else lookup j m)
  unfolding lookup place
  lookup-place k j v [] n = refl
  lookup-place k j v ((i, w) ∷ m) n =
      ground (arith, o.beq_iff k j, o.beq_iff i k, o.beq_iff i j, lookup-place k j v m)

  pub lookup-insert :
      (k j : K) (v : V) (m : Map K V)
      → lookup j (insert k v m) ≡ (if o.beq k j then some v else lookup j m)
  unfolding insert
  lookup-insert k j v m =
      lookup-place k j v (erase k m) (ground (arith, lookup-erase k k m, beq_refl k))
      ∙ ground (arith, lookup-erase k j m)

  -- No key stands twice.
  abbrev pub UniqueKeys : Map K V → Type 0
  UniqueKeys [] = Unit
  UniqueKeys ((k, v) ∷ m) = (has k m ≡ false) × UniqueKeys m

  has-erase : (k j : K) (m : Map K V) → has j m ≡ false → has j (erase k m) ≡ false
  unfolding has
  has-erase k j m n = ground (arith, lookup-erase k j m)

  pub UniqueKeys-erase : (k : K) (m : Map K V) → UniqueKeys m → UniqueKeys (erase k m)
  unfolding erase
  UniqueKeys-erase k [] u = tt
  UniqueKeys-erase k ((j, v) ∷ m) u = ground (arith, has-erase k j m u.0, UniqueKeys-erase k m u.1)

  has-place :
      (k j : K) (v : V) (m : Map K V)
      → has k m ≡ false
      → has j m ≡ false
      → o.beq k j ≡ false
      → has j (place k v m) ≡ false
  unfolding has
  has-place k j v m a b c = ground (arith, lookup-place k j v m)

  UniqueKeys-place :
      (k : K) (v : V) (m : Map K V) → has k m ≡ false → UniqueKeys m → UniqueKeys (place k v m)
  unfolding place
  UniqueKeys-place k v [] n u = (unfold has lookup in refl, tt)
  UniqueKeys-place k v ((j, w) ∷ m) n u = elim (Bool-cases (o.before k j)) [
    | inl first ↦ rw first (n, u)
    | inr later ↦ rw later (
      has-place k j v m (later_key n) u.0 (other_key n),
      UniqueKeys-place k v m (later_key n) u.1,
    )
  ]
    where
      later_key : has k ((j, w) ∷ m) ≡ false → has k m ≡ false
      later_key e = unfold has lookup in ground arith

      other_key : has k ((j, w) ∷ m) ≡ false → o.beq k j ≡ false
      other_key e = unfold has lookup in ground (arith, o.beq_iff k j, o.beq_iff j k)

  pub UniqueKeys-insert : (k : K) (v : V) (m : Map K V) → UniqueKeys m → UniqueKeys (insert k v m)
  unfolding insert
  UniqueKeys-insert k v m u =
      UniqueKeys-place k v (erase k m)
        (unfold has in ground (arith, lookup-erase k k m, beq_refl k)) (UniqueKeys-erase k m u)

-- The values in the order of iteration.
abbrev pub values {ℓ κ} : {K : Type ℓ} {V : Type κ} → Map K V → List V
values = map λ e. e.1

-- ===== src/Map/Each.antt =====
-- Statements about every entry of a map.
use ft_irc.Map.{Map, lookup, insert, erase, values, Key, place, text_key, nat_key}
use ft_irc.Base.{
  Bool-cases, if_both, contains, ℕ, ◌≡◌, subst, inl, inr, true, false, some, [], ◌∷◌, arith,
}

module _ {ℓ κ μ} {K : Type ℓ} {V : Type κ} where
  abbrev pub Each : (K → V → Type μ) → Map K V → Type μ
  Each P [] = Unit
  Each P ((k, v) ∷ m) = P k v × Each P m

module _ {ℓ κ μ} {K : Type ℓ} {V : Type κ} ⦃o : Key K⦄ (P : K → V → Type μ) where
  Each-place : (k : K) (v : V) (m : Map K V) → Each P m → P k v → Each P (place k v m)
  unfolding place
  Each-place k v [] e p = (p, tt)
  Each-place k v ((j, w) ∷ m) e p =
      if_both (Each P) (o.before k j) _ _ (λ _. (p, e)) (λ _. (e.0, Each-place k v m e.1 p))

  Each-erase_all : (k : K) (m : Map K V) → Each P m → Each P (erase k m)
  unfolding erase
  Each-erase_all k [] e = tt
  Each-erase_all k ((j, w) ∷ m) e =
      if_both (Each P) (o.beq j k) _ _ (λ _. Each-erase_all k m e.1)
        (λ _. (e.0, Each-erase_all k m e.1))

  pub Each-insert : (k : K) (v : V) (m : Map K V) → Each P m → P k v → Each P (insert k v m)
  unfolding insert
  Each-insert k v m e p = Each-place k v (erase k m) (Each-erase_all k m e) p

  pub Each-lookup : (k : K) (v : V) (m : Map K V) → Each P m → lookup k m ≡ some v → P k v
  unfolding lookup
  Each-lookup k v [] e h = absurd (cc)
  Each-lookup k v ((j, w) ∷ m) e h = elim (Bool-cases (o.beq j k)) [
    | inl same ↦
        subst (λ x. P k x) (ground (arith, h)) (subst (λ x. P x w) ((o.beq_iff j k).0 same) e.0)
    | inr other ↦ Each-lookup k v m e.1 (ground (arith, h))
  ]

module _ {ℓ κ μ ν} {K : Type ℓ} {V : Type κ} (P : K → V → Type μ) (Q : K → V → Type ν)
    (f : (k : K) (v : V) → P k v → Q k v) where
  pub Each-map : (m : Map K V) → Each P m → Each Q m
  Each-map [] e = tt
  Each-map ((k, v) ∷ m) e = (f k v e.0, Each-map m e.1)

module _ {ℓ κ μ} {K : Type ℓ} {V : Type κ} ⦃o : Key K⦄ (P : K → V → Type μ) where
  -- What is left after an erasure is under other keys.
  pub Each-erase :
      (k : K) (m : Map K V) → Each P m → Each (λ j w. P j w × (o.beq j k ≡ false)) (erase k m)
  unfolding erase
  Each-erase k [] e = tt
  Each-erase k ((j, w) ∷ m) e =
      if_both (Each (λ i x. P i x × (o.beq i k ≡ false))) (o.beq j k) _ _ (λ _. Each-erase k m e.1)
        (λ other. ((e.0, other), Each-erase k m e.1))

-- The value that a key leads to is among the values.
module _ {ℓ} {K : Type ℓ} ⦃o : Key K⦄ where
  pub contains-values :
      (k : K) (p : ℕ) (m : Map K ℕ) → lookup k m ≡ some p → contains (values m) p ≡ true
  unfolding lookup contains
  contains-values k p [] h = absurd (cc)
  contains-values k p ((j, q) ∷ m) h = ground (arith, contains-values k p m)

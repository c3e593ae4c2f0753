-- ===== src/Base/Flow.antt =====
-- A statement after another: `s ▷ f` runs `f` on the state that `s` is.
infixl 3 ◌▷◌
abbrev pub ◌▷◌ {ℓ κ} : {A : Type ℓ} {B : Type κ} → A → (A → B) → B
x ▷ f = f x

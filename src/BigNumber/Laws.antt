-- ===== src/BigNumber/Laws.antt =====
-- Consequences of the laws of bignumber.js that the proofs about orders use.
use perpetual_custom.Base.{◌≡◌, sym, ap, ◌∙◌, ◌⊎◌, inl, inr, true, false, Bool-cases}
use perpetual_custom.BigNumber.{BigNumber}

module _ {V : Type 0} ⦃N : BigNumber V⦄ where
  open N use {of_ℕ, lte, plus, minus, times, minimum}

  pub lte_refl : (a : V) → lte a a ≡ true
  lte_refl a = elim (Bool-cases (lte a a)) [ inl h ↦ h | inr h ↦ N.lte_total a a h ]

  pub lte_of_eq : {a b : V} → a ≡ b → lte a b ≡ true
  lte_of_eq {a} {b} e = rw e (lte_refl b)

  zero-plus : (a : V) → plus (of_ℕ 0) a ≡ a
  zero-plus a = N.plus_comm (of_ℕ 0) a ∙ N.plus_zero a

  pub plus_inverse : (b : V) → plus b (minus (of_ℕ 0) b) ≡ of_ℕ 0
  plus_inverse b = N.plus_comm b (minus (of_ℕ 0) b) ∙ N.plus-minus (of_ℕ 0) b

  -- adding and then taking away
  plus-plus_inverse : (a b : V) → plus (plus a b) (minus (of_ℕ 0) b) ≡ a
  plus-plus_inverse a b =
      N.plus_assoc a b (minus (of_ℕ 0) b) ∙ ap (plus a) (plus_inverse b) ∙ N.plus_zero a

  pub minus_eq : (a b : V) → minus a b ≡ plus a (minus (of_ℕ 0) b)
  minus_eq a b =
      sym (plus-plus_inverse (minus a b) b) ∙ ap (λ x. plus x (minus (of_ℕ 0) b)) (N.plus-minus a b)

  pub minus-plus : (a b : V) → minus (plus a b) b ≡ a
  minus-plus a b = minus_eq (plus a b) b ∙ plus-plus_inverse a b

  pub plus_right_cancel : (a b c : V) → plus a c ≡ plus b c → a ≡ b
  plus_right_cancel a b c e = sym (minus-plus a c) ∙ ap (λ x. minus x c) e ∙ minus-plus b c

  pub minus_zero : (a : V) → minus a (of_ℕ 0) ≡ a
  minus_zero a = sym (N.plus_zero (minus a (of_ℕ 0))) ∙ N.plus-minus a (of_ℕ 0)

  pub minus_self : (a : V) → minus a a ≡ of_ℕ 0
  minus_self a = ap (λ x. minus x a) (sym (zero-plus a)) ∙ minus-plus (of_ℕ 0) a

  pub minus_nonneg : (a b : V) → lte b a ≡ true → lte (of_ℕ 0) (minus a b) ≡ true
  minus_nonneg a b h =
      rw (minus_eq a b) (rw (plus_inverse b) at (N.plus_mono b a (minus (of_ℕ 0) b) h))

  pub minus_mono : (a b c : V) → lte a b ≡ true → lte (minus a c) (minus b c) ≡ true
  minus_mono a b c h = rw (minus_eq a c, minus_eq b c) (N.plus_mono a b (minus (of_ℕ 0) c) h)

  pub plus_mono_right : (a b c : V) → lte a b ≡ true → lte (plus c a) (plus c b) ≡ true
  plus_mono_right a b c h = rw (N.plus_comm c a, N.plus_comm c b) (N.plus_mono a b c h)

  pub plus_mono_both :
      (a b c d : V) → lte a b ≡ true → lte c d ≡ true → lte (plus a c) (plus b d) ≡ true
  plus_mono_both a b c d h k = N.lte_trans _ _ _ (N.plus_mono a b c h) (plus_mono_right c d b k)

  -- a move from one side to the other
  pub lte_minus-of_plus : (a b c : V) → lte (plus a b) c ≡ true → lte a (minus c b) ≡ true
  lte_minus-of_plus a b c h = rw (minus-plus a b) at (minus_mono (plus a b) c b h)

  pub lte_plus-of_minus : (a b c : V) → lte a (minus c b) ≡ true → lte (plus a b) c ≡ true
  lte_plus-of_minus a b c h = rw (N.plus-minus c b) at (N.plus_mono a (minus c b) b h)

  pub minus-minus : (a b c : V) → minus (minus a b) c ≡ minus a (plus b c)
  minus-minus a b c = plus_right_cancel _ _ (plus b c) (
      ap (plus (minus (minus a b) c)) (N.plus_comm b c)
      ∙ sym (N.plus_assoc (minus (minus a b) c) c b)
      ∙ ap (λ x. plus x b) (N.plus-minus (minus a b) c)
      ∙ N.plus-minus a b
      ∙ sym (N.plus-minus a (plus b c)))

  pub minimum_cases :
      (a b : V)
      → ((lte a b ≡ true) × (minimum a b ≡ a))
        ⊎ ((lte b a ≡ true) × (lte a b ≡ false) × (minimum a b ≡ b))
  minimum_cases a b = elim (Bool-cases (lte a b)) [
    | inl h ↦ inl (h, N.minimum_left a b h)
    | inr h ↦ inr (N.lte_total a b h, h, N.minimum_right a b (N.lte_total a b h))
  ]

  pub minimum_lte_left : (a b : V) → lte (minimum a b) a ≡ true
  minimum_lte_left a b = elim (minimum_cases a b) [
    | inl (h, e) ↦ lte_of_eq e
    | inr (h, _, e) ↦ rw e h
  ]

  pub minimum_lte_right : (a b : V) → lte (minimum a b) b ≡ true
  minimum_lte_right a b = elim (minimum_cases a b) [
    | inl (h, e) ↦ rw e h
    | inr (h, _, e) ↦ lte_of_eq e
  ]

  pub minimum_glb : (a b c : V) → lte c a ≡ true → lte c b ≡ true → lte c (minimum a b) ≡ true
  minimum_glb a b c h k = elim (minimum_cases a b) [ inl (_, e) ↦ rw e h | inr (_, _, e) ↦ rw e k ]

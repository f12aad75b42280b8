-- ===== src/Types/Solidity.antt =====
-- About BaseValue: its way to the contracts, as a magnitude and a sign, and back.
use perpetual_custom.Base.{◌≡◌, ap, ◌∙◌, inl, inr, true, Bool-cases}
use perpetual_custom.Base.Int.{pos}
use perpetual_custom.BigNumber.{BigNumber}
use perpetual_custom.Types.{BaseValue}
use perpetual_custom.Types.Values.{from_solidity, to_solidity, to_solidity_signed_int, is_positive}

module _ {V : Type 0} ⦃N : BigNumber V⦄ where
  -- The value has at most 18 decimals.
  abbrev pub IsRepresentable : BaseValue V → Type 0
  IsRepresentable b = N.is_integer (N.shifted_by (pos 18) (N.abs b.value)) ≡ true

  pub from_solidity-to_solidity_signed_int :
      (b : BaseValue V)
      → IsRepresentable b
      → from_solidity (to_solidity_signed_int b).value (to_solidity_signed_int b).is_positive ≡ b
  unfolding from_solidity to_solidity_signed_int to_solidity is_positive
  from_solidity-to_solidity_signed_int b h =
      let back = ap (N.shifted_by _) (N.of_text-to_fixed _ h) ∙ N.shifted_back 17 (N.abs b.value) in
      elim (Bool-cases (N.is_negative b.value)) [
        | inl e ↦ rw (e, back) (ap (λ v. record { value = v }) (N.negated-abs b.value e))
        | inr e ↦ rw (e, back) (ap (λ v. record { value = v }) (N.abs_of_nonneg b.value e))
      ]

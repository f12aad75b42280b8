-- ===== src/Tests/Signing.antt =====
-- The signatures at the signer of Data.antt.
use perpetual_custom.Base.{
  ◌↔◌, length, ℕ, ◌==◌, zero, suc, All-append, ◌≡◌, refl, sym, inl, inr, Bool, true, false, some,
  List, [], ◌∷◌, ◌++◌, Bool-cases, ok-injective, subst, Result, ok, err, replicate,
}
use perpetual_custom.Base.Int.{ℤ, pos}
use perpetual_custom.Base.Text.{Text, codes, text_eq, text_eq_iff}
use perpetual_custom.BigNumber.Whole.{whole}
use perpetual_custom.Types.{Address, Order}
use perpetual_custom.Types.Values.{is_negative}
use perpetual_custom.Hex.{strip_hex_prefix}
use perpetual_custom.Hex.Laws.{NoX}
use perpetual_custom.Signature.{
  decimal, fix_raw_signature, create_typed_signature, get_prepended_hash,
  ec_recover_typed_signature, addresses_are_equal,
}
use perpetual_custom.Signature.Laws.{ec_recover-create_typed_signature}
use perpetual_custom.Orders.{
  get_order_flags, get_signed_order, order_has_valid_signature, signing_hash,
}
use perpetual_custom.Orders.Laws.{
  salt_digits, get_order_flags-eq, order_has_valid_signature-get_signed_order,
}
use perpetual_custom.Tests.Data.{ethers, contracts, buyer, buying_order, raw_signature}

abbrev pub typed : Text
typed = codes "0x" ++ (replicate 128 b'a' ++ codes "1b01")

NoX-replicate : (n : ℕ) → NoX (replicate n b'a')
NoX-replicate zero = tt
NoX-replicate (suc n) = (refl, NoX-replicate n)

pub raw-NoX : NoX (strip_hex_prefix raw_signature)
unfolding strip_hex_prefix
raw-NoX =
    All-append (λ c. (c == b'x') ≡ false) (replicate 128 b'a') (codes "1b") (NoX-replicate 128)
      (refl, (refl, tt))

raw_typed : create_typed_signature raw_signature decimal ≡ ok typed
unfolding create_typed_signature perpetual_custom.Signature.is_valid_sig_type fix_raw_signature
    perpetual_custom.Signature.signature_to_vrs strip_hex_prefix perpetual_custom.Signature.true_v
    perpetual_custom.Hex.combine_hex_strings
raw_typed = refl

ec_recover-create_typed_signature_example :
    (fixed p : Text) × (fix_raw_signature raw_signature ≡ ok fixed)
    × (get_prepended_hash ethers (codes "0x77") (some (pos 1)) ≡ some p)
    × (ec_recover_typed_signature ethers (codes "0x77") typed ≡ ethers.recover_address p fixed)
ec_recover-create_typed_signature_example =
    ec_recover-create_typed_signature ethers (codes "0x77") raw_signature decimal typed raw-NoX
      raw_typed

pub signer-buyer :
    (account : Address) (hash raw : Text)
    → ethers.sign_message account hash ≡ ok raw
    → (account ≡ buyer) × (raw_signature ≡ raw)
signer-buyer account hash raw h = elim (Bool-cases (text_eq account buyer)) [
  | inl e ↦ ((text_eq_iff account buyer).0 e, ok-injective (rw e at h))
  | inr e ↦ absurd (cc (rw e at h))
]

pub same_buyer : addresses_are_equal buyer buyer ≡ true
unfolding addresses_are_equal perpetual_custom.Base.Text.to_lower_case strip_hex_prefix
same_buyer = refl

signed_buying :
    get_signed_order ethers contracts buying_order signing_hash
    ≡ ok (record { order = buying_order; typed_signature = typed })
unfolding get_signed_order perpetual_custom.Orders.sign_order perpetual_custom.Orders.sign_hash
    perpetual_custom.Orders.get_order_hash perpetual_custom.Orders.get_order_flags
    perpetual_custom.Hex.bn_to_bytes32 create_typed_signature
    perpetual_custom.Signature.is_valid_sig_type fix_raw_signature
    perpetual_custom.Signature.signature_to_vrs strip_hex_prefix perpetual_custom.Signature.true_v
    perpetual_custom.Orders.choose_signature perpetual_custom.Hex.combine_hex_strings
signed_buying = refl

order_has_valid_signature-get_signed_order_example :
    (buying_order ≡ buying_order)
    × (order_has_valid_signature ethers contracts
          (record { order = buying_order; typed_signature = typed })
        ≡ ok true)
order_has_valid_signature-get_signed_order_example =
    order_has_valid_signature-get_signed_order ethers contracts
      (λ account hash raw h.
        subst (λ t. NoX (strip_hex_prefix t)) (signer-buyer account hash raw h).1 raw-NoX)
      (λ account hash raw fixed p h _ _. (
        buyer,
        refl,
        subst (λ a. addresses_are_equal buyer a ≡ true) (sym (signer-buyer account hash raw h).0)
            same_buyer,
      ))
      buying_order (record { order = buying_order; typed_signature = typed }) signed_buying

-- The order to buy, and the same to sell.
abbrev selling_order : Order ℤ
selling_order = record buying_order { is_buy = false }

buying_flags : (flags : Text) × (get_order_flags buying_order ≡ ok flags)
unfolding get_order_flags perpetual_custom.Hex.bn_to_bytes32
buying_flags = (_, refl)

selling_flags : (flags : Text) × (get_order_flags selling_order ≡ ok flags)
unfolding get_order_flags perpetual_custom.Hex.bn_to_bytes32
selling_flags = (_, refl)

get_order_flags-eq_example :
    (length buying_flags.0 ≡ 66)
    × ((buying_flags.0 ≡ selling_flags.0)
        ↔ (salt_digits buying_order ≡ salt_digits selling_order)
          × (true ≡ false)
          × (buying_order.is_decrease_only ≡ buying_order.is_decrease_only)
          × (is_negative buying_order.limit_fee ≡ is_negative buying_order.limit_fee))
get_order_flags-eq_example =
    get_order_flags-eq buying_order selling_order buying_flags.0 selling_flags.0 buying_flags.1
      selling_flags.1

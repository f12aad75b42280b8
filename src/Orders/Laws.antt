-- ===== src/Orders/Laws.antt =====
-- The flags of an order, and that an order which the program signs passes its own check.
use perpetual_custom.Base.{
  ◌/◌, ◌%◌, ◌<◌, ◌≡◌, ◌+◌, ◌-◌, ◌++◌, ◌↔◌, ℕ, refl, drop, replicate, length-append, length-drop,
  length-replicate, sym, ap, ap₂, ◌∙◌, [], ◌∷◌, length, Bool-cases, ok-injective, inl, inr, true,
  some, arith, ok, Result-cases, if◌then◌else◌,
}
use perpetual_custom.Base.Int.{pos}
use perpetual_custom.Base.Text.{Text, codes}
use perpetual_custom.BigNumber.{BigNumber}
use perpetual_custom.Types.{Address, Order, SignedOrder}
use perpetual_custom.Types.Values.{is_negative}
use perpetual_custom.Hex.{
  strip_hex_prefix, last_units, without_last_units, pad_start, bn_to_bytes32,
}
use perpetual_custom.Hex.Laws.{NoX, last_units-append, without_last_units-append}
use perpetual_custom.Ethers.{Ethers, Contracts}
use perpetual_custom.Signature.{
  fix_raw_signature, create_typed_signature, get_prepended_hash, hash_has_valid_signature,
  addresses_are_equal, decimal,
}
use perpetual_custom.Signature.Laws.{ec_recover-create_typed_signature}
use perpetual_custom.Orders.{
  signing_hash, boolean_flag, get_order_flags, get_order_hash, sign_hash, choose_signature,
  sign_order, get_signed_order, order_has_valid_signature,
}

flags_parts :
    (s t : Text) (k m : ℕ)
    → codes "0x" ++ s ++ (b'0' + k) ∷ [] ≡ codes "0x" ++ t ++ (b'0' + m) ∷ []
    → (s ≡ t) × (k ≡ m)
flags_parts s t k m h =
    let rest : s ++ (b'0' + k) ∷ [] ≡ t ++ (b'0' + m) ∷ [] = ap (drop 2) h in
    let last : (b'0' + k) ∷ [] ≡ (b'0' + m) ∷ [] =
      sym (last_units-append s ((b'0' + k) ∷ []))
      ∙ ap (last_units 1) rest
      ∙ last_units-append t ((b'0' + m) ∷ []) in
    let code : b'0' + k ≡ b'0' + m = cc last in
    (
      sym (without_last_units-append s ((b'0' + k) ∷ []))
          ∙ ap (without_last_units 1) rest
          ∙ without_last_units-append t ((b'0' + m) ∷ []),
      omega (arith, code),
    )

module _ {V : Type 0} ⦃N : BigNumber V⦄ where
  -- The flag digit is below 8, and its three bits are the side, the decrease-only mark and the sign
  -- of the fee.
  boolean_flag_bits :
      (o : Order V)
      → (boolean_flag o < 8)
        × (boolean_flag o % 2 ≡ (if o.is_buy then 1 else 0))
        × (boolean_flag o / 2 % 2 ≡ (if o.is_decrease_only then 1 else 0))
        × (boolean_flag o / 4 ≡ (if is_negative o.limit_fee then 1 else 0))
  unfolding boolean_flag
  boolean_flag_bits o = ground arith

  -- The characters of the padded hexadecimal salt that the flags hold.
  abbrev pub salt_digits : Order V → Text
  salt_digits o = last_units 63 (codes "0x" ++ pad_start 64 b'0' (N.to_hex o.salt))

  get_order_flags-ok :
      (o : Order V) (flags : Text)
      → get_order_flags o ≡ ok flags
      → flags ≡ codes "0x" ++ salt_digits o ++ (b'0' + boolean_flag o) ∷ []
  unfolding get_order_flags bn_to_bytes32
  get_order_flags-ok o flags h = elim (Bool-cases (N.is_integer o.salt)) [
    | inl e ↦ sym (ok-injective (rw e at h))
    | inr e ↦ absurd (cc (rw e at h))
  ]

  flags_length :
      (o : Order V) → length (codes "0x" ++ salt_digits o ++ (b'0' + boolean_flag o) ∷ []) ≡ 66
  unfolding last_units pad_start
  flags_length o =
      let bytes = codes "0x" ++ pad_start 64 b'0' (N.to_hex o.salt) in
      omega (
        arith,
        length-append (salt_digits o) ((b'0' + boolean_flag o) ∷ []),
        length-drop (length bytes - 63) bytes,
        length-append (replicate (64 - length (N.to_hex o.salt)) b'0') (N.to_hex o.salt),
        length-replicate {A = ℕ} (64 - length (N.to_hex o.salt)) b'0',
      )

  boolean_flag_parts :
      (o o' : Order V)
      → boolean_flag o ≡ boolean_flag o'
      → (o.is_buy ≡ o'.is_buy)
        × (o.is_decrease_only ≡ o'.is_decrease_only)
        × (is_negative o.limit_fee ≡ is_negative o'.limit_fee)
  unfolding boolean_flag
  boolean_flag_parts o o' h = ground (arith, h)

  boolean_flag_same :
      (o o' : Order V)
      → o.is_buy ≡ o'.is_buy
      → o.is_decrease_only ≡ o'.is_decrease_only
      → is_negative o.limit_fee ≡ is_negative o'.limit_fee
      → boolean_flag o ≡ boolean_flag o'
  unfolding boolean_flag
  boolean_flag_same o o' a b c = rw (a, b, c) refl

  -- Flags that the program computes are 66 characters long. Those of two orders are the same
  -- exactly if the last 63 characters of their padded salts are, and the side, the decrease-only mark and the
  -- sign of the fee.
  pub get_order_flags-eq :
      (o o' : Order V) (flags flags' : Text)
      → get_order_flags o ≡ ok flags
      → get_order_flags o' ≡ ok flags'
      → (length flags ≡ 66)
        × ((flags ≡ flags')
            ↔ (salt_digits o ≡ salt_digits o')
              × (o.is_buy ≡ o'.is_buy)
              × (o.is_decrease_only ≡ o'.is_decrease_only)
              × (is_negative o.limit_fee ≡ is_negative o'.limit_fee))
  get_order_flags-eq o o' flags flags' h h' =
      let made = get_order_flags-ok o flags h in
      let made' = get_order_flags-ok o' flags' h' in
      (
        ap length made ∙ flags_length o,
        (
          (λ e.
              let (digits, flag) =
                flags_parts (salt_digits o) (salt_digits o') _ _ (sym made ∙ e ∙ made') in
              let (is_buy, is_decrease_only, negative) = boolean_flag_parts o o' flag in
              (digits, is_buy, is_decrease_only, negative)),
          (λ (digits, is_buy, is_decrease_only, negative).
              made
              ∙ ap₂ (λ d k. codes "0x" ++ d ++ (b'0' + k) ∷ []) digits
                  (boolean_flag_same o o' is_buy is_decrease_only negative)
              ∙ sym made'),
        ),
      )

module _ {V : Type 0} ⦃N : BigNumber V⦄ (E : Ethers) (c : Contracts) where
  -- The steps of a signature by `SigningMethod.Hash` that succeeds.
  sign_order-ok :
      (o : Order V) (typed : Text)
      → sign_order E c o signing_hash ≡ ok typed
      → (order_hash raw : Text) × (get_order_hash E c o ≡ ok order_hash)
        × (E.sign_message o.maker order_hash ≡ ok raw)
        × (create_typed_signature raw decimal ≡ ok typed)
  unfolding sign_order sign_hash choose_signature
  sign_order-ok o typed h = elim (Result-cases (get_order_hash E c o)) [
    | inl (e, bad) ↦ absurd (ground arith)
    | inr (order_hash, hashed) ↦ elim (Result-cases (E.sign_message o.maker order_hash)) [
      | inl (e, bad) ↦ absurd (ground arith)
      | inr (raw, signed) ↦ elim (Result-cases (create_typed_signature raw decimal)) [
        | inl (e, bad) ↦ absurd (ground arith)
        | inr (sig, made) ↦ (order_hash, raw, hashed, signed, ground arith)
      ]
    ]
  ]

  -- An order that `getSignedOrder` signs with `SigningMethod.Hash` is one whose signature
  -- `orderHasValidSignature` accepts. Of the wallet it is assumed that a raw signature is a text of
  -- hexadecimal digits, and that its normalised form recovers the signer over the hash prepended
  -- with the decimal length.
  pub order_has_valid_signature-get_signed_order :
      ((account : Address) (hash raw : Text)
        → E.sign_message account hash ≡ ok raw
        → NoX (strip_hex_prefix raw))
      → ((account : Address) (hash raw fixed p : Text)
          → E.sign_message account hash ≡ ok raw
          → fix_raw_signature raw ≡ ok fixed
          → get_prepended_hash E hash (some (pos decimal)) ≡ some p
          → (signer : Address) × (E.recover_address p fixed ≡ ok signer)
            × (addresses_are_equal signer account ≡ true))
      → (o : Order V) (signed : SignedOrder V) → get_signed_order E c o signing_hash ≡ ok signed
      → (signed.order ≡ o) × (order_has_valid_signature E c signed ≡ ok true)
  unfolding get_signed_order order_has_valid_signature hash_has_valid_signature
  order_has_valid_signature-get_signed_order digits recovers o signed h =
      elim (Result-cases (sign_order E c o signing_hash)) [
        | inl (e, bad) ↦ absurd (ground arith)
        | inr (typed, done) ↦
            let (order_hash, raw, hashed, sent, made) = sign_order-ok o typed done in
            let (fixed, p, fix, prep, recovered) =
              ec_recover-create_typed_signature E order_hash raw decimal typed
                (digits o.maker order_hash raw sent) made in
            let (signer, found, same) = recovers o.maker order_hash raw fixed p sent fix prep in
            ground arith
      ]

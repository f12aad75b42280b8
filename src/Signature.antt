-- ===== src/Signature.antt =====
-- Typed signatures in src/utils.ts: a raw signature of 65 bytes with its recovery byte normalised,
-- followed by one byte that says how the hash was prepended.
pub mod Laws
use perpetual_custom.Base.{
  ℕ, suc, ◌+◌, ◌≡◌, Bool, true, false, not, ◌&&◌, ◌||◌, Option, none, some, List, [], ◌∷◌, ◌++◌,
  leb, ltb, ◌==◌, if◌then◌else◌, Result, ok, err, ◌>>=◌, length, take, drop,
}
use perpetual_custom.Base.Int.{ℤ, pos, negsuc}
use perpetual_custom.Base.Text.{Text, codes, text_eq, to_lower_case}
use perpetual_custom.Hex.{
  strip_hex_prefix, combine_hex_strings, last_units, without_last_units, parse_int,
}
use perpetual_custom.Types.{
  Address, Error, invalid_signature_type, invalid_raw_signature, invalid_v,
}
use perpetual_custom.Ethers.{Ethers}

-- `SIGNATURE_TYPES`
abbrev pub no_prepend : ℕ
no_prepend = 0

abbrev pub decimal : ℕ
decimal = 1

abbrev pub hexadecimal : ℕ
hexadecimal = 2

-- The greeting of both prefixes, up to the length.
abbrev pub greeting : Text
greeting = 25 ∷ codes "Ethereum Signed Message:" ++ 10 ∷ []

abbrev pub prepend_dec : Text
prepend_dec = greeting ++ codes "32"

abbrev pub prepend_hex : Text
prepend_hex = greeting ++ 32 ∷ []

unfoldable pub is_valid_sig_type : ℕ → Bool
is_valid_sig_type sig_type =
    sig_type == no_prepend || (sig_type == decimal || sig_type == hexadecimal)

pub record Vrs : Type 0 where
  pub v : Text
  pub r : Text
  pub s : Text

unfoldable pub signature_to_vrs : Text → Result Error Vrs
signature_to_vrs signature =
    let stripped = strip_hex_prefix signature in
    if not (length stripped == 130)
    then err (invalid_raw_signature signature)
    else ok (record {
      v = take 2 (drop 128 stripped);
      r = take 64 stripped;
      s = take 64 (drop 64 stripped);
    })

-- The `switch` on the recovery byte.
unfoldable pub true_v : Text → Result Error Text
true_v v =
    if text_eq v (codes "00")
    then ok (codes "1b")
    else if text_eq v (codes "01")
    then ok (codes "1c")
    else if text_eq v (codes "1b") || text_eq v (codes "1c")
    then ok v
    else err (invalid_v v)

unfoldable pub fix_raw_signature : Text → Result Error Text
fix_raw_signature signature = do
  vrs ← signature_to_vrs signature
  v ← true_v vrs.v
  ok (combine_hex_strings (vrs.r ∷ vrs.s ∷ v ∷ []))

unfoldable pub create_typed_signature : Text → ℕ → Result Error Text
create_typed_signature signature sig_type =
    if not (is_valid_sig_type sig_type)
    then err (invalid_signature_type sig_type)
    else do fixed ← fix_raw_signature signature; ok (fixed ++ b'0' ∷ (b'0' + sig_type) ∷ [])

unfoldable pub addresses_are_equal : Text → Text → Bool
addresses_are_equal address_one address_two =
    ltb 0 (length address_one)
    && (ltb 0 (length address_two)
        && text_eq (to_lower_case (strip_hex_prefix address_one))
            (to_lower_case (strip_hex_prefix address_two)))

module _ (E : Ethers) where
  open E use {solidity_keccak256, recover_address}

  unfoldable pub hash_string : Text → Text
  hash_string input = solidity_keccak256 (codes "string" ∷ []) (input ∷ [])

  unfoldable pub get_eip712_hash : Text → Text → Text
  get_eip712_hash domain_hash struct_hash =
      solidity_keccak256 (codes "bytes2" ∷ codes "bytes32" ∷ codes "bytes32" ∷ [])
        (codes "0x1901" ∷ domain_hash ∷ struct_hash ∷ [])

  -- `none` stands for the error that the caller catches.
  unfoldable pub get_prepended_hash : Text → Option ℤ → Option Text
  get_prepended_hash hash none = none
  get_prepended_hash hash (some (negsuc n)) = none
  get_prepended_hash hash (some (pos n)) =
      if n == no_prepend
      then some hash
      else if n == decimal
      then some
          (solidity_keccak256 (codes "string" ∷ codes "bytes32" ∷ []) (prepend_dec ∷ hash ∷ []))
      else if n == hexadecimal
      then some
          (solidity_keccak256 (codes "string" ∷ codes "bytes32" ∷ []) (prepend_hex ∷ hash ∷ []))
      else none

  unfoldable pub ec_recover_typed_signature : Text → Text → Result Error Address
  ec_recover_typed_signature hash typed_signature =
      if not (length (strip_hex_prefix typed_signature) == 132)
      then ok (codes "0x")
      else elim (get_prepended_hash hash (parse_int 16 (last_units 2 typed_signature))) [
        | none ↦ ok (codes "0x")
        | some prepended_hash ↦
            recover_address prepended_hash (without_last_units 2 typed_signature)
      ]

  unfoldable pub hash_has_valid_signature : Text → Text → Address → Result Error Bool
  hash_has_valid_signature hash typed_signature expected_signer = do
    signer ← ec_recover_typed_signature hash typed_signature
    ok (addresses_are_equal signer expected_signer)

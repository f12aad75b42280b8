-- ===== src/Environment.antt =====
-- The check of a variable of the environment in src/config.ts. The parsing of decimal fractions and of
-- JSON, the check of a UUID and the address of a private key belong to the language or to packages,
-- and are parameters.
use perpetual_custom.Base.{
  ℕ, ◌==◌, Bool, true, false, not, ◌&&◌, Option, none, some, List, [], ◌∷◌, map, if◌then◌else◌,
  Result, ok, err,
}
use perpetual_custom.Base.Int.{ℤ, pos, leb_ℤ}
use perpetual_custom.Base.Text.{Text, codes, text_eq, to_lower_case}
use perpetual_custom.BigNumber.{BigNumber}
use perpetual_custom.Types.{
  Address, Error, type_error, port_out_of_range, not_a_valid_integer, not_a_valid_amount,
  not_supplied, not_a_uuid, unrecognised_type,
}
use perpetual_custom.Hex.{parse_int}

-- A statement that throws stops those after it.
infixl 5 ◌>>=◌
unfoldable pub ◌>>=◌ : {A B : Type 0} → Result Error A → (A → Result Error B) → Result Error B
err thrown >>= after = err thrown
ok value >>= after = after value

pub data EnvVarType : Type 0 where
  address_list string_list integer port keep_alive_timeout chain_id : EnvVarType
  eth_address_hex unit_amount url url_list whitelist_all_tokens : EnvVarType
  boolean non_empty_string api_keys private_keys rfq_maker_asset_offerings : EnvVarType
  rate_limit_config liquidity_provider_registry json_string_list : EnvVarType

-- `string.split(unit)`
abbrev pub prepend : ℕ → List Text → List Text
prepend c [] = (c ∷ []) ∷ []
prepend c (part ∷ parts) = (c ∷ part) ∷ parts

abbrev pub split : ℕ → Text → List Text
split unit [] = [] ∷ []
split unit (c ∷ s) = let rest = split unit s in if c == unit then [] ∷ rest else prepend c rest

-- `_.isEmpty`, of a variable that may be missing
abbrev pub is_empty : Option Text → Bool
is_empty none = true
is_empty (some []) = true
is_empty (some (c ∷ s)) = false

-- What the packages and the built-in parsers answer: `parseFloat`, NaN as `none`; `JSON.parse`;
-- `validateUUID`; and `computeAddress`.
pub record Packages (V J : Type 0) : Type 0 where
  pub parse_float : Text → Option V
  pub parse_json : Option Text → Result Error J
  pub validate_uuid : Text → Bool
  pub compute_address : Option Text → Result Error Address

-- What a check returns.
pub data EnvValue (V J : Type 0) : Type 0 where
  number : ℤ → EnvValue V J
  text : Text → EnvValue V J
  texts : List Text → EnvValue V J
  flag : Bool → EnvValue V J
  amount : V → EnvValue V J
  json : J → EnvValue V J
  undefined : EnvValue V J

-- `value.split(',')`, which throws where there is no value
abbrev pub split_value : Option Text → Result Error (List Text)
split_value none = err type_error
split_value (some value) = ok (split b',' value)

-- `parseInt(value, 10)`; `undefined` reads as the text "undefined"
abbrev pub parse_value : Option Text → Option ℤ
parse_value none = none
parse_value (some value) = parse_int 10 value

-- the loop over the keys
unfoldable pub assert_uuids : (Text → Bool) → List Text → Result Error (Unit {0})
assert_uuids validate [] = ok tt
assert_uuids validate (api_key ∷ keys) =
    let rest = assert_uuids validate keys in
    if not (validate api_key) then err (not_a_uuid api_key) else rest

module _ {V J : Type 0} where
  -- a variable as it is
  abbrev pub as_it_is : Option Text → EnvValue V J
  as_it_is none = undefined
  as_it_is (some value) = text value

  unfoldable pub assert_port : Text → Option ℤ → Result Error (EnvValue V J)
  assert_port name none = err (port_out_of_range name)
  assert_port name (some n) =
      let is_within_range = leb_ℤ (pos 0) n && leb_ℤ n (pos 65535) in
      if not is_within_range then err (port_out_of_range name) else ok (number n)

  unfoldable pub assert_integer : Text → Option ℤ → Result Error (EnvValue V J)
  assert_integer name none = err (not_a_valid_integer name)
  assert_integer name (some n) = ok (number n)

  unfoldable pub assert_non_empty : Text → Option Text → Result Error (EnvValue V J)
  assert_non_empty name none = ok undefined
  assert_non_empty name (some value) =
      if text_eq value [] then err (not_supplied name) else ok (text value)

  unfoldable pub assert_unit_amount :
      ⦃N : BigNumber V⦄ → Text → Option V → Result Error (EnvValue V J)
  assert_unit_amount name none = err (not_a_valid_amount name)
  assert_unit_amount ⦃N⦄ name (some v) =
      if N.is_negative v then err (not_a_valid_amount name) else ok (amount v)

  unfoldable pub assert_env_var_type :
      ⦃N : BigNumber V⦄
      → Packages V J
      → Text
      → Option Text
      → EnvVarType
      → Result Error (EnvValue V J)
  assert_env_var_type P name value port = assert_port name (parse_value value)
  assert_env_var_type P name value chain_id = assert_integer name (parse_value value)
  assert_env_var_type P name value keep_alive_timeout = assert_integer name (parse_value value)
  assert_env_var_type P name value integer = assert_integer name (parse_value value)
  assert_env_var_type P name value eth_address_hex = ok (as_it_is value)
  assert_env_var_type P name value url = ok (as_it_is value)
  assert_env_var_type P name value url_list = do urls ← split_value value; ok (texts urls)
  assert_env_var_type P name value boolean =
      ok (flag (elim value [ none ↦ false | some v ↦ text_eq v (codes "true") ]))
  assert_env_var_type P name value unit_amount =
      assert_unit_amount name (elim value [ none ↦ none | some v ↦ P.parse_float v ])
  assert_env_var_type P name value address_list = do
    addresses ← split_value value
    ok (texts (map to_lower_case addresses))
  assert_env_var_type P name value string_list = do strings ← split_value value; ok (texts strings)
  assert_env_var_type P name value whitelist_all_tokens = ok (text (codes "*"))
  assert_env_var_type P name value non_empty_string = assert_non_empty name value
  assert_env_var_type P name value api_keys = do
    keys ← split_value value
    checked ← assert_uuids P.validate_uuid keys
    ok (texts keys)
  assert_env_var_type P name value json_string_list = do
    parsed ← P.parse_json value
    ok (json parsed)
  assert_env_var_type P name value other = err (unrecognised_type name)

  -- `_.isEmpty(process.env.NAME) ? fallback : assertEnvVarType('NAME', process.env.NAME, type)`
  unfoldable pub env_or :
      ⦃N : BigNumber V⦄
      → Packages V J
      → (Text → Option Text)
      → Text
      → EnvVarType
      → EnvValue V J
      → Result Error (EnvValue V J)
  env_or P env name expected fallback =
      if is_empty (env name) then ok fallback else assert_env_var_type P name (env name) expected

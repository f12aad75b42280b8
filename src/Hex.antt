-- ===== src/Hex.antt =====
-- The helpers on hexadecimal texts in src/utils.ts, and the built-in methods of strings and numbers
-- that they call.
pub mod Laws
use perpetual_custom.Base.{
  ℕ, suc, ◌+◌, ◌-◌, ◌*◌, ◌≡◌, Bool, true, false, ◌&&◌, ◌||◌, Option, none, some, List, [], ◌∷◌,
  ◌++◌, map, ltb, leb, ◌==◌, if◌then◌else◌, Result, ok, err, length, take, drop, replicate,
}
use perpetual_custom.Base.Int.{ℤ, pos, ◌-ℤ◌}
use perpetual_custom.Base.Text.{Text, codes, text_eq}
use perpetual_custom.BigNumber.{BigNumber}
use perpetual_custom.Types.{Address, Error, not_an_integer}

-- `startsWith`
abbrev pub starts_with : Text → Text → Bool
starts_with [] s = true
starts_with (a ∷ p) [] = false
starts_with (a ∷ p) (b ∷ s) = a == b && starts_with p s

-- `slice(-n)` and `slice(0, -n)`
unfoldable pub last_units : ℕ → Text → Text
last_units n s = drop (length s - n) s

unfoldable pub without_last_units : ℕ → Text → Text
without_last_units n s = take (length s - n) s

-- `padStart(width, unit)`
unfoldable pub pad_start : ℕ → ℕ → Text → Text
pad_start width unit s = replicate (width - length s) unit ++ s

abbrev pub join : List Text → Text
join [] = []
join (s ∷ ss) = s ++ join ss

-- `parseInt`: white space, a sign, `0x` in radix 16, then digits up to the first that is none.
abbrev pub is_space : ℕ → Bool
is_space c = c == 32 || (leb 9 c && leb c 13)

abbrev pub skip_spaces : Text → Text
skip_spaces [] = []
skip_spaces (c ∷ s) = if is_space c then skip_spaces s else c ∷ s

abbrev pub digit_value : ℕ → ℕ → Option ℕ
digit_value radix c =
    let d =
      if leb b'0' c && leb c b'9'
      then c - b'0'
      else if leb b'a' c && leb c b'z'
      then c - 87
      else if leb b'A' c && leb c b'Z'
      then c - 55
      else radix in
    if ltb d radix then some d else none

abbrev pub parse_digits : ℕ → Option ℕ → Text → Option ℕ
parse_digits radix acc [] = acc
parse_digits radix acc (c ∷ s) = elim (digit_value radix c) [
  | none ↦ acc
  | some d ↦ parse_digits radix (some (elim acc [ none ↦ d | some n ↦ n * radix + d ])) s
]

abbrev pub drop_prefix : ℕ → Text → Text
drop_prefix radix s =
    if radix == 16 && (starts_with (codes "0x") s || starts_with (codes "0X") s)
    then drop 2 s
    else s

abbrev pub parse_unsigned : ℕ → Text → Option ℕ
parse_unsigned radix s = parse_digits radix none (drop_prefix radix s)

abbrev pub parse_signed : ℕ → Text → Option ℤ
parse_signed radix [] = none
parse_signed radix (c ∷ s) =
    if c == b'-'
    then elim (parse_unsigned radix s) [ none ↦ none | some n ↦ some (pos 0 -ℤ pos n) ]
    else if c == b'+'
    then elim (parse_unsigned radix s) [ none ↦ none | some n ↦ some (pos n) ]
    else elim (parse_unsigned radix (c ∷ s)) [ none ↦ none | some n ↦ some (pos n) ]

unfoldable pub parse_int : ℕ → Text → Option ℤ
parse_int radix s = parse_signed radix (skip_spaces s)

unfoldable pub bool_to_bytes32 : Bool → Text
bool_to_bytes32 b = codes "0x" ++ replicate 63 b'0' ++ (if b then b'1' else b'0') ∷ []

unfoldable pub strip_hex_prefix : Text → Text
strip_hex_prefix input = if starts_with (codes "0x") input then drop 2 input else input

unfoldable pub address_to_bytes32 : Address → Text
unfolding strip_hex_prefix
address_to_bytes32 input = codes "0x000000000000000000000000" ++ strip_hex_prefix input

unfoldable pub bn_to_bytes32 : {V : Type 0} ⦃N : BigNumber V⦄ → V → Result Error Text
unfolding pad_start
bn_to_bytes32 ⦃N⦄ value =
    if N.is_integer value
    then ok (codes "0x" ++ pad_start 64 b'0' (N.to_hex value))
    else err not_an_integer

unfoldable pub combine_hex_strings : List Text → Text
combine_hex_strings args = codes "0x" ++ join (map strip_hex_prefix args)

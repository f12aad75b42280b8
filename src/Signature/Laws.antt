-- ===== src/Signature/Laws.antt =====
-- A signature that the program types is one that it can check: its length, its type byte and the
-- fixed raw signature come back.
use perpetual_custom.Base.{
  ℕ, ◌+◌, ◌≡◌, refl, ap, ◌∙◌, ◌⊎◌, inl, inr, true, some, [], ◌∷◌, ◌++◌, arith, ◌==◌, ==_iff,
  Bool-cases, ok, Result-cases, length, take, drop, length-append, length-take, length-drop,
  append_assoc,
}
use perpetual_custom.Base.Int.{pos}
use perpetual_custom.Base.Text.{Text, codes, text_eq_iff}
use perpetual_custom.Hex.{
  strip_hex_prefix, combine_hex_strings, last_units, without_last_units, parse_int,
}
use perpetual_custom.Hex.Laws.{
  NoX, NoX-take, NoX-drop, strip_hex_prefix-NoX, strip_hex_prefix-prefixed, last_units-append,
  without_last_units-append,
}
use perpetual_custom.Ethers.{Ethers}
use perpetual_custom.Signature.{
  is_valid_sig_type, signature_to_vrs, true_v, fix_raw_signature, create_typed_signature,
  get_prepended_hash, ec_recover_typed_signature,
}

-- The recovery byte that `fixRawSignature` writes is 27 or 28, in hexadecimal.
pub true_v_cases : (v t : Text) → true_v v ≡ ok t → (t ≡ codes "1b") ⊎ (t ≡ codes "1c")
unfolding true_v
true_v_cases v t h = ground (arith, text_eq_iff v (codes "1b"), text_eq_iff v (codes "1c"))

true_v-length : (v t : Text) → true_v v ≡ ok t → (length t ≡ 2) × NoX t
true_v-length v t h = elim (true_v_cases v t h) [
  | inl e ↦ rw e (refl, (refl, (refl, tt)))
  | inr e ↦ rw e (refl, (refl, (refl, tt)))
]

-- What `fixRawSignature` returns, when it returns.
pub fix_raw_signature-ok :
    (raw fixed : Text)
    → fix_raw_signature raw ≡ ok fixed
    → (v : Text) × (length (strip_hex_prefix raw) ≡ 130)
      × (true_v (take 2 (drop 128 (strip_hex_prefix raw))) ≡ ok v)
      × (fixed
          ≡ combine_hex_strings
              (take 64 (strip_hex_prefix raw) ∷ take 64 (drop 64 (strip_hex_prefix raw)) ∷ v ∷ []))
unfolding fix_raw_signature signature_to_vrs
fix_raw_signature-ok raw fixed h = elim (Bool-cases (length (strip_hex_prefix raw) == 130)) [
  | inl len ↦ elim (Result-cases (true_v (take 2 (drop 128 (strip_hex_prefix raw))))) [
    | inl (e, bad) ↦ absurd (ground arith)
    | inr (v, good) ↦ (v, (==_iff _ 130).0 len, good, ground arith)
  ]
  | inr other ↦ absurd (ground arith)
]

combine-three :
    (a b c : Text)
    → NoX a
    → NoX b
    → NoX c
    → combine_hex_strings (a ∷ b ∷ c ∷ []) ≡ codes "0x" ++ (a ++ (b ++ (c ++ [])))
unfolding combine_hex_strings
combine-three a b c ha hb hc =
    rw (strip_hex_prefix-NoX a ha, strip_hex_prefix-NoX b hb, strip_hex_prefix-NoX c hc)

-- A fixed signature of hexadecimal digits is `0x` and 130 digits.
pub fix_raw_signature-length :
    (raw fixed : Text)
    → NoX (strip_hex_prefix raw)
    → fix_raw_signature raw ≡ ok fixed
    → (body : Text) × (fixed ≡ codes "0x" ++ body) × (length body ≡ 130)
fix_raw_signature-length raw fixed hex h =
    let (v, len, good, e) = fix_raw_signature-ok raw fixed h in
    let (len_v, hex_v) = true_v-length _ v good in
    let r = take 64 (strip_hex_prefix raw) in
    let s = take 64 (drop 64 (strip_hex_prefix raw)) in
    (
      r ++ (s ++ (v ++ [])),
      e
          ∙ combine-three r s v (NoX-take 64 (strip_hex_prefix raw) hex)
              (NoX-take 64 (drop 64 (strip_hex_prefix raw))
                (NoX-drop 64 (strip_hex_prefix raw) hex))
              hex_v,
      omega (
        arith,
        length-append r (s ++ (v ++ [])),
        length-append s (v ++ []),
        length-append v [],
        length-take 64 (strip_hex_prefix raw),
        length-take 64 (drop 64 (strip_hex_prefix raw)),
        length-drop 64 (strip_hex_prefix raw),
      ),
    )

sig_type_cases : (n : ℕ) → is_valid_sig_type n ≡ true → (n ≡ 0) ⊎ ((n ≡ 1) ⊎ (n ≡ 2))
unfolding is_valid_sig_type
sig_type_cases n h = ground arith

-- The last two units of a typed signature read as its type.
parse_int-sig_type :
    (n : ℕ) → is_valid_sig_type n ≡ true → parse_int 16 (b'0' ∷ (b'0' + n) ∷ []) ≡ some (pos n)
unfolding parse_int
parse_int-sig_type n h = elim (sig_type_cases n h) [
  | inl e ↦ rw e
  | inr (inl e) ↦ rw e
  | inr (inr e) ↦ rw e
]

create_typed_signature-ok :
    (raw : Text) (n : ℕ) (typed : Text)
    → create_typed_signature raw n ≡ ok typed
    → (fixed : Text) × (is_valid_sig_type n ≡ true)
      × (fix_raw_signature raw ≡ ok fixed)
      × (typed ≡ fixed ++ b'0' ∷ (b'0' + n) ∷ [])
unfolding create_typed_signature
create_typed_signature-ok raw n typed h = elim (Bool-cases (is_valid_sig_type n)) [
  | inl valid ↦ elim (Result-cases (fix_raw_signature raw)) [
    | inl (e, bad) ↦ absurd (ground arith)
    | inr (fixed, good) ↦ (fixed, valid, good, ground arith)
  ]
  | inr invalid ↦ absurd (ground arith)
]

module _ (E : Ethers) where
  prepended-total :
      (hash : Text) (n : ℕ)
      → is_valid_sig_type n ≡ true
      → (p : Text) × (get_prepended_hash E hash (some (pos n)) ≡ some p)
  unfolding get_prepended_hash
  prepended-total hash n h = elim (sig_type_cases n h) [
    | inl e ↦ rw e (_, refl)
    | inr (inl e) ↦ rw e (_, refl)
    | inr (inr e) ↦ rw e (_, refl)
  ]

  ec_recover-parts :
      (hash typed fixed : Text) (n : ℕ) (p : Text)
      → length (strip_hex_prefix typed) ≡ 132
      → last_units 2 typed ≡ b'0' ∷ (b'0' + n) ∷ []
      → without_last_units 2 typed ≡ fixed
      → is_valid_sig_type n ≡ true
      → get_prepended_hash E hash (some (pos n)) ≡ some p
      → ec_recover_typed_signature E hash typed ≡ E.recover_address p fixed
  unfolding ec_recover_typed_signature
  ec_recover-parts hash typed fixed n p len last front valid prep =
      rw (len, last, parse_int-sig_type n valid, prep) (ap (E.recover_address p) front)

  -- A typed signature made from a raw one of hexadecimal digits recovers what the normalised raw
  -- signature recovers, over the hash prepended as the type says.
  pub ec_recover-create_typed_signature :
      (hash raw : Text) (n : ℕ) (typed : Text)
      → NoX (strip_hex_prefix raw)
      → create_typed_signature raw n ≡ ok typed
      → (fixed p : Text) × (fix_raw_signature raw ≡ ok fixed)
        × (get_prepended_hash E hash (some (pos n)) ≡ some p)
        × (ec_recover_typed_signature E hash typed ≡ E.recover_address p fixed)
  ec_recover-create_typed_signature hash raw n typed hex h =
      let (fixed, valid, fix, e) = create_typed_signature-ok raw n typed h in
      let (body, shape, len) = fix_raw_signature-length raw fixed hex fix in
      let (p, prep) = prepended-total hash n valid in
      let tag : Text = b'0' ∷ (b'0' + n) ∷ [] in
      let whole : typed ≡ codes "0x" ++ (body ++ tag) =
        e ∙ ap (λ t. t ++ tag) shape ∙ append_assoc (codes "0x") body tag in
      (
        fixed,
        p,
        fix,
        prep,
        ec_recover-parts hash typed fixed n p
            (ap (λ t. length (strip_hex_prefix t)) whole
              ∙ ap length (strip_hex_prefix-prefixed (body ++ tag))
              ∙ omega (arith, length-append body tag))
            (ap (last_units 2) e ∙ last_units-append fixed tag)
            (ap (without_last_units 2) e ∙ without_last_units-append fixed tag) valid prep,
      )

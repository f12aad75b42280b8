-- ===== src/Config/Laws.antt =====
-- About the settings of src/config.ts: ports, and accounts of keys.
use perpetual_custom.Base.{
  ℕ, ◌≤◌, ◌≡◌, refl, inl, inr, ◌&&◌, Option, none, some, [], ◌∷◌, arith, Bool-cases, subst, sym,
  ok-injective, Result, ok, err,
}
use perpetual_custom.Base.Int.{ℤ, pos, negsuc, leb_ℤ}
use perpetual_custom.Base.Text.{Text, codes}
use perpetual_custom.BigNumber.{BigNumber}
use perpetual_custom.Types.{Address, Error}
use perpetual_custom.Environment.{
  ◌>>=◌, Packages, EnvValue, number, port, env_or, assert_port, assert_non_empty,
  assert_env_var_type, is_empty,
}
use perpetual_custom.Config.{Config, key_of, load_config}

-- What holds of a result if there is one.
unfoldable pub Yields : {A : Type 0} → (A → Type 0) → Result Error A → Type 0
Yields P (ok a) = P a
Yields P (err e) = Unit

Yields-bind :
    {A B : Type 0} (P : B → Type 0) (m : Result Error A) (f : A → Result Error B)
    → ((a : A) → m ≡ ok a → Yields P (f a))
    → Yields P (m >>= f)
unfolding Yields ◌>>=◌
Yields-bind P (ok a) f h = h a refl
Yields-bind P (err e) f h = tt

Yields-ok : {A : Type 0} (P : A → Type 0) (a : A) → P a → Yields P (ok a)
unfolding Yields
Yields-ok P a h = h

Yields-of_ok :
    {A : Type 0} (P : A → Type 0) (r : Result Error A) (a : A) → Yields P r → r ≡ ok a → P a
unfolding Yields
Yields-of_ok P r a h e = subst (Yields P) e h

module _ {V J : Type 0} where
  -- A number from 0 to 65535.
  abbrev pub IsPort : EnvValue V J → Type 0
  IsPort v = (n : ℕ) × (v ≡ number (pos n)) × (n ≤ 65535)

  assert_port-IsPort :
      (name : Text) (z : Option ℤ) (v : EnvValue V J) → assert_port name z ≡ ok v → IsPort v
  unfolding assert_port
  assert_port-IsPort name none v h = absurd (ground (arith, h))
  assert_port-IsPort name (some (pos n)) v h =
      elim (Bool-cases (leb_ℤ (pos 0) (pos n) && leb_ℤ (pos n) (pos 65535))) [
        | inl e ↦ (n, sym (ok-injective (rw e at h)), ground (arith, e))
        | inr e ↦ absurd (ground (arith, e, h))
      ]
  assert_port-IsPort name (some (negsuc n)) v h = absurd (ground (arith, h))

module _ {V J : Type 0} ⦃N : BigNumber V⦄ (P : Packages V J) (env : Text → Option Text) where
  env_or-IsPort :
      (name : Text) (fallback v : EnvValue V J)
      → IsPort fallback
      → env_or P env name port fallback ≡ ok v
      → IsPort v
  unfolding env_or assert_env_var_type
  env_or-IsPort name fallback v good h = elim (Bool-cases (is_empty (env name))) [
    | inl e ↦ subst IsPort (ok-injective (rw e at h)) good
    | inr e ↦ assert_port-IsPort name _ v (rw e at h)
  ]

  -- The variable is set to a text that is not empty, a key of the account.
  abbrev pub HasKey : Text → Address → Type 0
  HasKey name account =
      (c : ℕ) × (s : Text) × (env name ≡ some (c ∷ s))
      × (P.compute_address (some (c ∷ s)) ≡ ok account)

  keyed :
      (name : Text) (e : Error) (value : Option Text) (v : EnvValue V J) (account : Address)
      → P.compute_address none ≡ err e
      → assert_non_empty name value ≡ ok v
      → P.compute_address (key_of v) ≡ ok account
      → (c : ℕ) × (s : Text) × (value ≡ some (c ∷ s))
        × (P.compute_address (some (c ∷ s)) ≡ ok account)
  unfolding assert_non_empty
  keyed name e none v account missing h k = absurd (cc (missing, rw (sym (ok-injective h)) at k))
  keyed name e (some []) v account missing h k = absurd (cc h)
  keyed name e (some (c ∷ s)) v account missing h k = (c, s, refl, rw (sym (ok-injective h)) at k)

module _ (V J : Type 0) ⦃N : BigNumber V⦄ (P : Packages V J) (env : Text → Option Text) where
  -- The ports are in range, and the accounts are those of the keys.
  pub record IsChecked (c : Config V J) : Type 0 where
    pub http_port : IsPort c.http_port
    pub healthcheck_http_port : IsPort c.healthcheck_http_port
    pub operator : HasKey P env (codes "OPERATOR_PRIVATE_KEY") c.operator_account
    pub deleveraging : HasKey P env (codes "DELEVERAGING_PRIVATE_KEY") c.deleveraging_account
    pub deployer : HasKey P env (codes "DEPLOYER_PRIVATE_KEY") c.deployer_account
    pub operator_key : P.compute_address (key_of c.operator_private_key) ≡ ok c.operator_account
    pub deleveraging_key :
        P.compute_address (key_of c.deleveraging_private_key) ≡ ok c.deleveraging_account
    pub deployer_key : P.compute_address (key_of c.deployer_private_key) ≡ ok c.deployer_account

  load_config-Yields :
      (e : Error) → P.compute_address none ≡ err e → Yields IsChecked (load_config V J P env)
  unfolding load_config assert_env_var_type
  load_config-Yields e missing = Yields-bind _ _ _ λ http_port h1. Yields-bind _ _ _ λ http_ip _.
      Yields-bind _ _ _ λ buffer _. Yields-bind _ _ _ λ rpc _. Yields-bind _ _ _ λ key1 k1.
        Yields-bind _ _ _ λ key2 k2. Yields-bind _ _ _ λ key3 k3. Yields-bind _ _ _ λ account1 a1.
          Yields-bind _ _ _ λ account3 a3. Yields-bind _ _ _ λ account2 a2.
            Yields-bind _ _ _ λ fee _. Yields-bind _ _ _ λ health h2. Yields-bind _ _ _ λ alive _.
              Yields-bind _ _ _ λ headers _. Yields-bind _ _ _ λ log _. Yields-bind _ _ _ λ path _.
                Yields-bind _ _ _ λ uri _. Yields-bind _ _ _ λ replicas _.
                  Yields-bind _ _ _ λ stamp _. Yields-bind _ _ _ λ network _.
                    Yields-ok _ _ (record {
                      http_port = env_or-IsPort P env _ _ http_port (3000, refl, ground arith) h1;
                      healthcheck_http_port =
                          env_or-IsPort P env _ _ health
                            (env_or-IsPort P env _ _ http_port (3000, refl, ground arith) h1) h2;
                      operator = keyed P env _ e _ key1 account1 missing k1 a1;
                      deleveraging = keyed P env _ e _ key2 account2 missing k2 a2;
                      deployer = keyed P env _ e _ key3 account3 missing k3 a3;
                      operator_key = a1;
                      deleveraging_key = a2;
                      deployer_key = a3;
                    })

  -- A configuration that loads has ports from 0 to 65535, and the accounts of three keys that are
  -- set and not empty, also though the check of a text that must not be empty lets a missing one
  -- pass. The address of a missing key is assumed to throw.
  pub load_config-IsChecked :
      (e : Error)
      → P.compute_address none ≡ err e
      → (c : Config V J) → load_config V J P env ≡ ok c
      → IsChecked c
  load_config-IsChecked e missing c h =
      Yields-of_ok IsChecked (load_config V J P env) c (load_config-Yields e missing) h

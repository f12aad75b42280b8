-- ===== src/Wallets/Laws.antt =====
-- About unlockAll and getSigner of src/wallet_provider.ts.
use perpetual_custom.Base.{
  ◌≡◌, refl, sym, subst, inl, inr, true, Option, none, some, List, [], ◌∷◌, Bool-cases,
  Option-cases, Result, ok, Result-cases, ok-injective, All, All-imp,
}
use perpetual_custom.Base.Text.{Text, text_eq, text_eq_iff, text_eq_refl, to_lower_case}
use perpetual_custom.Types.{Address, Error}
use perpetual_custom.Wallets.{
  KeyWallet, WalletByAddress, no_wallets, unlocked, has, add_wallet, get_signer, unlock, unlock_all,
}

module _ (new_wallet : Text → Result Error Address) where
  -- Each wallet stands under its address, which is that of its key.
  abbrev pub IsKeyed : WalletByAddress → Type 0
  IsKeyed wallets =
      (h : Text) (w : KeyWallet)
      → wallets h ≡ some w
      → (h ≡ to_lower_case w.address) × (new_wallet w.key ≡ ok w.address)

  -- The server signs for the account itself, with a key of it.
  abbrev pub SignsFor : WalletByAddress → Address → Type 0
  SignsFor wallets account =
      (w : KeyWallet) × (get_signer account wallets ≡ unlocked w)
      × (to_lower_case w.address ≡ to_lower_case account)
      × (new_wallet w.key ≡ ok w.address)

  no_wallets-IsKeyed : IsKeyed no_wallets
  no_wallets-IsKeyed h w e = absurd (cc e)

  add_wallet-IsKeyed :
      (w : KeyWallet) (wallets : WalletByAddress)
      → new_wallet w.key ≡ ok w.address
      → IsKeyed wallets
      → IsKeyed (add_wallet w wallets)
  unfolding add_wallet
  add_wallet-IsKeyed w wallets own keyed h v e = elim (Bool-cases (has w.address wallets)) [
    | inl there ↦ keyed h v (rw there at e)
    | inr new ↦ elim (Bool-cases (text_eq h (to_lower_case w.address))) [
      | inl same ↦
          let found : w ≡ v = cc (rw (new, same) at e) in
          subst (λ u. (h ≡ to_lower_case u.address) × (new_wallet u.key ≡ ok u.address)) found
            ((text_eq_iff h (to_lower_case w.address)).0 same, own)
      | inr other ↦ keyed h v (rw (new, other) at e)
    ]
  ]

  -- What is there stays there, and the wallet's account is there afterwards.
  add_wallet-has :
      (w : KeyWallet) (wallets : WalletByAddress) (account : Address)
      → has account wallets ≡ true
      → has account (add_wallet w wallets) ≡ true
  unfolding add_wallet has
  add_wallet-has w wallets account h = elim (Bool-cases (has w.address wallets)) [
    | inl there ↦ rw there h
    | inr new ↦
        rw new (elim (Bool-cases (text_eq (to_lower_case account) (to_lower_case w.address))) [
          | inl same ↦ rw same refl
          | inr other ↦ rw other h
        ])
  ]

  add_wallet-has_own :
      (w : KeyWallet) (wallets : WalletByAddress) → has w.address (add_wallet w wallets) ≡ true
  unfolding add_wallet has
  add_wallet-has_own w wallets = elim (Bool-cases (has w.address wallets)) [
    | inl there ↦ rw there there
    | inr new ↦ rw new (rw (text_eq_refl (to_lower_case w.address)) refl)
  ]

  has-SignsFor :
      (wallets : WalletByAddress) (account : Address)
      → IsKeyed wallets
      → has account wallets ≡ true
      → SignsFor wallets account
  unfolding has get_signer
  has-SignsFor wallets account keyed h = elim (Option-cases (wallets (to_lower_case account))) [
    | inl e ↦ absurd (cc (rw e at h))
    | inr (w, e) ↦
        let (place, own) = keyed (to_lower_case account) w e in
        (w, rw (e, get_signer) refl, sym place, own)
  ]

  unlock_parts :
      (passwd : Option Text) (wallets after : WalletByAddress)
      → unlock new_wallet passwd wallets ≡ ok after
      → (key account : Text) × (passwd ≡ some key)
        × (new_wallet key ≡ ok account)
        × (after ≡ add_wallet (record { key = key; address = account }) wallets)
  unfolding unlock
  unlock_parts none wallets after h = absurd (cc h)
  unlock_parts (some key) wallets after h = elim (Result-cases (new_wallet key)) [
    | inl (e, bad) ↦ absurd (cc (rw bad at h))
    | inr (account, made) ↦ (key, account, refl, made, sym (ok-injective (rw made at h)))
  ]

  -- The account of a password has a wallet.
  abbrev pub HasWallet : WalletByAddress → Option Text → Type 0
  HasWallet wallets passwd =
      (key account : Text) × (passwd ≡ some key)
      × (new_wallet key ≡ ok account)
      × (has account wallets ≡ true)

  unlock_all-HasWallet :
      (passwds : List (Option Text)) (wallets after : WalletByAddress)
      → unlock_all new_wallet passwds wallets ≡ ok after
      → IsKeyed wallets
      → IsKeyed after
        × ((account : Address) → has account wallets ≡ true → has account after ≡ true)
        × All (HasWallet after) passwds
  unfolding unlock_all
  unlock_all-HasWallet [] wallets after h keyed =
      subst
        (λ a.
          IsKeyed a
          × ((account : Address) → has account wallets ≡ true → has account a ≡ true)
          × Unit {0})
        (ok-injective h) (keyed, (λ account there. there), tt)
  unlock_all-HasWallet (passwd ∷ passwds) wallets after h keyed =
      elim (Result-cases (unlock new_wallet passwd wallets)) [
        | inl (e, bad) ↦ absurd (cc (rw bad at h))
        | inr (more, run) ↦
            let (key, account, given, made, same) = unlock_parts passwd wallets more run in
            let wallet : KeyWallet = record { key = key; address = account } in
            let more-keyed : IsKeyed more =
              subst IsKeyed (sym same) (add_wallet-IsKeyed wallet wallets made keyed) in
            let (after-keyed, kept, all) =
              unlock_all-HasWallet passwds more after (rw run at h) more-keyed in
            (
              after-keyed,
              (λ other there. kept other (
                  subst (λ a. has other a ≡ true) (sym same)
                    (add_wallet-has wallet wallets other there))),
              (
                (
                  key,
                  account,
                  given,
                  made,
                  kept account (
                      subst (λ a. has account a ≡ true) (sym same)
                        (add_wallet-has_own wallet wallets)),
                ),
                all,
              ),
            )
      ]

  -- Unlocking keys from the start: the server signs for the account of each.
  pub unlock_all-SignsFor :
      (passwds : List (Option Text)) (after : WalletByAddress)
      → unlock_all new_wallet passwds no_wallets ≡ ok after
      → All
          (λ p.
            (key account : Text) × (p ≡ some key)
            × (new_wallet key ≡ ok account)
            × SignsFor after account)
          passwds
  unlock_all-SignsFor passwds after h =
      let (keyed, _, all) = unlock_all-HasWallet passwds no_wallets after h no_wallets-IsKeyed in
      All-imp (HasWallet after) _ passwds
        (λ p (key, account, given, made, there).
          (key, account, given, made, has-SignsFor after account keyed there))
        all

-- ===== src/TradeOperation/Accounts.antt =====
-- The list of accounts and the indices into it that `commit` hands to the contract.
use perpetual_custom.Base.{
  ℕ, suc, ◌+◌, ◌≡◌, refl, ap, ◌∙◌, inl, inr, Bool, true, false, not, ◌||◌, some, List, [], ◌∷◌,
  ◌++◌, arith, any, get_elem?, All, All-imp, Bool-cases,
}
use perpetual_custom.Base.Int.{ℤ, pos, negsuc}
use perpetual_custom.Base.Text.{text_eq, text_eq_iff, text_le, text_le_trans, text_le_antisymm}
use perpetual_custom.Base.Sort.{sort, insert, All-insert}
use perpetual_custom.Types.{Address, TradeArg}
use perpetual_custom.TradeOperation.{
  TempTradeArg, set_add, account_set, sorted_accounts, index_from, index_of, to_trade_arg,
}

-- An index names an address in a list.
abbrev pub Names : List Address → ℤ → Address → Type 0
Names accounts (pos i) a = get_elem? accounts i ≡ some a
Names accounts (negsuc i) a = ⊥

abbrev pub Has : Address → List Address → Type 0
Has a s = any (text_eq a) s ≡ true

Has-append_left : (a : Address) (s t : List Address) → Has a s → Has a (s ++ t)
Has-append_left a [] t h = cc
Has-append_left a (b ∷ s) t h = ground (arith, Has-append_left a s t)

Has-append_right : (a : Address) (s t : List Address) → Has a t → Has a (s ++ t)
Has-append_right a [] t h = h
Has-append_right a (b ∷ s) t h = ground (arith, Has-append_right a s t h)

Has-set_add_self : (a : Address) (s : List Address) → Has a (set_add a s)
Has-set_add_self a s = elim (Bool-cases (any (text_eq a) s)) [
  | inl old ↦ rw old old
  | inr new ↦ rw new (Has-append_right a s (a ∷ []) (ground (arith, text_eq_iff a a)))
]

Has-set_add : (a b : Address) (s : List Address) → Has a s → Has a (set_add b s)
Has-set_add a b s h = elim (Bool-cases (any (text_eq b) s)) [
  | inl old ↦ rw old h
  | inr new ↦ rw new (Has-append_left a s (b ∷ []) h)
]

Has-account_set :
    (a : Address) (ts : List TempTradeArg) (s : List Address) → Has a s → Has a (account_set ts s)
Has-account_set a [] s h = h
Has-account_set a (t ∷ ts) s h =
    Has-account_set a ts (set_add t.taker (set_add t.maker s))
      (Has-set_add a t.taker (set_add t.maker s) (Has-set_add a t.maker s h))

-- Both parties of every trade are in the set.
account_set-Has :
    (ts : List TempTradeArg) (s : List Address)
    → All (λ t. Has t.maker (account_set ts s) × Has t.taker (account_set ts s)) ts
account_set-Has [] s = tt
account_set-Has (t ∷ ts) s =
    let s' = set_add t.taker (set_add t.maker s) in
    (
      (
        Has-account_set t.maker ts s'
            (Has-set_add t.maker t.taker (set_add t.maker s) (Has-set_add_self t.maker s)),
        Has-account_set t.taker ts s' (Has-set_add_self t.taker (set_add t.maker s)),
      ),
      account_set-Has ts s',
    )

module _ (before : Address → Address → Bool) where
  Has-insert_self :
      (a b : Address) (s : List Address) → text_eq a b ≡ true → Has a (insert before b s)
  Has-insert_self a b [] h = ground arith
  Has-insert_self a b (c ∷ s) h = ground (arith, Has-insert_self a b s h)

  Has-insert : (a b : Address) (s : List Address) → Has a s → Has a (insert before b s)
  Has-insert a b [] h = cc
  Has-insert a b (c ∷ s) h = ground (arith, Has-insert a b s)

  Has-sort : (a : Address) (s : List Address) → Has a s → Has a (sort before s)
  Has-sort a [] h = h
  Has-sort a (b ∷ s) h = elim (Bool-cases (text_eq a b)) [
    | inl e ↦ Has-insert_self a b (sort before s) e
    | inr e ↦ Has-insert a b (sort before s) (Has-sort a s (ground arith))
  ]

-- `indexOf` finds what the list has.
index_from-Names :
    (a : Address) (s done : List Address) (i : ℕ)
    → ((k : ℕ) (b : Address) → get_elem? s k ≡ some b → get_elem? done (i + k) ≡ some b)
    → Has a s
    → Names done (index_from i a s) a
index_from-Names a [] done i place h = absurd (ground arith)
index_from-Names a (b ∷ s) done i place h = elim (Bool-cases (text_eq b a)) [
  | inl e ↦
      rw e (ap (get_elem? done) (omega arith) ∙ place 0 b refl ∙ ap some ((text_eq_iff b a).0 e))
  | inr e ↦ rw e (
      index_from-Names a s done (suc i)
        (λ k b' p. ap (get_elem? done) (omega arith) ∙ place (suc k) b' p)
        (ground (arith, text_eq_iff a b, text_eq_iff b a)))
]

index_of-Names : (a : Address) (s : List Address) → Has a s → Names s (index_of a s) a
index_of-Names a s h = index_from-Names a s s 0 (λ k b p. ap (get_elem? s) (omega arith) ∙ p) h

Has-sorted_accounts :
    (ts : List TempTradeArg)
    → All (λ t. Has t.maker (sorted_accounts ts) × Has t.taker (sorted_accounts ts)) ts
unfolding sorted_accounts
Has-sorted_accounts ts =
    All-imp (λ t. Has t.maker (account_set ts []) × Has t.taker (account_set ts []))
      (λ t. Has t.maker (sorted_accounts ts) × Has t.taker (sorted_accounts ts)) ts
      (λ t h.
        (Has-sort _ t.maker (account_set ts []) h.0, Has-sort _ t.taker (account_set ts []) h.1))
      (account_set-Has ts [])

-- What an argument of the contract's `trade` says of the trade that it stands for.
pub record Stands (accounts : List Address) (t : TempTradeArg) (arg : TradeArg) : Type 0 where
  pub maker : Names accounts arg.maker_index t.maker
  pub taker : Names accounts arg.taker_index t.taker
  pub trader : arg.trader ≡ t.trader
  pub payload : arg.payload ≡ t.payload

-- Every trade, in its place in the list, is sent with indices that name its two parties.
pub trade_args-Stands :
    (ts : List TempTradeArg)
    → All (λ t. Stands (sorted_accounts ts) t (to_trade_arg (sorted_accounts ts) t)) ts
trade_args-Stands ts =
    All-imp (λ t. Has t.maker (sorted_accounts ts) × Has t.taker (sorted_accounts ts))
      (λ t. Stands (sorted_accounts ts) t (to_trade_arg (sorted_accounts ts) t)) ts
      (λ t h. record {
        maker = index_of-Names t.maker (sorted_accounts ts) h.0;
        taker = index_of-Names t.taker (sorted_accounts ts) h.1;
        trader = refl;
        payload = refl;
      })
      (Has-sorted_accounts ts)

-- No address is in the list twice.
abbrev Distinct : List Address → Type 0
Distinct [] = Unit
Distinct (a ∷ s) = (any (text_eq a) s ≡ false) × Distinct s

any-concat :
    (p : Address → Bool) (s : List Address) (a : Address) → any p (s ++ a ∷ []) ≡ (any p s || p a)
any-concat p [] a = ground arith
any-concat p (b ∷ s) a = ground (arith, any-concat p s a)

Distinct-concat :
    (s : List Address) (a : Address)
    → any (text_eq a) s ≡ false
    → Distinct s
    → Distinct (s ++ a ∷ [])
Distinct-concat [] a new h = (refl, tt)
Distinct-concat (b ∷ s) a new h = (
  ground (arith, any-concat (text_eq b) s a, text_eq_iff a b, text_eq_iff b a, h.0),
  Distinct-concat s a (ground arith) h.1,
)

Distinct-set_add : (a : Address) (s : List Address) → Distinct s → Distinct (set_add a s)
Distinct-set_add a s h = elim (Bool-cases (any (text_eq a) s)) [
  | inl old ↦ rw old h
  | inr new ↦ rw new (Distinct-concat s a new h)
]

Distinct-account_set :
    (ts : List TempTradeArg) (s : List Address) → Distinct s → Distinct (account_set ts s)
Distinct-account_set [] s h = h
Distinct-account_set (t ∷ ts) s h =
    Distinct-account_set ts (set_add t.taker (set_add t.maker s))
      (Distinct-set_add t.taker (set_add t.maker s) (Distinct-set_add t.maker s h))

-- Strictly ascending: no address is below or at an earlier one.
abbrev pub IsAscending : List Address → Type 0
IsAscending [] = Unit
IsAscending (a ∷ s) = All (λ b. text_le b a ≡ false) s × IsAscending s

abbrev after : Address → Address → Bool
after later earlier = not (text_le earlier later)

any-insert :
    (p : Address → Bool) (a : Address) (s : List Address)
    → any p (insert after a s) ≡ (p a || any p s)
any-insert p a [] = refl
any-insert p a (b ∷ s) = ground (arith, any-insert p a s)

any-sort : (p : Address → Bool) (s : List Address) → any p (sort after s) ≡ any p s
any-sort p [] = refl
any-sort p (a ∷ s) = ground (arith, any-insert p a (sort after s), any-sort p s)

le_below : (a b c : Address) → text_le a b ≡ true → text_le c b ≡ false → text_le c a ≡ false
le_below a b c h k = ground (arith, text_le_trans c a b)

insert-IsAscending :
    (a : Address) (s : List Address)
    → any (text_eq a) s ≡ false
    → IsAscending s
    → IsAscending (insert after a s)
insert-IsAscending a [] new h = (tt, tt)
insert-IsAscending a (b ∷ s) new h = elim (Bool-cases (text_le a b)) [
  | inl e ↦ rw e (
    (
      ground (arith, text_le_antisymm a b, text_eq_iff a b),
      All-imp (λ c. text_le c b ≡ false) (λ c. text_le c a ≡ false) s (λ c. le_below a b c e) h.0,
    ),
    h,
  )
  | inr e ↦ rw e (
    All-insert after (λ c. text_le c b ≡ false) a s e h.0,
    insert-IsAscending a s (ground arith) h.1,
  )
]

sort-IsAscending : (s : List Address) → Distinct s → IsAscending (sort after s)
sort-IsAscending [] h = tt
sort-IsAscending (a ∷ s) h =
    insert-IsAscending a (sort after s) (any-sort (text_eq a) s ∙ h.0) (sort-IsAscending s h.1)

-- The accounts are strictly ascending, as the contract demands.
pub sorted_accounts-IsAscending : (ts : List TempTradeArg) → IsAscending (sorted_accounts ts)
unfolding sorted_accounts
sorted_accounts-IsAscending ts =
    sort-IsAscending (account_set ts []) (Distinct-account_set ts [] tt)

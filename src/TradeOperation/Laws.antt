-- ===== src/TradeOperation/Laws.antt =====
-- What `commit` sends, when it may be called again, and what a failed transaction leaves.
use perpetual_custom.Base.{
  ◌≡◌, refl, sym, ap, ◌∙◌, inl, inr, Bool, true, false, List, [], ◌∷◌, ◌++◌, arith, map, Result, ok,
  err, All, Result-cases, >>=-eq-ok,
}
use perpetual_custom.Base.Text.{Text, to_lower_case}
use perpetual_custom.Types.{Address, TradeArg, Error, already_committed, no_trades}
use perpetual_custom.Ethers.{Contracts, Wallet}
use perpetual_custom.TradeOperation.{
  TempTradeArg, TradeOperation, add_trade_arg, sorted_accounts, to_trade_arg, trade_args,
  send_trade, after_send, commit,
}
use perpetual_custom.TradeOperation.Accounts.{
  Stands, IsAscending, trade_args-Stands, sorted_accounts-IsAscending,
}

-- The arguments stand for the trades, one for one and in order.
abbrev pub Aligned : List Address → List TempTradeArg → List TradeArg → Type 0
Aligned accounts [] [] = Unit
Aligned accounts [] (a ∷ args) = ⊥
Aligned accounts (t ∷ ts) [] = ⊥
Aligned accounts (t ∷ ts) (a ∷ args) = Stands accounts t a × Aligned accounts ts args

Aligned-map :
    (accounts : List Address) (ts : List TempTradeArg)
    → All (λ t. Stands accounts t (to_trade_arg accounts t)) ts
    → Aligned accounts ts (map (to_trade_arg accounts) ts)
Aligned-map accounts [] h = tt
Aligned-map accounts (t ∷ ts) h = (h.0, Aligned-map accounts ts h.1)

-- The ways in which a call of `commit` ends.
pub data Ends (c : Contracts) (w : Wallet) (sender : Address) (op : TradeOperation)
    : TradeOperation × Result Error Text → Type 0 where
  again : op.committed ≡ true → Ends c w sender op (op, err already_committed)
  empty : op.committed ≡ false → op.trades ≡ [] → Ends c w sender op (op, err no_trades)
  failed :
      (e : Error)
      → op.committed ≡ false
      → send_trade c w sender op.trades ≡ err e
      → Ends c w sender op (op, err e)
  sent :
      (tx : Text)
      → op.committed ≡ false
      → send_trade c w sender op.trades ≡ ok tx
      → Ends c w sender op (record op { committed = true }, ok tx)

send_trade-Ends :
    (c : Contracts) (w : Wallet) (sender : Address) (op : TradeOperation)
    → op.committed ≡ false
    → Ends c w sender op (after_send op (send_trade c w sender op.trades))
send_trade-Ends c w sender op fresh = elim (Result-cases (send_trade c w sender op.trades)) [
  | inl (e, bad) ↦
      let same : record op { committed = false } ≡ op = ground arith in
      rw (bad, same) (failed e fresh bad)
  | inr (tx, good) ↦ rw good (sent tx fresh good)
]

commit-Ends_of :
    (c : Contracts) (w : Wallet) (sender : Address) (ts : List TempTradeArg) (b : Bool)
    → let op : TradeOperation = record { trades = ts; committed = b } in
      Ends c w sender op (commit c w sender op)
unfolding commit
commit-Ends_of c w sender ts true = again refl
commit-Ends_of c w sender [] false = empty refl refl
commit-Ends_of c w sender (t ∷ ts) false =
    send_trade-Ends c w sender (record { trades = t ∷ ts; committed = false }) refl

-- A call of `commit` throws and leaves the operation as it was when it has been committed, when it
-- holds no trade, or when the transaction is refused; else it marks it as committed.
pub commit-Ends :
    (c : Contracts) (w : Wallet) (sender : Address) (op : TradeOperation)
    → Ends c w sender op (commit c w sender op)
commit-Ends c w sender op = commit-Ends_of c w sender op.trades op.committed

-- The transaction of a commit that returned, and what it was made of.
pub record Sent (c : Contracts) (w : Wallet) (sender : Address) (ts : List TempTradeArg) (tx : Text)
    : Type 0 where
  pub accounts : List Address
  pub args : List TradeArg
  pub ascending : IsAscending accounts
  pub aligned : Aligned accounts ts args
  pub payload : Text
  pub encoded : w.encode_trade accounts args ≡ ok payload
  pub transaction : w.send_transaction sender c.perpetual_proxy payload ≡ ok tx

send_trade-Sent :
    (c : Contracts) (w : Wallet) (sender : Address) (ts : List TempTradeArg) (tx : Text)
    → send_trade c w sender ts ≡ ok tx
    → Sent c w sender ts tx
send_trade-Sent c w sender ts tx e =
    let (payload, encoded, made) = >>=-eq-ok _ _ e in
    record {
      accounts = sorted_accounts ts;
      args = trade_args ts;
      ascending = sorted_accounts-IsAscending ts;
      aligned = Aligned-map (sorted_accounts ts) ts (trade_args-Stands ts);
      payload = payload;
      encoded = encoded;
      transaction = made;
    }

-- What the end of a call says of a call that returned.
Ends-ok :
    {c : Contracts} {w : Wallet} {sender : Address} {op : TradeOperation}
    (r : TradeOperation × Result Error Text)
    → Ends c w sender op r
    → (tx : Text) → r.1 ≡ ok tx
    → (op.committed ≡ false) × (r.0 ≡ record op { committed = true }) × Sent c w sender op.trades tx
Ends-ok _ (again h) tx e = absurd (cc)
Ends-ok _ (empty h k) tx e = absurd (cc)
Ends-ok _ (failed e' h k) tx e = absurd (cc)
Ends-ok {c} {w} {sender} {op} _ (sent tx' h k) tx e =
    (h, refl, send_trade-Sent c w sender op.trades tx (k ∙ e))

pub commit-ok :
    (c : Contracts) (w : Wallet) (sender : Address) (op op' : TradeOperation) (tx : Text)
    → commit c w sender op ≡ (op', ok tx)
    → (op.committed ≡ false)
      × Sent c w sender op.trades tx
      × ((arg : TempTradeArg) → add_trade_arg arg op' ≡ err already_committed)
      × ((other : Address) → commit c w other op' ≡ (op', err already_committed))
unfolding commit add_trade_arg
commit-ok c w sender op op' tx h =
    let (fresh, state, what) =
      Ends-ok {c = c} {w = w} {sender = sender} {op = op} _ (commit-Ends c w sender op) tx
        (ap (λ r. r.1) h) in
    let marked : op'.committed ≡ true =
      ap (λ r. r.0.committed) (sym h) ∙ ap (λ o. o.committed) state in
    (fresh, what, (λ arg. rw marked), (λ other. rw marked))

Ends-err :
    {c : Contracts} {w : Wallet} {sender : Address} {op : TradeOperation}
    (r : TradeOperation × Result Error Text)
    → Ends c w sender op r
    → (e : Error) → r.1 ≡ err e
    → r.0 ≡ op
Ends-err _ (again h) e q = refl
Ends-err _ (empty h k) e q = refl
Ends-err _ (failed e' h k) e q = refl
Ends-err _ (sent tx h k) e q = absurd (cc)

pub commit-err :
    (c : Contracts) (w : Wallet) (sender : Address) (op op' : TradeOperation) (e : Error)
    → commit c w sender op ≡ (op', err e)
    → op' ≡ op
commit-err c w sender op op' e h =
    ap (λ r. r.0) (sym h)
    ∙ Ends-err {c = c} {w = w} {sender = sender} {op = op} _ (commit-Ends c w sender op) e
        (ap (λ r. r.1) h)

-- What a call of `commit` has done, by what it returned.
abbrev pub CommitEffect :
    Contracts → Wallet → Address → TradeOperation → TradeOperation × Result Error Text → Type 0
CommitEffect c w sender op (op', err e) = op' ≡ op
CommitEffect c w sender op (op', ok tx) =
    (op.committed ≡ false)
    × Sent c w sender op.trades tx
    × ((arg : TempTradeArg) → add_trade_arg arg op' ≡ err already_committed)
    × ((other : Address) → commit c w other op' ≡ (op', err already_committed))

CommitEffect-parts :
    (c : Contracts) (w : Wallet) (sender : Address) (op : TradeOperation)
    (p : TradeOperation × Result Error Text)
    → commit c w sender op ≡ p
    → CommitEffect c w sender op p
CommitEffect-parts c w sender op (op', err e) h = commit-err c w sender op op' e h
CommitEffect-parts c w sender op (op', ok tx) h = commit-ok c w sender op op' tx h

-- When `commit` returns, a transaction to the proxy was sent by the given account, whose accounts
-- are strictly ascending and whose arguments name, in order, maker and taker of every trade; the
-- operation was not committed before, and from then on it takes no trade and no further commit. A
-- `commit` that throws can be made again: the operation is the one that it was called on.
pub commit-whole :
    (c : Contracts) (w : Wallet) (sender : Address) (op : TradeOperation)
    → CommitEffect c w sender op (commit c w sender op)
commit-whole c w sender op = CommitEffect-parts c w sender op (commit c w sender op) refl

-- What `addTradeArg` leaves when it returns.
pub add_trade_arg-ok :
    (arg : TempTradeArg) (op op' : TradeOperation)
    → add_trade_arg arg op ≡ ok op'
    → (op.committed ≡ false)
      × (op'.trades
          ≡ op.trades
            ++ record arg { maker = to_lower_case arg.maker; taker = to_lower_case arg.taker } ∷ [])
      × (op'.committed ≡ op.committed)
unfolding add_trade_arg
add_trade_arg-ok arg op op' h = ground arith

-- ===== src/Exchange/Moves.antt =====
-- What a request may do to the book: the abstract exchange, which knows nothing of tables, texts,
-- transactions and events.
use perpetual_custom.Base.{ℕ, ◌≡◌, true, some, List, [], ◌∷◌, All, ok}
use perpetual_custom.Base.Text.{Text}
use perpetual_custom.BigNumber.{BigNumber}
use perpetual_custom.Types.{SignedOrder, SraOrder}
use perpetual_custom.Orders.{get_order_hash}
use perpetual_custom.Matching.Fills.{Fill, IsSound, traded_sum}
use perpetual_custom.Matching.Candidates.{IsMatch}
use perpetual_custom.Service.{Env}
use perpetual_custom.Handlers.Laws.{api_order}
use perpetual_custom.Exchange.{Request, post, cancel, Book, put, remove, put_fills}

module _ {V : Type 0} ⦃N : BigNumber V⦄ where
  -- The order with the filled amount that a request to post brings in.
  abbrev pub IsWhole : SignedOrder V → Type 0
  IsWhole o =
      (N.is_integer o.amount ≡ true)
      × (N.is_integer o.expiration ≡ true)
      × (N.is_integer o.salt ≡ true)
      × (N.lte (N.of_ℕ 0) o.amount ≡ true)

  -- A posted order has a whole amount, expiration and salt, and its amount is not negative.
  abbrev pub IsWellFormed : Request V → Type 0
  IsWellFormed (post now_ms o) = IsWhole o
  IsWellFormed (cancel hashes) = Unit

  -- The fills are of orders in the book that match the order, and sound.
  abbrev pub FillsFrom : Env → ℕ → SignedOrder V → Book V → List (Fill V) → Type 0
  FillsFrom env now_ms o b fs =
      All
        (λ f.
          (b f.0.meta_data.order_hash ≡ some f.0)
          × (IsSound f × IsMatch now_ms env.expiration_buffer o f.0))
        fs

  abbrev pub IsPresent : Book V → Text → Type 0
  IsPresent b h = (a : SraOrder V) × (b h ≡ some a)

  pub data Moves (env : Env) (b : Book V) : Request V → Book V → Type 0 where
    -- nothing happens
    refused : {r : Request V} {b' : Book V} → b' ≡ b → Moves env b r b'
    -- sound fills of matching orders, and the order itself with what they filled
    posted :
        {now_ms : ℕ} {o : SignedOrder V} {b' : Book V} (fs : List (Fill V)) (hash : Text)
        → FillsFrom env now_ms o b fs
        → N.lte (traded_sum fs) o.amount ≡ true
        → get_order_hash env.ethers env.contracts o.order ≡ ok hash
        → b' ≡ put (api_order now_ms o hash (traded_sum fs)) (put_fills fs b)
        → Moves env b (post now_ms o) b'
    -- all hashes of the request were in the book, and none is any more
    cancelled :
        {hashes : List Text} {b' : Book V}
        → All (IsPresent b) hashes
        → b' ≡ remove hashes b
        → Moves env b (cancel hashes) b'

  -- A sequence of requests, one after the other.
  pub data Runs (env : Env) : Book V → List (Request V) → Book V → Type 0 where
    done : {b : Book V} → Runs env b [] b
    step :
        {b b' b'' : Book V} {r : Request V} {rs : List (Request V)}
        → Moves env b r b'
        → Runs env b' rs b''
        → Runs env b (r ∷ rs) b''

-- ===== src/Exchange/Sound.antt =====
-- The invariant of the book of orders.
use perpetual_custom.Base.{
  ℕ, ◌≡◌, sym, subst, inl, inr, true, Option, none, some, List, [], ◌∷◌, any, All, All-imp,
  Bool-cases,
}
use perpetual_custom.Base.Text.{Text, text_eq}
use perpetual_custom.BigNumber.{BigNumber}
use perpetual_custom.BigNumber.Laws.{plus_mono_right}
use perpetual_custom.Types.{SignedOrder, SraOrder}
use perpetual_custom.OrderUtils.RoundTrip.{IsIntegral}
use perpetual_custom.Matching.{add_filled}
use perpetual_custom.Matching.Fills.{Fill, IsSound, traded_sum}
use perpetual_custom.Service.{Env}
use perpetual_custom.Service.Effects.{traded_sum-nonneg}
use perpetual_custom.Handlers.Laws.{api_order}
use perpetual_custom.Exchange.{Request, Book, put, remove, put_fills}
use perpetual_custom.Exchange.Moves.{
  IsWellFormed, IsWhole, Moves, refused, posted, cancelled, Runs, done, step,
}

module _ {V : Type 0} ⦃N : BigNumber V⦄ where
  open N use {of_ℕ, lte, plus}

  -- The filled amount lies between 0 and the amount, and amount, expiration and salt are whole.
  pub record IsSoundOrder (a : SraOrder V) : Type 0 where
    pub integral : IsIntegral a
    pub nonneg : lte (of_ℕ 0) a.meta_data.filled_amount ≡ true
    pub within : lte a.meta_data.filled_amount a.order.amount ≡ true

  abbrev pub SoundAt : Option (SraOrder V) → Type 0
  SoundAt none = Unit
  SoundAt (some a) = IsSoundOrder a

  abbrev pub IsSoundBook : Book V → Type 0
  IsSoundBook b = (h : Text) → SoundAt (b h)

  pub put-IsSoundBook :
      (a : SraOrder V) (b : Book V) → IsSoundOrder a → IsSoundBook b → IsSoundBook (put a b)
  put-IsSoundBook a b h sound k = elim (Bool-cases (text_eq k a.meta_data.order_hash)) [
    | inl e ↦ rw e h
    | inr e ↦ rw e (sound k)
  ]

  pub remove-IsSoundBook :
      (hashes : List Text) (b : Book V) → IsSoundBook b → IsSoundBook (remove hashes b)
  remove-IsSoundBook hashes b sound k = elim (Bool-cases (any (text_eq k) hashes)) [
    | inl e ↦ rw e tt
    | inr e ↦ rw e (sound k)
  ]

  pub add_filled-IsSoundOrder :
      (a : SraOrder V) (t : V) → IsSoundOrder a → IsSound (a, t) → IsSoundOrder (add_filled t a)
  add_filled-IsSoundOrder a t h f = record {
    integral = record {
      amount = h.integral.amount;
      expiration = h.integral.expiration;
      salt = h.integral.salt;
    };
    nonneg = N.lte_trans _ _ _ h.nonneg (
        rw (N.plus_zero a.meta_data.filled_amount) at (
          plus_mono_right (of_ℕ 0) t a.meta_data.filled_amount
            (N.lte_total t (of_ℕ 0) f.positive)));
    within = f.within;
  }

  pub put_fills-IsSoundBook :
      (fs : List (Fill V)) (b : Book V)
      → All (λ f. IsSoundOrder f.0 × IsSound f) fs
      → IsSoundBook b
      → IsSoundBook (put_fills fs b)
  unfolding put_fills
  put_fills-IsSoundBook [] b h sound = sound
  put_fills-IsSoundBook ((a, t) ∷ fs) b ((ha, hf), h) sound =
      put_fills-IsSoundBook fs (put (add_filled t a) b) h
        (put-IsSoundBook (add_filled t a) b (add_filled-IsSoundOrder a t ha hf) sound)

  -- An order that is found in a sound book is sound.
  pub IsSoundOrder-found :
      (b : Book V) (h : Text) (a : SraOrder V) → IsSoundBook b → b h ≡ some a → IsSoundOrder a
  IsSoundOrder-found b h a sound e = subst SoundAt e (sound h)

  posted-IsSoundOrder :
      (now_ms : ℕ) (o : SignedOrder V) (hash : Text) (fs : List (Fill V))
      → IsWhole o
      → All IsSound fs
      → lte (traded_sum fs) o.amount ≡ true
      → IsSoundOrder (api_order now_ms o hash (traded_sum fs))
  unfolding api_order
  posted-IsSoundOrder now_ms o hash fs (amount, expiration, salt, _) sound most = record {
    integral = record { amount = amount; expiration = expiration; salt = salt };
    nonneg = traded_sum-nonneg fs sound;
    within = most;
  }

  -- A move by a well-formed request keeps the book sound.
  pub Moves-IsSoundBook :
      {env : Env} {b b' : Book V} {r : Request V}
      → Moves env b r b'
      → IsWellFormed r
      → IsSoundBook b
      → IsSoundBook b'
  Moves-IsSoundBook {b} (refused e) well sound = subst IsSoundBook (sym e) sound
  Moves-IsSoundBook {b} (posted {now_ms} {o} fs hash from most hashed e) well sound =
      subst IsSoundBook (sym e) (
        put-IsSoundBook (api_order now_ms o hash (traded_sum fs)) (put_fills fs b)
          (posted-IsSoundOrder now_ms o hash fs well (All-imp _ IsSound fs (λ f h. h.1.0) from)
            most)
          (put_fills-IsSoundBook fs b
            (All-imp _ (λ f. IsSoundOrder f.0 × IsSound f) fs
              (λ f h. (IsSoundOrder-found b _ f.0 sound h.0, h.1.0)) from)
            sound))
  Moves-IsSoundBook {b} (cancelled {hashes} _ e) well sound =
      subst IsSoundBook (sym e) (remove-IsSoundBook hashes b sound)

  -- Any run of well-formed requests keeps the book sound.
  pub Runs-IsSoundBook :
      {env : Env} {b b' : Book V} {rs : List (Request V)}
      → Runs env b rs b'
      → All IsWellFormed rs
      → IsSoundBook b
      → IsSoundBook b'
  Runs-IsSoundBook done well sound = sound
  Runs-IsSoundBook (step m rest) well sound =
      Runs-IsSoundBook rest well.1 (Moves-IsSoundBook m well.0 sound)

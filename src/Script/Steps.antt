-- ===== src/Script/Steps.antt =====
-- The rules for a script: what holds if it returns follows from what its requests are answered.
use perpetual_custom.Base.{◌≡◌, refl, ◌⊎◌, inl, inr, Option, List, [], ◌∷◌, Result, ok, err}
use perpetual_custom.Base.Text.{Text}
use perpetual_custom.Types.{Address, Error, type_error}
use perpetual_custom.Script.{
  Chain, Call, Deployment, Script, book_set, proceed, answered, request, set_address, address_of,
  first_signer, return,
}

-- Why a script has stopped: the chain rejects a request that follows the requests so far, or it
-- gives no signer.
abbrev pub IsStopped : Chain → Deployment → Error → Type 0
IsStopped K s e =
    ((call : Call) × (K.respond s.log call ≡ err e)) ⊎ ((K.signers ≡ []) × (e ≡ type_error))

-- What holds of the state and the value if the script returns; otherwise why it has stopped.
unfoldable pub After :
    {A : Type 0} → Chain → (A → Deployment → Type 0) → Deployment × Result Error A → Type 0
After K P (s, ok a) = P a s
After K P (s, err e) = IsStopped K s e

-- A script returns, or it is stopped.
abbrev pub Outcome :
    {A : Type 0} → Chain → (A → Deployment → Type 0) → Deployment × Result Error A → Type 0
Outcome {A} K P r =
    ((s : Deployment) × (a : A) × (r ≡ (s, ok a)) × P a s)
    ⊎ ((s : Deployment) × (e : Error) × (r ≡ (s, err e)) × IsStopped K s e)

pub After-Outcome :
    {A : Type 0} (K : Chain) (P : A → Deployment → Type 0) (r : Deployment × Result Error A)
    → After K P r
    → Outcome K P r
unfolding After
After-Outcome K P (s, ok a) h = inl (s, a, refl, h)
After-Outcome K P (s, err e) h = inr (s, e, refl, h)

After-answered :
    {A : Type 0} (K : Chain) (P : A → Deployment → Type 0) (call : Call) (f : Text → Script A)
    (s : Deployment) (r : Result Error Text)
    → K.respond s.log call ≡ r
    → ((t : Text) → After K P (f t (record s { log = (call, t) ∷ s.log })))
    → After K P (proceed f (answered call s r))
unfolding proceed After
After-answered K P call f s (ok t) q h = h t
After-answered K P call f s (err e) q h = inl (call, q)

module _ {A : Type 0} (K : Chain) (P : A → Deployment → Type 0) where
  pub After-proceed :
      {B : Type 0} (f : B → Script A) (r : Deployment × Result Error B)
      → After K (λ b s. After K P (f b s)) r
      → After K P (proceed f r)
  unfolding proceed After
  After-proceed f (s, ok b) h = h
  After-proceed f (s, err e) h = h

  pub After-request :
      (call : Call) (f : Text → Script A) (s : Deployment)
      → ((t : Text) → After K P (f t (record s { log = (call, t) ∷ s.log })))
      → After K P (proceed f (request K call s))
  unfolding request
  After-request call f s h = After-answered K P call f s (K.respond s.log call) refl h

  pub After-set_address :
      (name address : Text) (f : Unit → Script A) (s : Deployment)
      → After K P (f tt (record s { address_book = book_set name address s.address_book }))
      → After K P (proceed f (set_address name address s))
  unfolding set_address proceed
  After-set_address name address f s h = h

  pub After-address_of :
      (name : Text) (f : Option Text → Script A) (s : Deployment)
      → After K P (f (s.address_book name) s)
      → After K P (proceed f (address_of name s))
  unfolding address_of proceed
  After-address_of name f s h = h

  After-first :
      (f : Address → Script A) (signers : List Address) (s : Deployment)
      → K.signers ≡ signers
      → ((a : Address) → After K P (f a s))
      → After K P (proceed f (first_signer signers s))
  unfolding first_signer proceed After
  After-first f [] s q h = inr (q, refl)
  After-first f (a ∷ as') s q h = h a

  pub After-first_signer :
      (f : Address → Script A) (s : Deployment)
      → ((a : Address) → After K P (f a s))
      → After K P (proceed f (first_signer K.signers s))
  After-first_signer f s h = After-first f K.signers s refl h

module _ (K : Chain) (Q : Unit → Deployment → Type 0) where
  pub After-set_last :
      (name address : Text) (s : Deployment)
      → Q tt (record s { address_book = book_set name address s.address_book })
      → After K Q (set_address name address s)
  unfolding set_address After
  After-set_last name address s h = h

  pub After-return : (s : Deployment) → Q tt s → After K Q (return tt s)
  unfolding return After
  After-return s h = h

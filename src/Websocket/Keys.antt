-- ===== src/Websocket/Keys.antt =====
-- The keys of the two maps of the server.
use perpetual_custom.Base.{
  ◌≡◌, refl, some, ap, subst, inl, inr, false, List, [], ◌∷◌, map, any, arith, All, All-imp,
  Bool-cases,
}
use perpetual_custom.Base.Text.{Text, text_eq, text_eq_iff}
use perpetual_custom.Maps.{Map, map_get, map_set, map_delete}
use perpetual_custom.Websocket.{delete_each}

module _ {ℓ κ} {A : Type ℓ} {B : Type κ} where
  pub keys-map_set :
      (k : Text) (a : A) (b : B) (m : Map A) (n : Map B)
      → map (λ e. e.0) m ≡ map (λ e. e.0) n
      → map (λ e. e.0) (map_set k a m) ≡ map (λ e. e.0) (map_set k b n)
  unfolding map_set
  keys-map_set k a b [] [] h = refl
  keys-map_set k a b [] (y ∷ n) h = absurd (cc h)
  keys-map_set k a b (x ∷ m) [] h = absurd (cc h)
  keys-map_set k a b ((x, p) ∷ m) ((y, q) ∷ n) h =
      let same : x ≡ y = cc h in
      let rest : map (λ e. e.0) m ≡ map (λ e. e.0) n = cc h in
      elim (Bool-cases (text_eq k y)) [
        | inl e ↦ rw (same, e) (ap (◌∷◌ y) rest)
        | inr e ↦ rw (same, e) (ap (◌∷◌ y) (keys-map_set k a b m n rest))
      ]

  pub keys-map_get :
      (k : Text) (b : B) (n : Map B) (m : Map A)
      → map (λ e. e.0) m ≡ map (λ e. e.0) n
      → map_get k n ≡ some b
      → (a : A) × (map_get k m ≡ some a)
  unfolding map_get
  keys-map_get k b [] m h found = absurd (cc found)
  keys-map_get k b ((y, q) ∷ n) [] h found = absurd (cc h)
  keys-map_get k b ((y, q) ∷ n) ((x, p) ∷ m) h found =
      let same : x ≡ y = cc h in
      let rest : map (λ e. e.0) m ≡ map (λ e. e.0) n = cc h in
      elim (Bool-cases (text_eq k y)) [
        | inl e ↦ (p, rw (same, e) refl)
        | inr e ↦
            let (a, later) = keys-map_get k b n m rest (rw (e, map_get) at found) in
            (a, rw (same, e) later)
      ]

  pub keys-map_delete :
      (k : Text) (m : Map A) (n : Map B)
      → map (λ e. e.0) m ≡ map (λ e. e.0) n
      → map (λ e. e.0) (map_delete k m) ≡ map (λ e. e.0) (map_delete k n)
  unfolding map_delete
  keys-map_delete k [] [] h = refl
  keys-map_delete k [] (y ∷ n) h = absurd (cc h)
  keys-map_delete k (x ∷ m) [] h = absurd (cc h)
  keys-map_delete k ((x, p) ∷ m) ((y, q) ∷ n) h =
      let same : x ≡ y = cc h in
      let rest : map (λ e. e.0) m ≡ map (λ e. e.0) n = cc h in
      elim (Bool-cases (text_eq k y)) [
        | inl e ↦ rw (same, e) (keys-map_delete k m n rest)
        | inr e ↦ rw (same, e) (ap (◌∷◌ y) (keys-map_delete k m n rest))
      ]

  pub keys-delete_each :
      (rs : List Text) (m : Map A) (n : Map B)
      → map (λ e. e.0) m ≡ map (λ e. e.0) n
      → map (λ e. e.0) (delete_each rs m) ≡ map (λ e. e.0) (delete_each rs n)
  unfolding delete_each
  keys-delete_each [] m n h = h
  keys-delete_each (r ∷ rs) m n h =
      keys-delete_each rs (map_delete r m) (map_delete r n) (keys-map_delete r m n h)

module _ {ℓ κ} {A : Type ℓ} (P : Text × A → Type κ) where
  pub All-map_set : (k : Text) (a : A) (m : Map A) → P (k, a) → All P m → All P (map_set k a m)
  unfolding map_set
  All-map_set k a [] p h = (p, tt)
  All-map_set k a ((x, b) ∷ m) p h = elim (Bool-cases (text_eq k x)) [
    | inl e ↦ rw e (subst (λ y. P (y, a)) ((text_eq_iff k x).0 e) p, h.1)
    | inr e ↦ rw e (h.0, All-map_set k a m p h.1)
  ]

  -- What is left has none of the deleted keys.
  pub All-map_delete :
      (k : Text) (m : Map A) → All P m → All (λ e. P e × (text_eq e.0 k ≡ false)) (map_delete k m)
  unfolding map_delete
  All-map_delete k [] h = tt
  All-map_delete k ((x, b) ∷ m) h = elim (Bool-cases (text_eq k x)) [
    | inl e ↦ rw e (All-map_delete k m h.1)
    | inr e ↦
        rw e ((h.0, ground (arith, e, text_eq_iff k x, text_eq_iff x k)), All-map_delete k m h.1)
  ]

pub All-delete_each {ℓ κ} :
    {A : Type ℓ} (P : Text × A → Type κ) (rs : List Text) (m : Map A)
    → All P m
    → All (λ e. P e × (any (text_eq e.0) rs ≡ false)) (delete_each rs m)
unfolding delete_each
All-delete_each P [] m h = All-imp P (λ e. P e × (false ≡ false)) m (λ e p. (p, refl)) h
All-delete_each P (r ∷ rs) m h =
    All-imp (λ e. (P e × (text_eq e.0 r ≡ false)) × (any (text_eq e.0) rs ≡ false))
      (λ e. P e × (any (text_eq e.0) (r ∷ rs) ≡ false)) _ (λ e p. (p.0.0, rw (p.0.1) p.1))
      (All-delete_each (λ e. P e × (text_eq e.0 r ≡ false)) rs (map_delete r m)
        (All-map_delete P r m h))

-- ===== src/Maps.antt =====
-- The `Map` objects of src/services/websocket_service.ts, in the order of insertion, and the order in
-- which `Object.entries` lists the properties of an object.
use perpetual_custom.Base.{
  ℕ, ◌+◌, ◌*◌, ◌-◌, ◌≡◌, refl, Bool, true, false, ◌&&◌, Option, none, some, List, [], ◌∷◌, arith,
  Bool-cases, ltb, leb, inl, inr, ◌==◌, if◌then◌else◌,
}
use mathlib.Core.List.{Perm}
use perpetual_custom.Base.Text.{Text, text_eq, text_eq_iff}
use perpetual_custom.Base.Sort.{sort, sort-perm}

abbrev pub Map {ℓ} : Type ℓ → Type ℓ
Map A = List (Text × A)

module _ {ℓ} {A : Type ℓ} where
  unfoldable pub map_get : Text → Map A → Option A
  map_get k [] = none
  map_get k ((k', a) ∷ m) = if text_eq k k' then some a else map_get k m

  -- `set`: a key that is present keeps its place.
  unfoldable pub map_set : Text → A → Map A → Map A
  map_set k a [] = (k, a) ∷ []
  map_set k a ((k', b) ∷ m) = if text_eq k k' then (k', a) ∷ m else (k', b) ∷ map_set k a m

  unfoldable pub map_delete : Text → Map A → Map A
  map_delete k [] = []
  map_delete k ((k', b) ∷ m) = if text_eq k k' then map_delete k m else (k', b) ∷ map_delete k m

  pub map_get-map_set :
      (h k : Text) (a : A) (m : Map A)
      → map_get h (map_set k a m) ≡ (if text_eq h k then some a else map_get h m)
  unfolding map_get map_set
  map_get-map_set h k a [] = refl
  map_get-map_set h k a ((k', b) ∷ m) = elim (Bool-cases (text_eq k k')) [
    | inl e ↦ rw e (rw ((text_eq_iff k k').0 e) (ground arith))
    | inr e ↦ rw e (ground (arith, map_get-map_set h k a m, e, text_eq_iff h k, text_eq_iff h k'))
  ]

  pub map_get-map_delete :
      (h k : Text) (m : Map A)
      → map_get h (map_delete k m) ≡ (if text_eq h k then none else map_get h m)
  unfolding map_get map_delete
  map_get-map_delete h k [] = ground arith
  map_get-map_delete h k ((k', b) ∷ m) =
      ground (arith, map_get-map_delete h k m, text_eq_iff h k, text_eq_iff h k', text_eq_iff k k')

-- A digit, and the number that an array index writes: no sign, no leading zero, below 2 ^ 32 - 1.
abbrev is_digit : ℕ → Bool
is_digit u = leb 48 u && leb u 57

abbrev digits_value : ℕ → List ℕ → Option ℕ
digits_value n [] = some n
digits_value n (u ∷ us) = if is_digit u then digits_value (n * 10 + (u - 48)) us else none

abbrev small_index : Option ℕ → Option ℕ
small_index none = none
small_index (some n) = if ltb n 4294967295 then some n else none

abbrev array_index : Text → Option ℕ
array_index [] = none
array_index (u ∷ []) = if is_digit u then some (u - 48) else none
array_index (u ∷ v ∷ us) = if u == 48 then none else small_index (digits_value 0 (u ∷ v ∷ us))

-- Array indices stand first, by their value; other keys keep the order of insertion.
abbrev index_before : Option ℕ → Option ℕ → Bool
index_before none earlier = false
index_before (some n) none = true
index_before (some n) (some m) = ltb n m

-- `Object.entries` of an object with the given keys, each inserted once.
unfoldable pub entries : List Text → List Text
entries keys = sort (λ later earlier. index_before (array_index later) (array_index earlier)) keys

pub entries-perm : (keys : List Text) → Perm (entries keys) keys
unfolding entries
entries-perm keys =
    sort-perm (λ later earlier. index_before (array_index later) (array_index earlier)) keys

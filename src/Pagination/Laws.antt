-- ===== src/Pagination/Laws.antt =====
-- The pages of a collection: their size, and that they make up the collection.
use perpetual_custom.Base.{
  ℕ, zero, suc, ◌+◌, ◌-◌, ◌*◌, ◌≤◌, ◌≡◌, refl, sym, ap, ap₂, ◌∙◌, List, [], ◌∷◌, ◌++◌, arith,
  length, take, drop, leb, Option, ok, Bool-cases, inl, inr, length-take, length-drop,
}
use perpetual_custom.Base.Int.{ℤ, pos, ◌-ℤ◌, ◌*ℤ◌, ◌≤ℤ◌}
use perpetual_custom.Pagination.{
  slice, paginate_serialize, paginate, PageConfig, parse_pagination_config, max_per_page, given_or,
  default_page, default_per_page,
}

module _ {ℓ} {A : Type ℓ} where
  take_all : (n : ℕ) (xs : List A) → length xs ≤ n → take n xs ≡ xs
  take_all zero [] h = refl
  take_all zero (x ∷ xs) h = absurd (omega arith)
  take_all (suc n) [] h = refl
  take_all (suc n) (x ∷ xs) h = ap (◌∷◌ x) (take_all n xs (omega arith))

  drop_all : (n : ℕ) (xs : List A) → length xs ≤ n → drop n xs ≡ []
  drop_all zero [] h = refl
  drop_all zero (x ∷ xs) h = absurd (omega arith)
  drop_all (suc n) [] h = refl
  drop_all (suc n) (x ∷ xs) h = drop_all n xs (omega arith)

  take_nil : (k : ℕ) → take {A = A} k [] ≡ []
  take_nil zero = refl
  take_nil (suc k) = refl

  take-add : (m n : ℕ) (xs : List A) → take (m + n) xs ≡ take m xs ++ take n (drop m xs)
  take-add zero n xs = ap (λ k. take k xs) {x = zero + n} {y = n} (omega arith)
  take-add (suc m) n [] = take_nil (suc m + n) ∙ sym (take_nil n)
  take-add (suc m) n (x ∷ xs) =
      ap (λ k. take k (x ∷ xs)) {x = suc m + n} {y = suc (m + n)} (omega arith)
      ∙ ap (◌∷◌ x) (take-add m n xs)

  -- The part of a list from one index up to another.
  slice-eq :
      (from count : ℕ) (xs : List A)
      → slice (pos from) (pos (from + count)) xs ≡ take count (drop from xs)
  unfolding slice
  slice-eq from count xs = elim (Bool-cases (leb from (length xs))) [
    | inr past ↦
        rw (past, drop_all (length xs) xs (omega arith), drop_all from xs (ground arith))
          (take_nil _ ∙ sym (take_nil count))
    | inl inside ↦ elim (Bool-cases (leb (from + count) (length xs))) [
      | inl whole ↦ rw (inside, whole) (ap (λ k. take k (drop from xs)) (omega arith))
      | inr part ↦
          rw (inside, part)
            (take_all (length xs - from) (drop from xs) (omega (arith, length-drop from xs))
              ∙ sym (take_all count (drop from xs) (ground (arith, length-drop from xs))))
    ]
  ]

-- The bounds of a page of positive number, as natural numbers.
page_start : (k m : ℕ) → (pos (suc k) -ℤ pos 1) *ℤ pos m ≡ pos (k * m)
unfolding ◌-ℤ◌ ◌*ℤ◌
page_start k m = ground arith

page_end : (k m : ℕ) → pos (suc k) *ℤ pos m ≡ pos (k * m + m)
unfolding ◌*ℤ◌
page_end k m = ground arith

module _ {A : Type 0} where
  paginate-records :
      (xs : List A) (k m : ℕ)
      → (paginate xs (pos (suc k)) (pos m)).records ≡ take m (drop (k * m) xs)
  unfolding paginate
  paginate-records xs k m =
      ap₂ (λ a b. slice a b xs) (page_start k m) (page_end k m) ∙ slice-eq (k * m) m xs

  -- The records of the pages 1 up to n, in order.
  abbrev pub first_pages : List A → ℕ → ℕ → List A
  first_pages xs m zero = []
  first_pages xs m (suc n) = first_pages xs m n ++ (paginate xs (pos (suc n)) (pos m)).records

  first_pages-eq-take : (xs : List A) (m n : ℕ) → first_pages xs m n ≡ take (n * m) xs
  first_pages-eq-take xs m zero = ap (λ k. take k xs) {x = zero} (omega arith)
  first_pages-eq-take xs m (suc n) =
      ap₂ ◌++◌ (first_pages-eq-take xs m n) (paginate-records xs n m)
      ∙ sym (take-add (n * m) m xs)
      ∙ ap (λ k. take k xs) (grind arith)

  paginate_size :
      (xs : List A) (k m : ℕ)
      → let p = paginate xs (pos (suc k)) (pos m) in (length p.records ≤ m) × (p.total ≡ length xs)
  unfolding paginate paginate_serialize
  paginate_size xs k m =
      (rw (paginate-records xs k m) (omega (arith, length-take m (drop (k * m) xs))), refl)

  -- The first pages together are the collection, without gap or repetition, once they have room
  -- for it. A page of positive number holds at most `perPage` records and says how many there are in
  -- all.
  pub first_pages-whole :
      (xs : List A) (m n : ℕ)
      → length xs ≤ n * m
      → (first_pages xs m n ≡ xs)
        × ((k : ℕ)
            → let p = paginate xs (pos (suc k)) (pos m) in
              (length p.records ≤ m) × (p.total ≡ length xs))
  first_pages-whole xs m n h =
      (first_pages-eq-take xs m n ∙ take_all (n * m) xs h, λ k. paginate_size xs k m)

-- A page size that is accepted is at most 1000, and page and size are those of the query or the
-- defaults.
pub parse_pagination_config-ok :
    (page per_page : Option ℤ) (c : PageConfig)
    → parse_pagination_config page per_page ≡ ok c
    → (c.per_page ≤ℤ max_per_page)
      × (c.page ≡ given_or page default_page)
      × (c.per_page ≡ given_or per_page default_per_page)
unfolding parse_pagination_config
parse_pagination_config-ok page per_page c h = ground arith

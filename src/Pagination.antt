-- ===== src/Pagination.antt =====
-- `paginationUtils` of src/utils.ts. A page or a page size is a JavaScript number; the model has
-- those that are whole, negative ones included.
pub mod Laws
use perpetual_custom.Base.{
  ℕ, suc, ◌+◌, ◌-◌, ◌≡◌, Bool, List, Option, none, some, length, take, drop, leb, if◌then◌else◌,
  Result, ok, err,
}
use perpetual_custom.Base.Int.{ℤ, pos, negsuc, ◌-ℤ◌, ◌*ℤ◌, ltb_ℤ}
use perpetual_custom.Types.{PaginatedCollection, Error, per_page_too_large}

abbrev pub default_page : ℤ
default_page = pos 1

abbrev pub default_per_page : ℤ
default_per_page = pos 20

abbrev pub max_per_page : ℤ
max_per_page = pos 1000

-- A bound of `Array.prototype.slice`: a negative one counts from the end.
abbrev pub slice_bound : ℕ → ℤ → ℕ
slice_bound len (pos k) = if leb k len then k else len
slice_bound len (negsuc k) = len - suc k

unfoldable pub slice {ℓ} : {A : Type ℓ} → ℤ → ℤ → List A → List A
slice start end xs =
    let from = slice_bound (length xs) start in
    take (slice_bound (length xs) end - from) (drop from xs)

unfoldable pub paginate_serialize : {A : Type 0} → List A → ℕ → ℤ → ℤ → PaginatedCollection A
paginate_serialize collection total page per_page = record {
  total = total;
  page = page;
  per_page = per_page;
  records = collection;
}

unfoldable pub paginate : {A : Type 0} → List A → ℤ → ℤ → PaginatedCollection A
unfolding paginate_serialize slice
paginate records page per_page =
    paginate_serialize (slice ((page -ℤ pos 1) *ℤ per_page) (page *ℤ per_page) records)
      (length records) page per_page

pub record DbFilters : Type 0 where
  pub skip : ℤ
  pub take : ℤ

unfoldable pub paginate_db_filters : ℤ → ℤ → DbFilters
paginate_db_filters page per_page = record { skip = (page -ℤ pos 1) *ℤ per_page; take = per_page }

pub record PageConfig : Type 0 where
  pub page : ℤ
  pub per_page : ℤ

-- A query parameter as a number, or the default where it is not given.
abbrev pub given_or : Option ℤ → ℤ → ℤ
given_or none default_value = default_value
given_or (some value) default_value = value

-- `ctx.query.page` and `ctx.query.perPage`, as numbers, where they are given.
unfoldable pub parse_pagination_config : Option ℤ → Option ℤ → Result Error PageConfig
parse_pagination_config query_page query_per_page =
    let per_page = given_or query_per_page default_per_page in
    if ltb_ℤ max_per_page per_page
    then err per_page_too_large
    else ok (record { page = given_or query_page default_page; per_page = per_page })

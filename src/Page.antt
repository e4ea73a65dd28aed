-- ===== src/Page.antt =====
-- Pages of a listing by offset: service/pkg/page/pagination.go. An int32 is an integer in its range;
-- what the source computes in int32 wraps. The cursors, which are JSON in base64, are left out.
pub mod Laws
mod Tests
use lesser.Common.{
  ℕ, suc, ◌+◌, ◌/◌, ◌%◌, Bool, true, false, ◌||◌, Option, none, some, ◌==◌, if◌then◌else◌,
}
use lesser.Common.Int.{ℤ, pos, negsuc, pos_part, neg_part, sub_ℕ, leb_ℤ, ltb_ℤ, int32, ◌*ℤ◌}

abbrev pub default_page : ℤ
default_page = pos 1

abbrev pub default_page_size : ℤ
default_page_size = pos 20

abbrev pub max_page_size : ℤ
max_page_size = pos 100

pub record Request : Type 0 where
  pub page : ℤ
  pub page_size : ℤ

pub record Response : Type 0 where
  pub page : ℤ
  pub page_size : ℤ
  pub total : ℤ
  pub total_pages : ℤ
  pub has_more : Bool

abbrev pub or_default : ℤ → ℤ → ℤ
or_default a given = if leb_ℤ given (pos 0) then a else given

abbrev pub at_most : ℤ → ℤ → ℤ
at_most a given = if ltb_ℤ a given then a else given

unfoldable pub normalize : Request → Request
normalize p = record {
  page = or_default default_page p.page;
  page_size = at_most max_page_size (or_default default_page_size p.page_size);
}

-- (p.Page - 1) * p.PageSize, in int32.
unfoldable pub offset : Request → ℤ
unfolding int32 ◌*ℤ◌
offset p = int32 (int32 (sub_ℕ (pos_part p.page) (neg_part p.page + 1)) *ℤ p.page_size)

abbrev pub limit : Request → ℤ
limit p = p.page_size

unfoldable pub new_request : ℤ → ℤ → Request
unfolding normalize
new_request page size = normalize (record { page = page; page_size = size })

-- Go's `/` and `%` on int64, which round towards zero.
abbrev pub quot : ℤ → ℤ → ℤ
quot (pos a) (pos b) = pos (a / b)
quot (pos a) (negsuc b) = sub_ℕ 0 (a / suc b)
quot (negsuc a) (pos b) = sub_ℕ 0 (suc a / b)
quot (negsuc a) (negsuc b) = pos (suc a / suc b)

abbrev pub rem : ℤ → ℤ → ℤ
rem (pos a) (pos b) = pos (a % b)
rem (pos a) (negsuc b) = pos (a % suc b)
rem (negsuc a) (pos b) = sub_ℕ 0 (suc a % b)
rem (negsuc a) (negsuc b) = sub_ℕ 0 (suc a % suc b)

-- `totalPages++`, in int32.
abbrev pub increment : ℤ → ℤ
increment (pos a) = int32 (pos (suc a))
increment (negsuc a) = int32 (sub_ℕ 0 a)

unfoldable pub total_pages : ℤ → ℤ → ℤ
unfolding int32
total_pages size total =
    if ltb_ℤ (pos 0) (rem total size)
    then increment (int32 (quot total size))
    else int32 (quot total size)

abbrev pub is_zero : ℤ → Bool
is_zero a = pos_part a + neg_part a == 0

unfoldable pub response : ℤ → ℤ → ℤ → Response
unfolding total_pages
response page size total = record {
  page = page;
  page_size = size;
  total = total;
  total_pages = total_pages size total;
  has_more = ltb_ℤ page (total_pages size total);
}

-- `none` is the panic of a division by zero.
unfoldable pub new_response : ℤ → ℤ → ℤ → Option Response
new_response page size total = if is_zero size then none else some (response page size total)

-- `build_limit_offset page size` is (limit, offset).
unfoldable pub build_limit_offset : ℤ → ℤ → ℤ × ℤ
unfolding new_request offset
build_limit_offset page size = let req = new_request page size in (limit req, offset req)

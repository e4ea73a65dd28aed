-- ===== src/Page/Laws.antt =====
-- What the pages of a listing cover, and where the offset wraps.
use native.Mathlib.Decide.{dec_lt}
use lesser.Common.{
  ◌∙◌, ℕ, suc, ◌+◌, ◌-◌, ◌*◌, ◌/◌, ◌%◌, ◌^◌, ◌≤◌, ◌<◌, ◌≡◌, ◌↔◌, true, some, ltb, if◌then◌else◌,
  arith,
}
use lesser.Common.Int.{ℤ, pos, negsuc, sub_ℕ, leb_ℤ, int32-pos, int32-wraps, times-pos}
use native.Mathlib.Nat.{mul-le-mul_right, mod-lt, div-add-mod, div-le_self}
use lesser.Page.{Response, normalize, offset, new_request, total_pages, response, new_response}

-- Whatever a request asks for, the page is at least 1 and the limit from 1 to 100.
pub new_request-bounds :
    (page size : ℤ)
    → (leb_ℤ (pos 1) (new_request page size).page ≡ true)
      × (leb_ℤ (pos 1) (new_request page size).page_size ≡ true)
      × (leb_ℤ (new_request page size).page_size (pos 100) ≡ true)
unfolding new_request normalize
new_request-bounds page size = ground arith

pred-suc : (p : ℕ) → sub_ℕ (suc p) 1 ≡ pos p
pred-suc p = ground arith

offset-exact :
    (p s : ℕ)
    → suc p < 2 ^ 31
    → p * s < 2 ^ 31
    → offset (record { page = pos (suc p); page_size = pos s }) ≡ pos (p * s)
unfolding offset
offset-exact p s small fits =
    rw (pred-suc p, int32-pos p (omega arith), times-pos p s, int32-pos (p * s) fits)

offset-negative :
    (p s : ℕ)
    → suc p < 2 ^ 31
    → 2 ^ 31 ≤ p * s
    → p * s < 2 ^ 32
    → offset (record { page = pos (suc p); page_size = pos s }) ≡ negsuc (2 ^ 32 - p * s - 1)
unfolding offset
offset-negative p s small low high =
    rw (pred-suc p, int32-pos p (omega arith), times-pos p s, int32-wraps (p * s) low high)

-- The offset of page p + 1, of s rows a page, is p * s if that is below 2 ^ 31, and from there on, below
-- 2 ^ 32, it is negative, p * s - 2 ^ 32.
pub offset-wraps :
    (p s : ℕ)
    → suc p < 2 ^ 31
    → p * s < 2 ^ 32
    → offset (record { page = pos (suc p); page_size = pos s })
      ≡ (if ltb (p * s) (2 ^ 31) then pos (p * s) else negsuc (2 ^ 32 - p * s - 1))
offset-wraps p s small high = elim (dec_lt (p * s) (2 ^ 31)) [
  | yes fits ↦ offset-exact p s small fits ∙ ground (arith, fits)
  | no big ↦ offset-negative p s small (omega (arith, big)) high ∙ ground (arith, big)
]

-- With a page size of s + 1, the number of pages that hold a row.
unfoldable page_count : ℕ → ℕ → ℕ
page_count s total = if ltb 0 (total % suc s) then suc (total / suc s) else total / suc s

suc_times : (a b : ℕ) → suc a * b ≡ b + a * b
suc_times a b = omega arith

times_comm : (a b : ℕ) → a * b ≡ b * a
times_comm a b = omega arith

times_mono : (a b c : ℕ) → a ≤ b → a * c ≤ b * c
times_mono a b c h = mul-le-mul_right c h

page_count-le : (s total : ℕ) → page_count s total ≤ total
unfolding page_count
page_count-le s total = ground (arith, div-add-mod total (suc s))

page_count-more : (page s total : ℕ) → (page < page_count s total) ↔ (page * suc s < total)
unfolding page_count
page_count-more page s total = ground (
  arith,
  div-add-mod total (suc s),
  mod-lt total {m = suc s} (omega arith),
  suc_times page (suc s),
  suc_times (total / suc s) (suc s),
  times_comm (suc s) (total / suc s),
  times_mono page (total / suc s) (suc s),
  times_mono (suc page) (total / suc s) (suc s),
  times_mono (total / suc s) page (suc s),
  times_mono (suc (total / suc s)) page (suc s),
)

total_pages-count :
    (s total : ℕ)
    → total < 2 ^ 31
    → total_pages (pos (suc s)) (pos total) ≡ pos (page_count s total)
unfolding total_pages page_count
total_pages-count s total small = ground (
  arith,
  page_count-le s total,
  div-le_self total (suc s),
  int32-pos (total / suc s),
  int32-pos (suc (total / suc s)),
)

-- With a positive page size and fewer than 2 ^ 31 rows, a response says that there is more exactly if
-- a row stands after the page.
pub new_response-has_more :
    (page s total : ℕ)
    → total < 2 ^ 31
    → (r : Response) × (new_response (pos page) (pos (suc s)) (pos total) ≡ some r)
      × ((r.has_more ≡ true) ↔ (page * suc s < total))
unfolding new_response response
new_response-has_more page s total small = (
  response (pos page) (pos (suc s)) (pos total),
  ground arith,
  ground (arith, total_pages-count s total small, page_count-more page s total),
)

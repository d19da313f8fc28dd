-- ===== src/Handler/Page.antt =====
-- pkg/handler/pageInfo.go. All its numbers are sizes and offsets, which are never negative.
pub mod Laws
use gojump.Prelude.{ℕ, ◌+◌, ◌/◌, ◌%◌, Bool, true, false, if◌then◌else◌, ◌==◌}

pub record PageInfo : Type 0 where
  pub page_size : ℕ
  pub current_total : ℕ
  pub current_offset : ℕ
  pub total_page : ℕ
  pub current_page : ℕ
  pub total_count : ℕ

abbrev pub no_pages : PageInfo
no_pages = record {
  page_size = 0;
  current_total = 0;
  current_offset = 0;
  total_page = 0;
  current_page = 0;
  total_count = 0;
}

-- How many pages of the size the count fills, the last one perhaps in part.
unfoldable pub page_of : ℕ → ℕ → ℕ
page_of n size = if n % size == 0 then n / size else n / size + 1

unfoldable pub update : PageInfo → PageInfo
unfolding page_of
update p = if p.page_size == 0 then record p { total_page = 1; current_page = 1 } else record p {
  total_page = page_of p.total_count p.page_size;
  current_page = page_of p.current_offset p.page_size;
}

unfoldable pub update_page_info : (page_size curr_total offset total : ℕ) → PageInfo → PageInfo
unfolding update
update_page_info page_size curr_total offset total p = update (record p {
  page_size = page_size;
  current_total = curr_total;
  current_offset = offset;
  total_count = total;
})

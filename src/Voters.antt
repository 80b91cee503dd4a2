-- ===== src/Voters.antt =====
-- frontend/src/components/TopVoters.tsx: the rows of the validators' table that are shown, page by page,
-- the buttons of the pages, and the file that the rows are written to. A name is searched in lower case,
-- which is that of ASCII here.
use solana_governance.Common.{
  ℕ, zero, suc, ◌+◌, ◌-◌, ◌*◌, ◌/◌, min, max, Bool, true, false, Option, none, some, List, [], ◌∷◌,
  ◌++◌, length, leb, ltb, if◌then◌else◌,
}
use solana_governance.Common.Sort.Laws.{keep}
use solana_governance.Common.Text.{Text, lower_text, includes}
use solana_governance.Validators.{ValidatorsTableRow}
pub mod Pages
pub mod Range
pub mod Csv

module _ {A : Type 0} where
  -- `xs.slice(n)`
  abbrev pub slice_from : ℕ → List A → List A
  slice_from zero xs = xs
  slice_from (suc n) [] = []
  slice_from (suc n) (x ∷ xs) = slice_from n xs

  -- `xs.slice(0, n)`
  abbrev pub slice_to : ℕ → List A → List A
  slice_to zero xs = []
  slice_to (suc n) [] = []
  slice_to (suc n) (x ∷ xs) = x ∷ slice_to n xs

  -- the rows of a page, which is counted from 1
  unfoldable pub page_rows : (items_per_page current_page : ℕ) → List A → List A
  page_rows items_per_page current_page xs =
      slice_to items_per_page (slice_from ((current_page - 1) * items_per_page) xs)

  -- `Math.ceil(total / itemsPerPage)`
  unfoldable pub total_pages : (items_per_page : ℕ) → List A → ℕ
  total_pages items_per_page xs = (length xs + (items_per_page - 1)) / items_per_page

-- the filter by name
unfoldable pub searched_data : Text → List ValidatorsTableRow → List ValidatorsTableRow
unfolding keep includes
searched_data search_query rows =
    keep (λ row. includes (lower_text row.validator.name) (lower_text search_query)) rows

-- a button of the pages
pub data PageItem : Type 0 where
  page : ℕ → PageItem
  gap : PageItem

-- the loop from a page, for a number of pages
unfoldable pub pages_from : (first count : ℕ) → List PageItem
pages_from first zero = []
pages_from first (suc count) = page first ∷ pages_from (suc first) count

abbrev pub when : Bool → PageItem → List PageItem
when true item = item ∷ []
when false item = []

-- the loop has `right + 1 - left` rounds
unfoldable pub get_pagination_range : (current_page total_pages : ℕ) → List PageItem
unfolding pages_from
get_pagination_range current_page total_pages =
    let left = max 2 (current_page - 2) in
    let right = min (total_pages - 1) (current_page + 2) in
    page 1
    ∷ (when (ltb 2 left) gap
        ++ (pages_from left ((right + 1) - left)
            ++ (when (ltb right (total_pages - 1)) gap
                ++ when (ltb 1 total_pages) (page total_pages))))

-- the buttons before and after
unfoldable pub previous_page : (current_page : ℕ) → ℕ
previous_page current_page = max 1 (current_page - 1)

unfoldable pub next_page : (current_page total_pages : ℕ) → ℕ
next_page current_page total_pages = min total_pages (current_page + 1)

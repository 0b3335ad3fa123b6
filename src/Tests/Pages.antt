-- ===== src/Tests/Pages.antt =====
-- The pages of a card's transactions.
use mockgatehub.Prelude.{ℕ, ◌*◌, ◌≡◌, some, none, List, [], ◌∷◌, arith, take, drop, length}
use mockgatehub.Prelude.Int.{pos}
use mockgatehub.Handler.Pages.{paginate, total_pages}
use mockgatehub.Handler.Pages.Cover.{
  paginate-window, pages_from, pages_from-total_pages, paginate_panics,
}

abbrev items : List ℕ
items = 5 ∷ 6 ∷ 7 ∷ 8 ∷ 9 ∷ []

paginate-window_example : paginate items (pos 3) (pos 2) ≡ some (take 2 (drop (2 * 2) items))
paginate-window_example = paginate-window items 2 2 (ground arith) (ground arith)

pages_from-total_pages_example :
    pages_from items 2 0 (total_pages (length items) (pos 2)) ≡ some items
pages_from-total_pages_example = pages_from-total_pages items 2 (ground arith) (ground arith)

paginate_panics_example : paginate items (pos 9_223_372_036_854_775_807) (pos (2 * 10)) ≡ none
paginate_panics_example = paginate_panics items 10 (ground arith) (ground arith)

-- ===== src/Handler/Pages.antt =====
-- The pages of a card's transactions, internal/handler/cards.go, with the wrap-around of `int`, which
-- has 64 bits. A slice out of range is a panic, `none`.
pub mod Cover
use mockgatehub.Prelude.{
  ℕ, ◌+◌, ◌-◌, ◌*◌, ◌/◌, ◌%◌, String, Bool, Option, none, some, List, [], ltb, leb, nat_beq, not,
  ◌&&◌, ◌==◌, length, take, drop, if◌then◌else◌,
}
use mockgatehub.Prelude.Int.{ℤ, pos, negsuc, ◌+ℤ◌, ◌-ℤ◌, ◌*ℤ◌, ltb_ℤ, wrap}

abbrev default_card_tx_page_size : ℤ
default_card_tx_page_size = pos 20

abbrev max_card_tx_page_size : ℤ
max_card_tx_page_size = pos 200

-- a parameter that is a positive number, and what stands for one that is not
abbrev positive_or : ℤ → Option ℤ → ℤ
positive_or default none = default
positive_or default (some v) = if ltb_ℤ (pos 0) v then v else default

abbrev clamp : ℤ → ℤ
clamp size = if ltb_ℤ max_card_tx_page_size size then max_card_tx_page_size else size

-- `parsePagination` of the two query parameters; `atoi` is `strconv.Atoi`, which refuses "".
unfoldable pub parse_pagination : (String → Option ℤ) → String → String → ℤ × ℤ
parse_pagination atoi raw_number raw_size = (
  if raw_number == "" then pos 1 else positive_or (pos 1) (atoi raw_number),
  if raw_size == ""
      then default_card_tx_page_size
      else clamp (positive_or default_card_tx_page_size (atoi raw_size)),
)

module _ {ℓ} {A : Type ℓ} where
  -- `items[start:end]`
  abbrev pub slice : List A → ℤ → ℤ → Option (List A)
  slice items (pos start) (pos stop) =
      if leb start stop && leb stop (length items)
      then some (take (stop - start) (drop start items))
      else none
  slice items (pos start) (negsuc stop) = none
  slice items (negsuc start) stop = none

  unfoldable pub paginate : List A → ℤ → ℤ → Option (List A)
  paginate items page_number page_size =
      let start = wrap (wrap (page_number -ℤ pos 1) *ℤ page_size) in
      let stop = wrap (start +ℤ page_size) in
      if not (ltb_ℤ start (pos (length items)))
      then some []
      else slice items start (if ltb_ℤ (pos (length items)) stop then pos (length items) else stop)

-- The first argument is a length.
unfoldable pub total_pages : ℕ → ℤ → ℕ
total_pages total_records (negsuc n) = 0
total_pages total_records (pos page_size) =
    let pages = (total_records + page_size - 1) / page_size in
    if nat_beq page_size 0 then 0 else if nat_beq pages 0 then 1 else pages

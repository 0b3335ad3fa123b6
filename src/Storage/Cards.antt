-- ===== src/Storage/Cards.antt =====
-- Cards, card limits and PINs of memory.go. A caller that changes a card through the pointer which
-- `GetCard` returned always calls `UpdateCard` with it, so a card is a value here.
use mockgatehub.Prelude.{String, Bool, List, [], ◌∷◌, nat_beq, ◌==◌, not, if◌then◌else◌}
use mockgatehub.Prelude.Result.{ok, of_option, ◌>>=◌, ◌>>◌, raise_if, gets, modify, pure}
use mockgatehub.Prelude.GoMap.{lookup, insert, contains, values}
use mockgatehub.Models.{Card, CardLimit, Time}
use mockgatehub.Storage.Memory.{Method}
use mockgatehub.Storage.Customers.{list_or_nil}

-- `for _, card := range s.cards { if test(card) { cards = append(cards, card) } }`
unfoldable pub select {ℓ} : {A : Type ℓ} → (A → Bool) → List A → List A
select test [] = []
select test (x ∷ xs) = let rest = select test xs in if test x then x ∷ rest else rest

module _ {F Raw : Type 0} where
  -- The card as `CreateCard` leaves it.
  unfoldable pub create_card : String → Time → Card → Method F Raw Card
  create_card fresh now card = do
    let id = if card.id == "" then fresh else card.id
    let created = if nat_beq card.created_at 0 then now else card.created_at
    let kept = record card { id = id; created_at = created }
    taken ← gets (λ s. contains id s.cards)
    raise_if taken "card already exists"
    modify (λ s. record s { cards = insert id kept s.cards })
    pure kept

  unfoldable pub get_card : String → Method F Raw Card
  get_card id s = (of_option (lookup id s.cards) "card not found", s)

  unfoldable pub update_card : Card → Method F Raw (Unit {0})
  update_card card = do
    raise_if (card.id == "") "card ID is required"
    known ← gets (λ s. contains card.id s.cards)
    raise_if (not known) "card not found"
    modify (λ s. record s { cards = insert card.id card s.cards })

  unfoldable pub get_cards_by_customer : String → Method F Raw (List Card)
  unfolding select values
  get_cards_by_customer customer_id s =
      (ok (select (λ (card : Card). card.customer_id == customer_id) (values s.cards)), s)

  unfoldable pub get_cards_by_account : String → Method F Raw (List Card)
  unfolding select values
  get_cards_by_account account_id s =
      (ok (select (λ (card : Card). card.account_id == account_id) (values s.cards)), s)

  unfoldable pub get_card_limits : String → Method F Raw (List (CardLimit F))
  get_card_limits card_id s = (ok (list_or_nil (lookup card_id s.card_limits)), s)

  unfoldable pub set_card_limits : String → List (CardLimit F) → Method F Raw (Unit {0})
  set_card_limits card_id limits =
      modify (λ s. record s { card_limits = insert card_id limits s.card_limits })

  unfoldable pub set_card_pin : String → String → Method F Raw (Unit {0})
  set_card_pin card_id pin = do
    raise_if (card_id == "") "cardID is required"
    known ← gets (λ s. contains card_id s.cards)
    raise_if (not known) "card not found"
    modify (λ s. record s { card_pins = insert card_id pin s.card_pins })

  unfoldable pub get_card_pin : String → Method F Raw String
  get_card_pin card_id s = (of_option (lookup card_id s.card_pins) "card pin not set", s)

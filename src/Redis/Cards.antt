-- ===== src/Redis/Cards.antt =====
-- Cards, card limits and PINs of redis.go.
use Prim.Native.String.{◌++◌}
use mockgatehub.Prelude.{String, none, some, List, [], nat_beq, ◌==◌, if◌then◌else◌}
use mockgatehub.Prelude.Result.{ok, ◌>>=◌, ◌>>◌, raise_if, pure}
use mockgatehub.Models.{Card, CardLimit, Time}
use mockgatehub.Redis.Client.{
  RedisClient, Json, Call, set_text, get_text, load, save, write, read, collect, decode,
}

abbrev pub customer_cards_key : String → String
customer_cards_key customer_id = "customer:" ++ customer_id ++ ":cards"

abbrev pub account_cards_key : String → String
account_cards_key account_id = "account:" ++ account_id ++ ":cards"

abbrev pub card_key : String → String
card_key id = "card:" ++ id

abbrev pub card_limits_key : String → String
card_limits_key card_id = "card:" ++ card_id ++ ":limits"

abbrev pub card_pin_key : String → String
card_pin_key card_id = "card:" ++ card_id ++ ":pin"

module _ {R : Type 0} ⦃client : RedisClient R⦄ ⦃json : Json Card⦄ where
  abbrev index_card : String → String → String → String → Call R (Unit {0})
  index_card owner failed key id =
      if owner == "" then pure tt else write failed (client.s_add key id)

  -- An ID that is taken is written over.
  unfoldable pub create_card : String → Time → Card → Call R Card
  create_card fresh now card = do
    let id = if card.id == "" then fresh else card.id
    let created = if nat_beq card.created_at 0 then now else card.created_at
    let kept = record card { id = id; created_at = created }
    save "card" "store" (card_key id) kept
    index_card card.customer_id "failed to add card to customer set: "
        (customer_cards_key card.customer_id) id
    index_card card.account_id "failed to add card to account set: "
        (account_cards_key card.account_id) id
    pure kept

  unfoldable pub get_card : String → Call R Card
  get_card id = load "card" (card_key id)

  unfoldable pub update_card : Card → Call R (Unit {0})
  update_card card = do
    raise_if (card.id == "") "card ID is required"
    save "card" "update" (card_key card.id) card

  unfoldable pub get_cards_by_customer : String → Call R (List Card)
  unfolding collect get_card
  get_cards_by_customer customer_id = do
    ids ← read "failed to get customer cards: " (client.s_members (customer_cards_key customer_id))
    (λ r. (ok (collect get_card ids r), r))

  unfoldable pub get_cards_by_account : String → Call R (List Card)
  unfolding collect get_card
  get_cards_by_account account_id = do
    ids ← read "failed to get account cards: " (client.s_members (account_cards_key account_id))
    (λ r. (ok (collect get_card ids r), r))

  unfoldable pub set_card_pin : String → String → Call R (Unit {0})
  unfolding get_card
  set_card_pin card_id pin = do
    raise_if (card_id == "") "cardID is required"
    get_card card_id
    set_text "failed to store card pin: " (card_pin_key card_id) pin

module _ {R : Type 0} ⦃client : RedisClient R⦄ where
  unfoldable pub get_card_pin : String → Call R String
  get_card_pin card_id =
      get_text "card pin not set" "failed to get card pin: " (card_pin_key card_id)

module _ {R F : Type 0} ⦃client : RedisClient R⦄ ⦃json : Json (List (CardLimit F))⦄ where
  unfoldable pub get_card_limits : String → Call R (List (CardLimit F))
  get_card_limits card_id = do
    found ← read "failed to get card limits: " (client.get (card_limits_key card_id))
    elim found [ none ↦ pure [] | some text ↦ decode "failed to unmarshal card limits: " text ]

  unfoldable pub set_card_limits : String → List (CardLimit F) → Call R (Unit {0})
  set_card_limits card_id limits = save "card limits" "store" (card_limits_key card_id) limits

-- ===== src/Handler/CardOrders.antt =====
-- The first card of a user, internal/handler/cards.go: `CreateManagedCustomer` with the customer, the
-- account and the limits that it makes, `ListCards` and the handlers of limits and addresses.
mod Objects
pub mod Orderable
pub mod Opened
use Prim.Native.Char.{code}
use Prim.Native.String.{◌++◌, len}
use mockgatehub.Prelude.{
  ℕ, zero, suc, String, Bool, false, Option, none, some, List, [], ◌∷◌, ltb, nat_beq, ◌==◌, not,
  if◌then◌else◌,
}
use mockgatehub.Prelude.Result.{
  Result, ok, err, of_option, ◌>>=◌, ◌>>◌, raise_if, lift, modify, pure, ignore_err,
}
use mockgatehub.Prelude.Heap.{Ptr}
use mockgatehub.Float64.{Float64}
use mockgatehub.Models.{Time, User, Customer, Account, Card, CardLimit, CustomerDeliveryAddress}
use mockgatehub.Consts.{
  kyc_state_accepted, default_card_product_code, default_customer_type, default_account_type,
  card_relation_primary, default_status_active, event_card_created, card_status_active,
  card_status_soft_delete,
}
use mockgatehub.Storage.Users.{get_user, read_user}
use mockgatehub.Storage.Customers.{
  create_customer, create_account, create_customer_address, get_customer_addresses, new_customer,
  new_account, read_customer, read_account, write_customer, write_account,
}
use mockgatehub.Storage.Cards.{
  create_card, get_cards_by_customer, get_card_limits, set_card_limits, select,
}
use mockgatehub.Handler.State.{
  Handler, Action, Payload, bad_request, forbidden, not_found, internal_err, call, call_or,
  send_async,
}
pub use Objects.*

module _ {F Raw : Type 0} ⦃fl : Float64 F⦄ where
  -- the delivery address, whose error is only logged
  abbrev deliver : FreshIds → String → Option DeliveryArgs → Action F Raw (Unit {0})
  deliver fresh user_id none = pure tt
  deliver fresh user_id (some d) = ignore_err (
      call (
        create_customer_address fresh.address_id fresh.customer_id
          (some (address_of fresh user_id d))))

  -- The card with its limits. The account and the customer that are answered are the stored objects,
  -- so the card and the account written into them are in the store.
  unfoldable pub open_card :
      FreshIds → String → String → Card → Ptr → Ptr → Action F Raw CustomerResponse
  unfolding default_card_limits
  open_card fresh user_id wallet_address new customer account = do
    card ←
        call_or (λ _. internal_err "failed to create card")
          (create_card fresh.card_id fresh.now new)
    ignore_err (call (set_card_limits fresh.card_id default_card_limits))
    account_fields ← call_or internal_err (read_account account)
    let with_card = record account_fields { cards = card ∷ [] }
    call_or internal_err (write_account account with_card)
    customer_fields ← call_or internal_err (read_customer customer)
    let with_account = record customer_fields { accounts = with_card ∷ [] }
    call_or internal_err (write_customer customer with_account)
    modify (send_async event_card_created user_id (created_payload fresh user_id card))
    pure (record { wallet_address = wallet_address; customer = with_account })

  -- the account of the customer, then the card
  unfoldable pub open_account : FreshIds → String → CardOrder → Ptr → Action F Raw CustomerResponse
  unfolding prefix
  open_account fresh user_id req customer = do
    let currency = text_or req.currency "EUR"
    let product_code = text_or req.product_code default_card_product_code
    account ←
        call_or internal_err (new_account (new_account_of fresh user_id product_code currency))
    call_or (λ _. internal_err "failed to create account")
        (create_account fresh.account_id fresh.now account)
    open_card fresh user_id req.wallet_address
        (new_card_of fresh user_id product_code req.name_on_card) customer account

  unfoldable pub open_customer : FreshIds → String → CardOrder → Action F Raw CustomerResponse
  unfolding open_account prefix
  open_customer fresh user_id req = do
    customer ← call_or internal_err (new_customer (new_customer_of fresh user_id))
    call_or (λ _. internal_err "failed to create customer")
        (create_customer fresh.customer_id fresh.now customer)
    deliver fresh user_id req.delivery
    open_account fresh user_id req customer

  -- The user is there and verified. The text of the last refusal quotes the state.
  unfoldable pub accepted_user : String → Action F Raw (Unit {0})
  accepted_user user_id = do
    raise_if (user_id == "") (bad_request "missing x-gatehub-managed-user-uuid header")
    user ← call_or (λ _. not_found "user not found in GateHub") (get_user user_id)
    fields ← call_or internal_err (read_user user)
    raise_if (not (fields.kyc_state == kyc_state_accepted)) (
        forbidden (
          "user KYC state is '" ++ fields.kyc_state
          ++ "' but must be 'accepted' before ordering cards"))

  -- `body` is none where it does not decode. The answer to a name that is too long also says how long
  -- it is.
  unfoldable pub checked_order : Option CardOrder → Action F Raw CardOrder
  unfolding base_currency
  checked_order body = do
    req ← lift (of_option body (bad_request "invalid request body"))
    raise_if (req.name_on_card == "") (bad_request "nameOnCard is required")
    raise_if (ltb 26 (len req.name_on_card))
        (bad_request "nameOnCard must be 26 characters or less")
    raise_if (not (base_currency (text_or req.currency "EUR") == "EUR")) (
        bad_request (
          "invalid currency '"
          ++ text_or req.currency "EUR"
          ++ "': only EUR-based currencies are supported for cards (e.g., 'EUR', 'PW_EUR', 'DEB_EUR')"))
    pure req

  unfoldable pub create_managed_customer :
      FreshIds → String → Option CardOrder → Action F Raw CustomerResponse
  unfolding accepted_user checked_order open_customer
  create_managed_customer fresh user_id body = do
    accepted_user user_id
    req ← checked_order body
    open_customer fresh user_id req

  -- The cards of a customer that are not deleted.
  unfoldable pub list_cards : String → Action F Raw (List Card)
  unfolding select
  list_cards customer_id = do
    cards ← call_or (λ _. internal_err "failed to get cards") (get_cards_by_customer customer_id)
    pure (select (λ (card : Card). not (card.status == card_status_soft_delete)) cards)

  -- A card without limits is given the default ones when they are read.
  unfoldable pub handle_get_card_limits : String → Action F Raw (List (CardLimit F))
  unfolding default_card_limits
  handle_get_card_limits card_id = do
    limits ← call_or (λ _. internal_err "failed to get limits") (get_card_limits card_id)
    elim limits [
      | [] ↦ do
        ignore_err (call (set_card_limits card_id default_card_limits))
        pure default_card_limits
      | limit ∷ others ↦ pure (limit ∷ others)
    ]

  unfoldable pub update_card_limits :
      String → Option (List (CardLimit F)) → Action F Raw (List (CardLimit F))
  update_card_limits card_id body = do
    limits ← lift (of_option body (bad_request "invalid request body"))
    call_or (λ _. internal_err "failed to update limits") (set_card_limits card_id limits)
    pure limits

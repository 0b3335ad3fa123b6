-- ===== src/Tests/Orders.antt =====
-- A first card and a 3DS challenge.
use mockgatehub.Prelude.{String, ◌≡◌, refl, true, false, none, some, [], ◌∷◌}
use mockgatehub.Prelude.Result.{ok}
use mockgatehub.Prelude.GoMap.{lookup}
use mockgatehub.Prelude.Int.{ℤ}
use mockgatehub.Float64.Units.{units}
use mockgatehub.Models.{ThreeDsChallenge}
use mockgatehub.Storage.Users.{get_user}
use mockgatehub.Storage.Customers.{create_customer, create_account, create_customer_address}
use mockgatehub.Storage.Cards.{create_card, set_card_limits}
use mockgatehub.Handler.{Handler}
use mockgatehub.Handler.Kyc.Writes.{with_user}
use mockgatehub.Handler.ThreeDs.{confirm_three_ds}
use mockgatehub.Handler.ThreeDs.Settling.{confirm_settles}
use mockgatehub.Handler.CardOrders.{
  CardOrder, FreshIds, CustomerResponse, DeliveryArgs, create_managed_customer, new_customer_of,
  new_account_of, new_card_of, open_card,
}
use mockgatehub.Handler.CardOrders.Orderable.{IsAccepted, IsOrderable}
use mockgatehub.Handler.CardOrders.Opened.{card_order_opens, IsOpened}
use mockgatehub.Tests.Data.{alice, store, handler}

-- a payment that was declined, and whose time is past
abbrev challenge : ThreeDsChallenge
challenge = record {
  transaction_id = "3ds-1";
  card_id = "card-1";
  user_id = "alice-id";
  merchant_name = "Shop";
  purchase_amount = "10.00";
  purchase_currency = "EUR";
  purchase_date = "";
  timeout = 300;
  status = "declined";
  created_at = 0;
}

abbrev challenged : Handler ℤ String
challenged = record (handler false) {
  store = record store { three_ds_challenges = ("3ds-1", challenge) ∷ [] };
}

confirm_settles_example : (confirm_three_ds "3ds-1" (some true) challenged).0 ≡ ok true
unfolding lookup
confirm_settles_example =
    (confirm_settles "3ds-1" true challenge challenged (refl, tt) (tt, tt) refl).0

abbrev fresh : FreshIds
fresh = record {
  customer_id = "customer-2";
  address_id = "address-1";
  address_source_id = "address-2";
  account_id = "account-1";
  account_number = "0123456789abcdef";
  card_id = "card-2";
  masked_pan = "555555******0001";
  expiry_date = "12/29";
  now = 9;
}

abbrev delivery : DeliveryArgs
delivery = record {
  kind = "Delivery";
  country_code = "DE";
  line1 = "Street 1";
  line2 = none;
  line3 = none;
  city = "Berlin";
  post_office = none;
  zip_code = "10115";
}

abbrev order : CardOrder
order = record {
  wallet_address = "$wallet.example/alice";
  product_code = "";
  currency = "GTH_EUR";
  delivery = some delivery;
  name_on_card = "ALICE";
}

abbrev accepted : Handler ℤ String
accepted = with_user 0 (record alice { kyc_state = "accepted" }) (handler false)

-- the card, the account and the customer that are answered
abbrev answered : CustomerResponse
answered =
    let card = new_card_of fresh "alice-id" "PWSR_DEBP_2404" "ALICE" in
    let account = record (new_account_of fresh "alice-id" "PWSR_DEBP_2404" "GTH_EUR") {
      cards = card ∷ [];
    } in
    record {
      wallet_address = "$wallet.example/alice";
      customer = record (new_customer_of fresh "alice-id") { accounts = account ∷ [] };
    }

card_order_opens_example :
    IsAccepted "alice-id" accepted.store
    × IsOrderable order
    × IsOpened fresh "ALICE"
        (create_managed_customer fresh "alice-id" (some order) accepted).1.store
unfolding create_managed_customer get_user lookup create_customer create_account
    create_customer_address open_card create_card set_card_limits
card_order_opens_example = card_order_opens fresh "alice-id" order accepted answered refl

-- ===== src/Redis/Customers.antt =====
-- Card customers, accounts and delivery addresses of redis.go.
use Prim.Native.String.{◌++◌}
use mockgatehub.Prelude.{String, Option, none, some, List, nat_beq, ◌==◌, if◌then◌else◌}
use mockgatehub.Prelude.Result.{ok, err, ◌>>=◌, ◌>>◌, raise_if, pure}
use mockgatehub.Models.{Customer, Account, CustomerDeliveryAddress, Time}
use mockgatehub.Storage.Customers.{is_blank, id_or}
use mockgatehub.Redis.Client.{
  RedisClient, Json, Call, set_text, get_text, load, save, write, read, collect,
}

abbrev pub customer_key : String → String
customer_key id = "customer:" ++ id

abbrev pub customer_source_key : String → String
customer_source_key source_id = "customer:source:" ++ source_id

abbrev pub customer_accounts_key : String → String
customer_accounts_key customer_id = "customer:" ++ customer_id ++ ":accounts"

abbrev pub account_key : String → String
account_key id = "account:" ++ id

abbrev pub customer_addresses_key : String → String
customer_addresses_key customer_id = "customer:" ++ customer_id ++ ":addresses"

abbrev pub customer_address_key : String → String
customer_address_key address_id = "customer:address:" ++ address_id

module _ {R : Type 0} ⦃client : RedisClient R⦄ ⦃json : Json Customer⦄ where
  unfoldable pub create_customer : String → Time → Customer → Call R Customer
  create_customer fresh now customer = do
    let id = id_or customer.id fresh
    raise_if (customer.source_id == "") "sourceId is required"
    let created = if nat_beq customer.created_at 0 then now else customer.created_at
    let kept = record customer { id = some id; created_at = created }
    save "customer" "store" (customer_key id) kept
    set_text "failed to store customer source mapping: " (customer_source_key customer.source_id) id
    pure kept

  unfoldable pub get_customer : String → Call R Customer
  get_customer id = load "customer" (customer_key id)

  unfoldable pub get_customer_by_source_id : String → Call R Customer
  unfolding get_customer
  get_customer_by_source_id source_id = do
    customer_id ←
        get_text "customer not found" "failed to get customer by sourceId: "
          (customer_source_key source_id)
    get_customer customer_id

  unfoldable pub update_customer : Customer → Call R (Unit {0})
  update_customer customer = do
    raise_if (is_blank customer.id) "customer ID is required"
    let id = id_or customer.id ""
    save "customer" "update" (customer_key id) customer
    if customer.source_id == ""
        then pure tt
        else set_text "failed to update customer source mapping: "
            (customer_source_key customer.source_id) id

module _ {R : Type 0} ⦃client : RedisClient R⦄ ⦃json : Json Account⦄ where
  -- the index of a customer's accounts, for an account that has a customer
  abbrev index_account : Option String → String → Call R (Unit {0})
  index_account none id = pure tt
  index_account (some customer_id) id =
      write "failed to add account to customer set: "
        (client.s_add (customer_accounts_key customer_id) id)

  unfoldable pub create_account : String → Time → Account → Call R Account
  create_account fresh now account = do
    let id = id_or account.id fresh
    let created = if nat_beq account.created_at 0 then now else account.created_at
    let kept = record account { id = some id; created_at = created }
    save "account" "store" (account_key id) kept
    index_account account.customer_id id
    pure kept

  unfoldable pub get_account : String → Call R Account
  get_account id = load "account" (account_key id)

  unfoldable pub update_account : Account → Call R (Unit {0})
  update_account account = do
    raise_if (is_blank account.id) "account ID is required"
    save "account" "update" (account_key (id_or account.id "")) account

module _ {R : Type 0} ⦃client : RedisClient R⦄ ⦃json : Json CustomerDeliveryAddress⦄ where
  -- `address` is none for a nil pointer.
  unfoldable pub create_customer_address :
      String → String → Option CustomerDeliveryAddress → Call R CustomerDeliveryAddress
  create_customer_address fresh customer_id none = do
    raise_if (customer_id == "") "customer ID is required"
    (λ r. (err "address is required", r))
  create_customer_address fresh customer_id (some address) = do
    raise_if (customer_id == "") "customer ID is required"
    let id = if address.id == "" then fresh else address.id
    let kept = record address { id = id }
    save "address" "store" (customer_address_key id) kept
    write "failed to add address to customer set: "
        (client.s_add (customer_addresses_key customer_id) id)
    pure kept

  unfoldable pub get_customer_addresses : String → Call R (List CustomerDeliveryAddress)
  unfolding collect
  get_customer_addresses customer_id = do
    ids ←
        read "failed to get customer addresses: "
          (client.s_members (customer_addresses_key customer_id))
    (λ r. (ok (collect (λ id. load "address" (customer_address_key id)) ids r), r))

-- ===== src/Tests/Transfers.antt =====
-- The transactions of the core API.
use mockgatehub.Consts.{sandbox_vault_ids}
use mockgatehub.Prelude.{String, ◌≡◌, refl, true, false, some, ◌==◌, ◌&&◌, if◌then◌else◌}
use mockgatehub.Prelude.Int.{ℤ, pos, div_round, ◌*ℤ◌}
use mockgatehub.Prelude.Result.{ok}
use mockgatehub.Prelude.GoMap.{lookup, insert}
use mockgatehub.Float64.Units.{units}
use mockgatehub.Consts.{vault_uuid_to_currency}
use mockgatehub.Storage.Balances.Laws.{balance}
use mockgatehub.Handler.{Handler, has_url}
use mockgatehub.Storage.Users.{get_user}
use mockgatehub.Storage.Transactions.{create_transaction}
use mockgatehub.Fees.{calculate_fee, get_deposit_fee_for_user}
use mockgatehub.Handler.Transfers.{
  CreateTransactionRequest, requested, handle_create_transaction, Completion, complete_transaction,
  resolve_currency,
}
use mockgatehub.Handler.Transfers.Completed.{complete_credit_status}
use mockgatehub.Handler.Transfers.Created.{created_credit}
use mockgatehub.Models.{Transaction}
use mockgatehub.Tests.Data.{handler, pending_withdrawal}

abbrev usd_vault : String
usd_vault = "450d2156-132a-4d3f-88c5-74822547658d"

abbrev completion : Completion ℤ
completion = record {
  tx_id = "tx-1";
  user_id = "alice-id";
  currency = "USD";
  amount = pos 500_000;
  fee = pos 5_000;
  deposit_type = "external";
  receiving_address = "rAlice";
  is_debit = false;
  has_webhook = true;
}

found : lookup "tx-1" (handler false).store.transactions ≡ some pending_withdrawal
unfolding lookup
found = refl

-- a deposit of 50 dollars, with a fee of half a dollar
abbrev request : CreateTransactionRequest ℤ
request = record {
  user_id = "alice-id";
  uid = "";
  amount = pos 500_000;
  currency = "USD";
  vault_uuid = "";
  sending_address = "";
  receiving_address = "rAlice";
  kind = pos 1;
  deposit_type = "external";
}

abbrev created : Transaction
created = record (requested request "alice-id" "USD" (pos 5_000)) { id = "tx-9"; created_at = 7 }

abbrev started : Completion ℤ
started = record completion { tx_id = "tx-9" }

abbrev after_creation : Handler ℤ String
after_creation = (handle_create_transaction "tx-9" 7 "" request (handler false)).1

creation :
    (handle_create_transaction "tx-9" 7 "" request (handler false)).0 ≡ ok (created, some started)
unfolding handle_create_transaction lookup units resolve_currency get_user create_transaction
    has_url calculate_fee div_round ◌*ℤ◌ get_deposit_fee_for_user
creation = refl

still_there : lookup "tx-9" after_creation.store.transactions ≡ some created
unfolding handle_create_transaction lookup insert units resolve_currency get_user create_transaction
    has_url calculate_fee div_round ◌*ℤ◌ get_deposit_fee_for_user
still_there = refl

created_credit_example :
    let (done, h2) = complete_transaction started after_creation in
    (lookup "tx-9" after_creation.store.transactions ≡ some created)
    × (units.format (pos 500_000) ≡ created.amount)
    × (units.format (pos 5_000) ≡ created.fee)
    × (after_creation.store.balances ≡ (handler false).store.balances)
    × (done ≡ ok tt)
    × ((u d : String)
        → balance u d h2.store ≡ (
            if "alice-id" == u && "USD" == d
            then units.add
                (balance "alice-id" "USD" after_creation.store)
                (units.sub (pos 500_000) (pos 5_000))
            else balance u d after_creation.store))
created_credit_example =
    created_credit "tx-9" 7 "" request (handler false) after_creation created created started
      creation refl still_there

complete_credit_status_example :
    lookup "tx-1" (complete_transaction completion (handler false)).1.store.transactions
    ≡ some (record pending_withdrawal { status = 100 })
complete_credit_status_example =
    complete_credit_status completion (handler false) pending_withdrawal found refl

corrected : resolve_currency "EUR" usd_vault ≡ ok "USD"
unfolding resolve_currency lookup sandbox_vault_ids vault_uuid_to_currency
corrected = refl

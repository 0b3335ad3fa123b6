-- ===== src/Tests/Accounts.antt =====
-- Users, fees and the tables of vaults.
use mockgatehub.Storage.Organizations.{get_organization, update_organization}
use mockgatehub.Storage.Wallets.{create_wallet, get_wallets_by_user}
use mockgatehub.Storage.Users.{get_user}
use mockgatehub.Prelude.GoMap.{values}
use mockgatehub.Storage.Cards.{select}
use mockgatehub.Prelude.{
  Option, String, ap, ◌≡◌, refl, false, some, none, List, [], ◌∷◌, arith, eq_iff,
}
use mockgatehub.Prelude.Int.{ℤ, pos}
use mockgatehub.Prelude.Result.{ok, err}
use mockgatehub.Prelude.GoMap.{lookup}
use mockgatehub.Float64.Units.{units}
use mockgatehub.Fees.{new_fee_config}
use mockgatehub.Handler.{not_found}
use mockgatehub.Handler.Fees.{FeeRequest, set_user, set_global, clear_user, apply_requests}
use mockgatehub.Handler.Fees.Range.{IsInRange, apply_requests-IsInRange, new_fee_config-IsInRange}
use mockgatehub.Handler.Users.{get_managed_user, update_managed_user_email}
use mockgatehub.Handler.Users.Email.{email_change_is_not_indexed}
use mockgatehub.Handler.{Handler}
use mockgatehub.Handler.Payments.{default_wallet}
use mockgatehub.Handler.Wallets.{get_user_wallets, user_wallets}
use mockgatehub.Handler.Wallets.Default.{default_wallet_once}
use mockgatehub.Models.{Organization}
use mockgatehub.Handler.TwoFactor.{resolve_org_base_url, trim_right_slashes}
use mockgatehub.Handler.Organizations.{
  Url, UpdateOrganizationConfigurationRequest, update_organization_configuration,
}
use mockgatehub.Handler.Organizations.Configured.{configured_url_is_used}
use mockgatehub.Tests.Data.{alice, handler, store, settings}

email_change_is_not_indexed_example :
    let (r, h') = update_managed_user_email "alice@example.com" "new@example.com" (handler false) in
    (r ≡ ok (record alice { email = "new@example.com" }))
    × ((get_managed_user "new@example.com" h').0 ≡ err (not_found "User not found"))
    × ((get_managed_user "alice@example.com" h').0
        ≡ ok (record alice { email = "new@example.com" }))
unfolding lookup
email_change_is_not_indexed_example =
    email_change_is_not_indexed "alice@example.com" "new@example.com" (handler false) 0 alice
      (λ e. ground (arith, eq_iff "alice@example.com" ""))
      (λ e. ground (arith, eq_iff "new@example.com" "")) refl refl refl refl

abbrev fee_requests : List (FeeRequest ℤ)
fee_requests =
    set_user "alice-id" (
      some (record {
        deposit_fee_percentage = some (pos 2_000_000);
        withdrawal_fee_percentage = none;
      }))
    ∷ set_global (
        some
          (record { deposit_fee_percentage = pos 10_000; withdrawal_fee_percentage = pos 20_000 }))
    ∷ clear_user "alice-id"
    ∷ []

apply_requests-IsInRange_example : IsInRange (apply_requests fee_requests (new_fee_config {F = ℤ}))
apply_requests-IsInRange_example =
    apply_requests-IsInRange fee_requests (new_fee_config {F = ℤ}) new_fee_config-IsInRange

-- alice, without her wallet
abbrev walletless : Handler ℤ String
walletless = record (handler false) { store = record store { wallets = [] } }

default_wallet_once_example :
    (get_user_wallets "rLater" 8 "alice-id" (get_user_wallets "rFirst" 7 "alice-id" walletless).1).0
    ≡ ok (user_wallets (default_wallet "rFirst" "alice-id" ∷ []))
unfolding select values get_user_wallets get_user lookup get_wallets_by_user create_wallet
default_wallet_once_example =
    ap (λ r. r.0)
      (default_wallet_once "rFirst" "rLater" 7 8 "alice-id" walletless
        (user_wallets (default_wallet "rFirst" "alice-id" ∷ [])) refl refl).1

abbrev organization : Organization
organization = record {
  id = "org-1";
  api_base_url = "http://old.example";
  two_fa_type = "sms";
  created_at = 1;
  updated_at = 1;
}

-- a configured default organization
abbrev organized : Handler ℤ String
organized = record (handler false) {
  settings = record (settings false) { default_organization_id = "org-1" };
  store = record store { organizations = ("org-1", organization) ∷ [] };
}

abbrev parse_url : String → Option Url
parse_url url = some (record { scheme = "https"; host = "new.example" })

abbrev configuration : UpdateOrganizationConfigurationRequest
configuration = record { api_base_url = "https://new.example/"; two_fa_type = "totp" }

configured_url_is_used_example :
    resolve_org_base_url
      (update_organization_configuration parse_url 9 "org-1" (some configuration) organized).1
    ≡ trim_right_slashes "https://new.example/"
unfolding lookup update_organization_configuration get_organization update_organization
configured_url_is_used_example =
    (configured_url_is_used parse_url 9 "org-1" configuration organized organization
      (record organization {
        api_base_url = "https://new.example";
        two_fa_type = "totp";
        updated_at = 9;
      })
      refl refl refl refl).1

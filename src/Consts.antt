-- ===== src/Consts.antt =====
-- internal/consts/consts.go: the constants that the modelled handlers use.
pub mod Vaults
use mockgatehub.Prelude.{ℕ, String, List, [], ◌∷◌}
use mockgatehub.Prelude.GoMap.{GoMap}
use mockgatehub.Prelude.Int.{ℤ, pos}

abbrev pub kyc_state_accepted : String
kyc_state_accepted = "accepted"

abbrev pub kyc_state_rejected : String
kyc_state_rejected = "rejected"

abbrev pub kyc_state_action_required : String
kyc_state_action_required = "action_required"

abbrev pub kyc_state_resubmission : String
kyc_state_resubmission = "resubmission"

abbrev pub risk_level_low : String
risk_level_low = "low"

abbrev pub transaction_type_withdrawal : ℤ
transaction_type_withdrawal = pos 0

abbrev pub transaction_type_deposit : ℤ
transaction_type_deposit = pos 1

abbrev pub transaction_status_pending : ℕ
transaction_status_pending = 1

abbrev pub transaction_status_completed : ℕ
transaction_status_completed = 100

abbrev pub transaction_status_failed : ℕ
transaction_status_failed = 3

abbrev pub deposit_type_external : String
deposit_type_external = "external"

abbrev pub deposit_type_hosted : String
deposit_type_hosted = "hosted"

abbrev pub deposit_type_withdrawal : String
deposit_type_withdrawal = "withdrawal"

abbrev pub wallet_type_standard : ℤ
wallet_type_standard = pos 1

abbrev pub network_xrp_ledger : ℤ
network_xrp_ledger = pos 30

abbrev pub event_kyc_accepted : String
event_kyc_accepted = "id.verification.accepted"

abbrev pub event_kyc_rejected : String
event_kyc_rejected = "id.verification.rejected"

abbrev pub event_kyc_action_required : String
event_kyc_action_required = "id.verification.action_required"

abbrev pub event_kyc_resubmission : String
event_kyc_resubmission = "id.verification.resubmission"

abbrev pub event_document_notice_expired : String
event_document_notice_expired = "id.document_notice.expired"

abbrev pub event_document_notice_warning : String
event_document_notice_warning = "id.document_notice.warning"

abbrev pub event_deposit_completed : String
event_deposit_completed = "core.deposit.completed"

abbrev pub event_withdrawal_completed : String
event_withdrawal_completed = "core.withdrawal.completed"

abbrev pub event_withdrawal_rejected : String
event_withdrawal_rejected = "more-bridge.withdrawal.rejected"

abbrev pub card_status_active : String
card_status_active = "Active"

abbrev pub card_status_blocked : String
card_status_blocked = "Blocked"

abbrev pub card_status_temporary_blocked : String
card_status_temporary_blocked = "TemporaryBlocked"

abbrev pub card_status_soft_delete : String
card_status_soft_delete = "SoftDelete"

abbrev pub default_card_product_code : String
default_card_product_code = "PWSR_DEBP_2404"

abbrev pub default_customer_type : String
default_customer_type = "Citizen"

abbrev pub default_account_type : String
default_account_type = "DEBIT"

abbrev pub card_relation_primary : String
card_relation_primary = "PRIMARY"

abbrev pub default_status_active : String
default_status_active = "ACTIVE"

abbrev pub event_card_created : String
event_card_created = "cards.card.created"

abbrev pub mock_withdrawal_iban : String
mock_withdrawal_iban = "GB29NWBK60161331926819"

abbrev pub mock_withdrawal_legal_name : String
mock_withdrawal_legal_name = "Jane Smith"

abbrev pub mock_withdrawal_reference : String
mock_withdrawal_reference = "Mock Reference"

abbrev pub test_user1_id : String
test_user1_id = "00000000-0000-0000-0000-000000000001"

abbrev pub test_user1_email : String
test_user1_email = "testuser1@mockgatehub.local"

abbrev pub test_user2_id : String
test_user2_id = "00000000-0000-0000-0000-000000000002"

abbrev pub test_user2_email : String
test_user2_email = "testuser2@mockgatehub.local"

-- `SandboxCurrencies`
unfoldable pub sandbox_currencies : List String
sandbox_currencies =
    "XRP" ∷ "USD" ∷ "EUR" ∷ "GBP" ∷ "ZAR" ∷ "MXN" ∷ "SGD" ∷ "CAD" ∷ "EGG" ∷ "PEB" ∷ "PKR" ∷ []

-- `SandboxVaultIDs`
unfoldable pub sandbox_vault_ids : GoMap String
sandbox_vault_ids =
    ("USD", "450d2156-132a-4d3f-88c5-74822547658d")
    ∷ ("EUR", "a09a0a2c-1a3a-44c5-a1b9-603a6eea9341")
    ∷ ("GBP", "992b932d-7e9e-44b0-90ea-b82a530b6784")
    ∷ ("ZAR", "f1c412ce-5e2b-4737-9121-b7c11d6c3f93")
    ∷ ("MXN", "426c2e30-111e-4273-92b3-508445a6bb58")
    ∷ ("SGD", "e2914c33-2e57-49a5-ac06-25c006497b3d")
    ∷ ("CAD", "bd5af6fe-5d92-4b20-9bd4-1baa52b7a02e")
    ∷ ("EGG", "9a550347-799e-4c10-9142-f1a2e1c084e7")
    ∷ ("PEB", "0ba2b0d1-b7a2-416c-a4ac-1cb3e5281300")
    ∷ ("PKR", "2868b4e5-7178-4945-8ec5-8208fac2a22d")
    ∷ ("XRP", "6e1f2a3b-4c5d-6e7f-8a9b-0c1d2e3f4a5b")
    ∷ []

-- `VaultUUIDToCurrency`
unfoldable pub vault_uuid_to_currency : GoMap String
vault_uuid_to_currency =
    ("450d2156-132a-4d3f-88c5-74822547658d", "USD")
    ∷ ("a09a0a2c-1a3a-44c5-a1b9-603a6eea9341", "EUR")
    ∷ ("992b932d-7e9e-44b0-90ea-b82a530b6784", "GBP")
    ∷ ("f1c412ce-5e2b-4737-9121-b7c11d6c3f93", "ZAR")
    ∷ ("426c2e30-111e-4273-92b3-508445a6bb58", "MXN")
    ∷ ("e2914c33-2e57-49a5-ac06-25c006497b3d", "SGD")
    ∷ ("bd5af6fe-5d92-4b20-9bd4-1baa52b7a02e", "CAD")
    ∷ ("9a550347-799e-4c10-9142-f1a2e1c084e7", "EGG")
    ∷ ("0ba2b0d1-b7a2-416c-a4ac-1cb3e5281300", "PEB")
    ∷ ("2868b4e5-7178-4945-8ec5-8208fac2a22d", "PKR")
    ∷ ("6e1f2a3b-4c5d-6e7f-8a9b-0c1d2e3f4a5b", "XRP")
    ∷ []

abbrev pub card_tx_status_processing : String
card_tx_status_processing = "PROCESSING"

abbrev pub card_tx_status_completed : String
card_tx_status_completed = "COMPLETED"

abbrev pub card_tx_status_reversed : String
card_tx_status_reversed = "REVERSED"

abbrev pub card_tx_status_declined : String
card_tx_status_declined = "DECLINED"

abbrev pub event_card_transaction_authorization : String
event_card_transaction_authorization = "cards.transaction.authorization"

abbrev pub event_card_transaction : String
event_card_transaction = "cards.transaction.event"

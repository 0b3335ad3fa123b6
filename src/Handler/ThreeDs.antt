-- ===== src/Handler/ThreeDs.antt =====
-- The 3DS challenges of internal/handler/cards.go: created, listed as pending, confirmed or declined.
-- A time is a number of seconds here.
pub mod Settling
use Prim.Native.String.{◌++◌}
use mockgatehub.Prelude.{ℕ, String, Bool, Option, List, [], ◌+◌, ◌-◌, map, if◌then◌else◌}
use mockgatehub.Prelude.Result.{Result, ok, err, of_option, ◌>>=◌, ◌>>◌, lift, pure}
use mockgatehub.Models.{ThreeDsChallenge, Time}
use mockgatehub.Storage.ThreeDs.{
  create_three_ds_challenge, get_three_ds_challenge, get_pending_three_ds_challenges,
  update_three_ds_challenge,
}
use mockgatehub.Handler.State.{Handler, Action, bad_request, not_found, internal_err, call_or, call}

pub record ThreeDsRequest : Type 0 where
  pub card_id : String
  pub user_id : String
  pub merchant_name : String
  pub purchase_amount : String
  pub purchase_currency : String

-- `timeout` is the number of seconds that are left, which the response prints.
pub record PendingThreeDsConfirmation : Type 0 where
  pub transaction_id : String
  pub merchant_name : String
  pub purchase_amount : String
  pub purchase_currency : String
  pub purchase_date : String
  pub timeout : ℕ

-- five minutes
abbrev pub challenge_validity : ℕ
challenge_validity = 300

abbrev pub new_challenge : String → Time → String → ThreeDsRequest → ThreeDsChallenge
new_challenge fresh now date req = record {
  transaction_id = "3ds-" ++ fresh;
  card_id = req.card_id;
  user_id = req.user_id;
  merchant_name = req.merchant_name;
  purchase_amount = req.purchase_amount;
  purchase_currency = req.purchase_currency;
  purchase_date = date;
  timeout = now + challenge_validity;
  status = "pending";
  created_at = now;
}

-- The subtraction stops at 0, as the response does.
abbrev pub pending_confirmation : Time → ThreeDsChallenge → PendingThreeDsConfirmation
pending_confirmation now c = record {
  transaction_id = c.transaction_id;
  merchant_name = c.merchant_name;
  purchase_amount = c.purchase_amount;
  purchase_currency = c.purchase_currency;
  purchase_date = c.purchase_date;
  timeout = c.timeout - now;
}

module _ {F Raw : Type 0} where
  -- `fresh` are the eight characters of a new UUID, `date` is the present time as text.
  unfoldable pub handle_create_three_ds_challenge :
      String → Time → String → Option ThreeDsRequest → Action F Raw ThreeDsChallenge
  handle_create_three_ds_challenge fresh now date body = do
    req ← lift (of_option body (bad_request "invalid request body"))
    call_or (λ _. internal_err "failed to create 3DS challenge")
        (create_three_ds_challenge now (new_challenge fresh now date req))

  -- The body says whether the payment is confirmed, and so does the answer.
  unfoldable pub confirm_three_ds : String → Option Bool → Action F Raw Bool
  confirm_three_ds tx_id body = do
    confirmed ← lift (of_option body (bad_request "invalid request body"))
    challenge ← call_or (λ _. not_found "3DS challenge not found") (get_three_ds_challenge tx_id)
    call_or (λ _. internal_err "failed to update 3DS challenge")
        (update_three_ds_challenge
          (record challenge { status = if confirmed then "approved" else "declined" }))
    pure confirmed

  -- An error of the storage is answered with no confirmations.
  unfoldable pub get_pending_confirmations :
      Time → String → Action F Raw (List PendingThreeDsConfirmation)
  get_pending_confirmations now user_id h =
      let (answer, h') = call (get_pending_three_ds_challenges now user_id) h in
      elim answer [
        | err _ ↦ (ok [], h')
        | ok challenges ↦ (ok (map (pending_confirmation now) challenges), h')
      ]

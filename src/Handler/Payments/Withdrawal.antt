-- ===== src/Handler/Payments/Withdrawal.antt =====
-- The parts of `processWithdrawal`: its tests, and what follows them.
use mockgatehub.Prelude.{
  String, ◌≡◌, ◌≢◌, ◌⊎◌, inl, inr, refl, Bool, false, some, List, ◌==◌, arith, Bool-cases,
  Option-cases, if◌then◌else◌,
}
use mockgatehub.Prelude.Result.{ok, err, ◌>>◌, pure}
use mockgatehub.Prelude.GoMap.{lookup}
use mockgatehub.Prelude.Heap.{Ptr}
use mockgatehub.Float64.{Float64}
use mockgatehub.Models.{Transaction, Wallet}
use mockgatehub.Consts.{transaction_status_pending, transaction_status_completed}
use mockgatehub.Storage.{MemoryStorage}
use mockgatehub.Storage.Users.{get_user}
use mockgatehub.Storage.Wallets.{get_wallets_by_user}
use mockgatehub.Storage.Transactions.{create_transaction}
use mockgatehub.Storage.Balances.Laws.{balance, get_balance-balance}
use mockgatehub.Fees.{calculate_fee, get_withdrawal_fee_for_user}
use mockgatehub.Handler.State.{Handler, Action, internal_err, call_or}
use mockgatehub.Handler.Payments.{
  TransactionRequest, Fresh, process_withdrawal, charge_now, withdrawal_record,
  extract_user_from_bearer, head_or,
}

module _ {F Raw : Type 0} ⦃fl : Float64 F⦄ where
  -- the fee that the user pays on a withdrawal, and the amount with it
  abbrev pub fee_on : String → F → Handler F Raw → F
  fee_on user_id amount h =
      calculate_fee amount (get_withdrawal_fee_for_user user_id h.fee_config).0

  abbrev pub total_of : String → F → Handler F Raw → F
  total_of user_id amount h = fl.add amount (fee_on user_id amount h)

  abbrev pub withdrawal_tx :
      Fresh → String → TransactionRequest → String → F → Handler F Raw → Transaction
  withdrawal_tx fresh user_id req address amount h =
      withdrawal_record fresh user_id req address amount (fee_on user_id amount h) (
        if h.settings.async_withdrawals
        then transaction_status_pending
        else transaction_status_completed)

  -- what follows the tests
  abbrev pub book : Bool → Fresh → String → String → F → Transaction → Action F Raw String
  book async fresh user_id currency total tx = do
    call_or (λ _. internal_err "Failed to create transaction")
        (create_transaction fresh.tx_id fresh.now tx)
    if async then pure tt else charge_now user_id currency fresh.tx_id total
    pure fresh.tx_id

  abbrev pub withdraw_by : Fresh → String → TransactionRequest → String → F → Action F Raw String
  withdraw_by fresh user_id req address amount h =
      book h.settings.async_withdrawals fresh user_id req.currency (total_of user_id amount h)
        (withdrawal_tx fresh user_id req address amount h) h

  -- `GetWalletsByUser` and `GetUser` only read.
  pub reads_wallets :
      (u : String) (s : MemoryStorage F Raw)
      → (ws : List Wallet) × (get_wallets_by_user u s ≡ (ok ws, s))
  unfolding get_wallets_by_user
  reads_wallets u s = (_, refl)

  pub reads_user :
      (u : String) (s : MemoryStorage F Raw)
      → (get_user u s ≡ (err "user not found", s)) ⊎ ((p : Ptr) × (get_user u s ≡ (ok p, s)))
  unfolding get_user
  reads_user u s = elim (Option-cases (lookup u s.users)) [
    | inl gone ↦ inl (rw gone refl)
    | inr (p, found) ↦ inr (p, rw found refl)
  ]

  -- A request fails a test and changes nothing, or passes them all.
  pub withdrawal_tests :
      (fresh : Fresh) (bearer : String) (req : TransactionRequest) (h : Handler F Raw)
      → let (r, h') = process_withdrawal fresh bearer req h in
        let u = extract_user_from_bearer bearer h in
        ((h' ≡ h) × ((id : String) → r ≢ ok id))
        ⊎ ((wallet : Wallet) × (amount : F) × (fl.parse req.amount ≡ some amount)
            × (fl.lt (balance u req.currency h.store) (total_of u amount h) ≡ false)
            × (process_withdrawal fresh bearer req h
                ≡ withdraw_by fresh u req wallet.address amount h))
  unfolding process_withdrawal
  withdrawal_tests fresh bearer req h =
      let u = extract_user_from_bearer bearer h in
      let (ws, listed) = reads_wallets u h.store in
      elim (Bool-cases (u == "")) [
        | inl anonymous ↦ inl (rw anonymous refl, λ id. rw anonymous (λ e. ground arith))
        | inr named ↦ elim (reads_user u h.store) [
          | inl gone ↦ inl (rw (named, gone) refl, λ id. rw (named, gone) (λ e. ground arith))
          | inr (p, found) ↦ elim (Option-cases (head_or ws)) [
            | inl empty ↦ inl (
              rw (named, found, listed, empty) refl,
              λ id. rw (named, found, listed, empty) (λ e. ground arith),
            )
            | inr (wallet, first) ↦ elim (Option-cases (fl.parse req.amount)) [
              | inl bad ↦ inl (
                rw (named, found, listed, first, bad) refl,
                λ id. rw (named, found, listed, first, bad) (λ e. ground arith),
              )
              | inr (amount, parsed) ↦
                  let read = get_balance-balance u req.currency h.store in
                  elim (Bool-cases (fl.lt (balance u req.currency h.store) (total_of u amount h))) [
                    | inl short ↦ inl (
                      rw (named, found, listed, first, parsed, read, short) refl,
                      λ id.
                          rw (named, found, listed, first, parsed, read, short) (λ e. ground arith),
                    )
                    | inr enough ↦ inr (
                      wallet,
                      amount,
                      parsed,
                      enough,
                      rw (named, found, listed, first, parsed, read, enough) refl,
                    )
                  ]
            ]
          ]
        ]
      ]

-- ===== src/Handler/Payments/Deposit.antt =====
-- What a deposit of the iframe credits.
use mockgatehub.Prelude.{
  ℕ, String, ◌≡◌, ◌≢◌, refl, ap, ◌∙◌, some, List, [], ◌∷◌, ◌==◌, ◌&&◌, arith, if◌then◌else◌, inl,
  inr, Bool-cases, Option-cases,
}
use mockgatehub.Prelude.Result.{ok, Result-cases}
use mockgatehub.Float64.{Float64}
use mockgatehub.Models.{Wallet}
use mockgatehub.Storage.{MemoryStorage}
use mockgatehub.Storage.Wallets.{create_wallet}
use mockgatehub.Storage.Transactions.{create_transaction}
use mockgatehub.Storage.Balances.{add_balance}
use mockgatehub.Storage.Balances.Laws.{balance, balance_of_balances, balance-add_balance}
use mockgatehub.Fees.{calculate_fee, get_deposit_fee_for_user}
use mockgatehub.Handler.State.{Handler}
use mockgatehub.Handler.Withdrawals.Settlement.{store-send_async}
use mockgatehub.Handler.Payments.{
  TransactionRequest, Fresh, default_wallet, process_deposit, first_wallet, deposit_record,
  extract_user_from_bearer,
}
use mockgatehub.Handler.Payments.Withdrawal.{reads_wallets, reads_user}
use mockgatehub.Handler.Payments.Charges.{create_transaction_parts}

module _ {F Raw : Type 0} ⦃fl : Float64 F⦄ where
  balances-create_wallet :
      (now : ℕ) (w : Wallet) (s : MemoryStorage F Raw)
      → (create_wallet now w s).1.balances ≡ s.balances
  unfolding create_wallet
  balances-create_wallet now w s = ground arith

  balances-first_wallet :
      (fresh : Fresh) (u : String) (ws : List Wallet) (h : Handler F Raw)
      → (first_wallet fresh u ws h).1.store.balances ≡ h.store.balances
  unfolding first_wallet
  balances-first_wallet fresh u [] h =
      ground (arith, balances-create_wallet fresh.now (default_wallet fresh.address u) h.store)
  balances-first_wallet fresh u (w ∷ ws) h = refl

  -- An accepted deposit of the iframe had an amount that parses. It adds the whole of that amount,
  -- with no fee taken off, to the user's balance in the requested currency, and leaves every other
  -- balance.
  pub deposit_credits :
      (fresh : Fresh) (bearer : String) (req : TransactionRequest) (h : Handler F Raw)
      → (process_deposit fresh bearer req h).0 ≡ ok tt
      → let user = extract_user_from_bearer bearer h in
        (amount : F) × (fl.parse req.amount ≡ some amount)
        × ((u c : String)
            → balance u c (process_deposit fresh bearer req h).1.store ≡ (
                if user == u && req.currency == c
                then fl.add (balance user req.currency h.store) amount
                else balance u c h.store))
  unfolding process_deposit
  deposit_credits fresh bearer req h r =
      let user = extract_user_from_bearer bearer h in
      let (ws, listed) = reads_wallets user h.store in
      elim (Bool-cases (user == "")) [
        | inl anonymous ↦ absurd (
            let refused : (process_deposit fresh bearer req h).0 ≢ ok tt =
              rw (process_deposit, anonymous) (λ e. ground arith) in
            refused r)
        | inr named ↦ elim (reads_user user h.store) [
          | inl gone ↦ absurd (
              let refused : (process_deposit fresh bearer req h).0 ≢ ok tt =
                rw (process_deposit, named, gone) (λ e. ground arith) in
              refused r)
          | inr (p, found) ↦ elim (Result-cases (first_wallet fresh user ws h).0) [
            | inl (e, bad) ↦ absurd (
                let refused : (process_deposit fresh bearer req h).0 ≢ ok tt =
                  rw (process_deposit, named, found, listed, bad) (λ e. ground arith) in
                refused r)
            | inr (address, good) ↦ elim (Option-cases (fl.parse req.amount)) [
              | inl unread ↦ absurd (
                  let refused : (process_deposit fresh bearer req h).0 ≢ ok tt =
                    rw (process_deposit, named, found, listed, good, unread) (λ e. ground arith) in
                  refused r)
              | inr (amount, read) ↦
                  let h1 = (first_wallet fresh user ws h).1 in
                  let fee = calculate_fee amount (get_deposit_fee_for_user user h1.fee_config).0 in
                  let tx = deposit_record fresh user req address amount fee in
                  let (made, kept, _) =
                    create_transaction_parts fresh.tx_id fresh.now tx h1.store refl refl in
                  let s = (create_transaction fresh.tx_id fresh.now tx h1.store).1 in
                  let law = λ (u c : String). balance-add_balance user req.currency u c amount s in
                  let still = λ (u c : String).
                    balance_of_balances u c s h.store
                      (kept ∙ balances-first_wallet fresh user ws h) in
                  let after : (process_deposit fresh bearer req h).1.store
                      ≡ (add_balance user req.currency amount s).1 =
                    rw
                      (
                        process_deposit,
                        named,
                        found,
                        listed,
                        good,
                        read,
                        made,
                        (law user req.currency).0,
                      )
                      (store-send_async _ _ _ _) in
                  (
                    amount,
                    read,
                    λ u c.
                        ap (λ t. balance u c t) after
                        ∙ (law u c).1
                        ∙ rw (still user req.currency, still u c) refl,
                  )
            ]
          ]
        ]
      ]

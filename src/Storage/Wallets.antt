-- ===== src/Storage/Wallets.antt =====
-- Wallets of memory.go.
use Prim.Native.String.{◌++◌}
use mockgatehub.Prelude.{String, List, nat_beq, ◌==◌, if◌then◌else◌}
use mockgatehub.Prelude.Result.{ok, of_option, ◌>>=◌, ◌>>◌, raise_if, gets, modify, pure}
use mockgatehub.Prelude.GoMap.{lookup, insert, contains, values}
use mockgatehub.Models.{Wallet, Time}
use mockgatehub.Storage.Memory.{Method}
use mockgatehub.Storage.Cards.{select}

module _ {F Raw : Type 0} where
  -- The wallet as `CreateWallet` leaves it.
  unfoldable pub create_wallet : Time → Wallet → Method F Raw Wallet
  create_wallet now wallet = do
    raise_if (wallet.address == "") "address is required"
    taken ← gets (λ s. contains wallet.address s.wallets)
    raise_if taken ("wallet with address " ++ wallet.address ++ " already exists")
    let created = if nat_beq wallet.created_at 0 then now else wallet.created_at
    let kept = record wallet { created_at = created }
    modify (λ s. record s { wallets = insert wallet.address kept s.wallets })
    pure kept

  unfoldable pub get_wallet : String → Method F Raw Wallet
  get_wallet address s = (of_option (lookup address s.wallets) "wallet not found", s)

  unfoldable pub get_wallets_by_user : String → Method F Raw (List Wallet)
  unfolding select values
  get_wallets_by_user user_id s =
      (ok (select (λ (wallet : Wallet). wallet.user_id == user_id) (values s.wallets)), s)

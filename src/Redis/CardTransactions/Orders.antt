-- ===== src/Redis/CardTransactions/Orders.antt =====
-- The index of a card's transactions, in redis.go and in memory.go.
use mathlib.Core.List.{reverse, reverse-append}
use mockgatehub.Prelude.{
  String, ◌≡◌, ◌≢◌, ◌⊎◌, refl, ap, ◌∙◌, sym, List, [], ◌∷◌, arith, eq_refl, ne→==, All, inl, inr,
  ◌++◌,
}
use mockgatehub.Prelude.Result.{ok, err, Result-cases, ◌>>◌, pure}
use mockgatehub.Prelude.GoMap.{lookup, lookup-insert_self}
use mockgatehub.Redis.Client.{RedisClient, Call, read}
use mockgatehub.Redis.Laws.{Reads, wrapped}
use mockgatehub.Redis.CardTransactions.{
  add_card_transaction_index, get_card_transaction_ids, card_transactions_key,
}
use mockgatehub.Storage.{MemoryStorage, Method}
use mockgatehub.Storage.Customers.{list_or_nil}
use mockgatehub.Storage.CardTransactions

-- the IDs under a card in memory
abbrev pub ids_in_memory : {F Raw : Type 0} → String → MemoryStorage F Raw → List String
ids_in_memory card_id s = list_or_nil (lookup card_id s.card_transactions_by_card)

-- one call after the other, up to an error
unfoldable pub index_in_memory : {F Raw : Type 0} → String → List String → Method F Raw (Unit {0})
index_in_memory card_id [] = pure tt
index_in_memory card_id (tx_id ∷ tx_ids) = do
  CardTransactions.add_card_transaction_index card_id tx_id
  index_in_memory card_id tx_ids

module _ {R : Type 0} ⦃client : RedisClient R⦄ where
  unfoldable pub index_in_redis : String → List String → Call R (Unit {0})
  index_in_redis card_id [] = pure tt
  index_in_redis card_id (tx_id ∷ tx_ids) = do
    add_card_transaction_index card_id tx_id
    index_in_redis card_id tx_ids

module _ {F Raw : Type 0} where
  memory_add :
      (card_id tx_id : String) (s : MemoryStorage F Raw)
      → card_id ≢ ""
      → tx_id ≢ ""
      → let (answer, s') = CardTransactions.add_card_transaction_index card_id tx_id s in
        (answer ≡ ok tt) × (ids_in_memory card_id s' ≡ ids_in_memory card_id s ++ tx_id ∷ [])
  unfolding CardTransactions.add_card_transaction_index
  memory_add card_id tx_id s named given =
      let grown =
        lookup-insert_self card_id (ids_in_memory card_id s ++ tx_id ∷ [])
          s.card_transactions_by_card in
      (
        rw
            (
              CardTransactions.add_card_transaction_index,
              ne→== card_id "" named,
              ne→== tx_id "" given,
            )
            refl,
        rw
            (
              CardTransactions.add_card_transaction_index,
              ne→== card_id "" named,
              ne→== tx_id "" given,
            )
            (ap list_or_nil grown),
      )

module _ {R : Type 0} ⦃client : RedisClient R⦄ where
  redis_add :
      (card_id tx_id : String) (r : R)
      → card_id ≢ ""
      → tx_id ≢ ""
      → let (answer, r') = add_card_transaction_index card_id tx_id r in
        ((e : String) × (answer ≡ err e))
        ⊎ ((answer ≡ ok tt)
            × (client.listed (card_transactions_key card_id) r'
                ≡ tx_id ∷ client.listed (card_transactions_key card_id) r))
  unfolding add_card_transaction_index
  redis_add card_id tx_id r named given =
      let key = card_transactions_key card_id in
      elim (Result-cases (client.l_push key tx_id r).0) [
        | inl (e, bad) ↦ inl (
          wrapped "failed to index card transaction: " e,
          rw (add_card_transaction_index, ne→== card_id "" named, ne→== tx_id "" given, bad) refl,
        )
        | inr (_, fine) ↦ inr (
          rw (add_card_transaction_index, ne→== card_id "" named, ne→== tx_id "" given, fine) refl,
          rw (add_card_transaction_index, ne→== card_id "" named, ne→== tx_id "" given)
              (client.listed-l_push key key tx_id r fine ∙ rw (eq_refl key) refl),
        )
      ]

module _ {F Raw R : Type 0} ⦃client : RedisClient R⦄ where
  indexes_reversed :
      (card_id : String) (tx_ids : List String) (s : MemoryStorage F Raw) (r : R)
      → card_id ≢ ""
      → All (λ tx_id. tx_id ≢ "") tx_ids
      → client.listed (card_transactions_key card_id) r ≡ reverse (ids_in_memory card_id s)
      → (index_in_redis card_id tx_ids r).0 ≡ ok tt
      → client.listed (card_transactions_key card_id) (index_in_redis card_id tx_ids r).1
        ≡ reverse (ids_in_memory card_id (index_in_memory card_id tx_ids s).1)
  unfolding index_in_redis index_in_memory
  indexes_reversed card_id [] s r named given same fine = same
  indexes_reversed card_id (tx_id ∷ tx_ids) s r named given same fine =
      let r1 : R = (add_card_transaction_index card_id tx_id r).1 in
      let s1 : MemoryStorage F Raw =
        (CardTransactions.add_card_transaction_index card_id tx_id s).1 in
      let (added, grown) = memory_add card_id tx_id s named given.0 in
      elim (redis_add card_id tx_id r named given.0) [
        | inl (e, bad) ↦ absurd (ground arith)
        | inr (pushed, longer) ↦
            let same1 : client.listed (card_transactions_key card_id) r1
                ≡ reverse (ids_in_memory card_id s1) =
              longer
              ∙ ap (λ ids. tx_id ∷ ids) same
              ∙ sym (ap reverse grown ∙ reverse-append (ids_in_memory card_id s) (tx_id ∷ [])) in
            let later = indexes_reversed card_id tx_ids s1 r1 named given.1 same1 in
            rw (pushed, added) (later (rw pushed at fine))
      ]

  -- Where one card's transactions are indexed by both storages, one after the other, and every call
  -- succeeds, the two list them in opposite orders: memory.go the oldest first, redis.go the newest
  -- first, or the server cannot be reached. The two lists are opposite before, as empty ones are.
  pub storages_list_reversed :
      (card_id : String) (tx_ids : List String) (s : MemoryStorage F Raw) (r : R)
      → card_id ≢ ""
      → All (λ tx_id. tx_id ≢ "") tx_ids
      → client.listed (card_transactions_key card_id) r ≡ reverse (ids_in_memory card_id s)
      → (index_in_redis card_id tx_ids r).0 ≡ ok tt
      → let s' = (index_in_memory card_id tx_ids s).1 in
        let r' = (index_in_redis card_id tx_ids r).1 in
        (ids : List String) × ((CardTransactions.get_card_transaction_ids card_id s').0 ≡ ok ids)
        × Reads "failed to get card transaction IDs: "
            (get_card_transaction_ids card_id r').0
            (reverse ids)
  unfolding get_card_transaction_ids CardTransactions.get_card_transaction_ids
  storages_list_reversed card_id tx_ids s r named given same fine =
      let key = card_transactions_key card_id in
      let s' : MemoryStorage F Raw = (index_in_memory card_id tx_ids s).1 in
      let r' : R = (index_in_redis card_id tx_ids r).1 in
      let opposite = indexes_reversed card_id tx_ids s r named given same fine in
      (
        ids_in_memory card_id s',
        refl,
        elim (Result-cases (client.l_range key r')) [
          | inl (e, bad) ↦ inr (e, rw (get_card_transaction_ids, bad) refl)
          | inr (ids, read) ↦ inl (
              rw (get_card_transaction_ids, read)
                (ap ok (client.l_range-listed key r' ids read ∙ opposite)))
        ],
      )

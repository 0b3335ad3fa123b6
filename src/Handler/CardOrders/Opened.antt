-- ===== src/Handler/CardOrders/Opened.antt =====
-- What an order of a card leaves.
use mockgatehub.Prelude.{
  String, ◌≡◌, ◌⊎◌, inl, inr, refl, ap, ◌∙◌, sym, subst, [], ◌∷◌, some, arith, nat_beq, ◌==◌,
  eq_iff, Bool-cases, Option-cases, if◌then◌else◌,
}
use mockgatehub.Prelude.Result.{ok, err, after_ok, ◌>>◌}
use mockgatehub.Prelude.GoMap.{lookup, insert, lookup-insert_self, contains}
use mockgatehub.Prelude.Heap.{Ptr, deref, assign, next}
use mockgatehub.Float64.{Float64}
use mockgatehub.Models.{Card, Time, Account, Customer}
use mockgatehub.Consts.{card_status_active, default_card_product_code}
use mockgatehub.Storage.{MemoryStorage, nil_dereference}
use mockgatehub.Storage.Cards.{create_card, set_card_limits}
use mockgatehub.Handler.State.{Handler, ApiError, internal_err, call_or}
use mockgatehub.Storage.Customers.{create_account, create_customer, new_account, new_customer}
use mockgatehub.Handler.Kyc.Writes.{keeps_store-send_async}
use mockgatehub.Handler.CardOrders.{
  create_managed_customer, open_customer, open_card, default_card_limits, new_card_of, FreshIds,
  CardOrder, CustomerResponse, text_or, deliver, open_account, new_account_of, new_customer_of,
}
use mockgatehub.Handler.CardOrders.Orderable.{
  IsAccepted, IsOrderable, accepted_user-cases, checked_order-cases,
}

module _ {F Raw : Type 0} ⦃fl : Float64 F⦄ where
  -- the card under an ID, active, with its customer, its name and the default limits
  pub record IsOpened (fresh : FreshIds) (name : String) (s : MemoryStorage F Raw) : Type 0 where
    pub card : Card
    pub stored : lookup fresh.card_id s.cards ≡ some card
    pub active : card.status ≡ card_status_active
    pub owner : card.customer_id ≡ fresh.customer_id
    pub name_on_card : card.name_on_card ≡ name
    pub limits : lookup fresh.card_id s.card_limits ≡ some default_card_limits

  create_card_parts :
      (fresh : String) (now : Time) (c : Card) (s : MemoryStorage F Raw)
      → c.id ≡ fresh
      → ((e : String) × ((create_card fresh now c s).0 ≡ err e))
        ⊎ (let c' = record c {
          id = fresh;
          created_at = if nat_beq c.created_at 0 then now else c.created_at;
        } in
            create_card fresh now c s ≡ (ok c', record s { cards = insert fresh c' s.cards }))
  unfolding create_card
  create_card_parts fresh now c s own =
      let same : (if c.id == "" then fresh else c.id) ≡ fresh = ground (arith, eq_iff c.id "") in
      elim (Bool-cases (contains fresh s.cards)) [
        | inl taken ↦ inl ("card already exists", rw (create_card, same, taken) refl)
        | inr free ↦ inr (rw (create_card, same, free) refl)
      ]

  -- An opened card is there, whatever came before.
  open_card-IsOpened :
      (fresh : FreshIds) (user_id wallet_address product_code name : String)
      (customer account : Ptr) (h : Handler F Raw) (resp : CustomerResponse)
      → let new = new_card_of fresh user_id product_code name in
        (open_card fresh user_id wallet_address new customer account h).0 ≡ ok resp
        → IsOpened fresh name
            (open_card fresh user_id wallet_address new customer account h).1.store
  unfolding open_card set_card_limits
  open_card-IsOpened fresh user_id wallet_address product_code name customer account h resp fine =
      let new = new_card_of fresh user_id product_code name in
      let kept : Card = record new {
        id = fresh.card_id;
        created_at = if nat_beq fresh.now 0 then fresh.now else fresh.now;
      } in
      let answer = open_card fresh user_id wallet_address new customer account h in
      let refused : (e : ApiError) → answer.0 ≡ err e → ⊥ = λ e bad. ground arith in
      elim (create_card_parts fresh.card_id fresh.now new h.store refl) [
        | inl (e, bad) ↦
            absurd (refused (internal_err "failed to create card") (rw (open_card, bad) refl))
        | inr made ↦ elim (Option-cases (deref account h.store.account_heap)) [
          | inl gone ↦
              absurd (refused (internal_err nil_dereference) (rw (open_card, made, gone) refl))
          | inr (a, there) ↦ elim (Option-cases (deref customer h.store.customer_heap)) [
            | inl gone ↦
                absurd
                  (refused (internal_err nil_dereference) (rw (open_card, made, there, gone) refl))
            | inr (c, there') ↦
                let with_card : Account = record a { cards = kept ∷ [] } in
                let with_account : Customer = record c { accounts = with_card ∷ [] } in
                let s' : MemoryStorage F Raw = record (h.store) {
                  cards = insert fresh.card_id kept h.store.cards;
                  card_limits = insert fresh.card_id default_card_limits h.store.card_limits;
                  account_heap = assign account with_card h.store.account_heap;
                  customer_heap = assign customer with_account h.store.customer_heap;
                } in
                let left : answer.1.store ≡ s' =
                  rw (open_card, made, there, there') (keeps_store-send_async _ _ _ _) in
                rw left (record {
                  card = kept;
                  stored = lookup-insert_self fresh.card_id kept h.store.cards;
                  active = refl;
                  owner = refl;
                  name_on_card = refl;
                  limits = lookup-insert_self fresh.card_id default_card_limits h.store.card_limits;
                })
          ]
        ]
      ]

  open_account-IsOpened :
      (fresh : FreshIds) (user_id : String) (req : CardOrder) (customer : Ptr) (h : Handler F Raw)
      (resp : CustomerResponse)
      → (open_account fresh user_id req customer h).0 ≡ ok resp
      → IsOpened fresh req.name_on_card (open_account fresh user_id req customer h).1.store
  unfolding open_account
  open_account-IsOpened fresh user_id req customer h resp fine =
      let product_code = text_or req.product_code default_card_product_code in
      let account = next h.store.account_heap in
      let a = new_account_of fresh user_id product_code (text_or req.currency "EUR") in
      after_ok (λ h'. IsOpened fresh req.name_on_card h'.store)
        (call_or (λ _. internal_err "failed to create account")
          (create_account fresh.account_id fresh.now account))
        (λ _.
          open_card fresh user_id req.wallet_address
            (new_card_of fresh user_id product_code req.name_on_card) customer account)
        (record h { store = (new_account a h.store).1 }) resp fine
        (λ _ _ fine'.
          open_card-IsOpened fresh user_id req.wallet_address product_code req.name_on_card customer
            account _ resp fine')

  open_customer-IsOpened :
      (fresh : FreshIds) (user_id : String) (req : CardOrder) (h : Handler F Raw)
      (resp : CustomerResponse)
      → (open_customer fresh user_id req h).0 ≡ ok resp
      → IsOpened fresh req.name_on_card (open_customer fresh user_id req h).1.store
  unfolding open_customer
  open_customer-IsOpened fresh user_id req h resp fine =
      let customer = next h.store.customer_heap in
      let P : Handler F Raw → Type 0 = λ h'. IsOpened fresh req.name_on_card h'.store in
      after_ok P
        (call_or (λ _. internal_err "failed to create customer")
          (create_customer fresh.customer_id fresh.now customer))
        (λ _. deliver fresh user_id req.delivery >> open_account fresh user_id req customer)
        (record h { store = (new_customer (new_customer_of fresh user_id) h.store).1 }) resp fine
        (λ _ _ fine'.
          after_ok P (deliver fresh user_id req.delivery)
            (λ _. open_account fresh user_id req customer) _ resp fine'
            (λ _ _ fine''. open_account-IsOpened fresh user_id req customer _ resp fine''))

  -- A card that is ordered with success was ordered for a user whose verification is accepted, with a
  -- name of one to 26 bytes and a currency whose last part is EUR. It is then in the store under its
  -- new ID, active, with the name, the new customer and the default limits, whether or not the
  -- delivery address could be stored.
  pub card_order_opens :
      (fresh : FreshIds) (user_id : String) (req : CardOrder) (h : Handler F Raw)
      (resp : CustomerResponse)
      → (create_managed_customer fresh user_id (some req) h).0 ≡ ok resp
      → IsAccepted user_id h.store
        × IsOrderable req
        × IsOpened fresh req.name_on_card
            (create_managed_customer fresh user_id (some req) h).1.store
  unfolding create_managed_customer
  card_order_opens fresh user_id req h resp fine =
      let refused : (e : ApiError)
          → (create_managed_customer fresh user_id (some req) h).0 ≡ err e
          → ⊥ =
        λ e bad. ground arith in
      elim (accepted_user-cases user_id h) [
        | inl (e, bad) ↦ absurd (refused e (rw (create_managed_customer, bad) refl))
        | inr (accepted, on) ↦ elim (checked_order-cases req h) [
          | inl (e, bad) ↦ absurd (refused e (rw (create_managed_customer, on, bad) refl))
          | inr (orderable, on') ↦
              let passed : create_managed_customer fresh user_id (some req) h
                  ≡ open_customer fresh user_id req h =
                rw (create_managed_customer, on, on') refl in
              (
                accepted,
                orderable,
                subst (λ x. IsOpened fresh req.name_on_card x.1.store) (sym passed)
                    (open_customer-IsOpened fresh user_id req h resp
                      (ap (λ x. x.0) (sym passed) ∙ fine)),
              )
        ]
      ]

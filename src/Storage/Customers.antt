-- ===== src/Storage/Customers.antt =====
-- Card customers, accounts and delivery addresses of memory.go.
use mockgatehub.Prelude.{
  String, Bool, true, Option, none, some, List, [], ◌∷◌, ◌++◌, nat_beq, ◌==◌, not, if◌then◌else◌,
}
use mockgatehub.Prelude.Result.{ok, of_option, ◌>>=◌, ◌>>◌, raise, raise_if, gets, modify}
use mockgatehub.Prelude.GoMap.{lookup, insert, contains}
use mockgatehub.Prelude.Heap.{Ptr, next, alloc, deref, assign}
use mockgatehub.Models.{Customer, Account, CustomerDeliveryAddress, Time}
use mockgatehub.Storage.Memory.{Method, nil_dereference}

-- `id == nil || *id == ""`
abbrev pub is_blank : Option String → Bool
is_blank none = true
is_blank (some id) = id == ""

-- the ID that a blank one is replaced by
abbrev pub id_or : Option String → String → String
id_or none fresh = fresh
id_or (some id) fresh = if id == "" then fresh else id

-- the list under a key, the missing one being nil
abbrev pub list_or_nil {ℓ} : {A : Type ℓ} → Option (List A) → List A
list_or_nil none = []
list_or_nil (some xs) = xs

-- `append(m[k], a)`
abbrev pub append_at {ℓ} :
    {A : Type ℓ} → String → A → List (String × List A) → List (String × List A)
append_at k a m = insert k (list_or_nil (lookup k m) ++ a ∷ []) m

module _ {F Raw : Type 0} where
  abbrev pub read_customer : Ptr → Method F Raw Customer
  read_customer p s = (of_option (deref p s.customer_heap) nil_dereference, s)

  abbrev pub write_customer : Ptr → Customer → Method F Raw (Unit {0})
  write_customer p c = modify (λ s. record s { customer_heap = assign p c s.customer_heap })

  -- `&models.Customer{...}`
  abbrev pub new_customer : Customer → Method F Raw Ptr
  new_customer c s =
      (ok (next s.customer_heap), record s { customer_heap = alloc c s.customer_heap })

  -- The object has its ID and time before the two later tests, so it keeps them when these fail.
  unfoldable pub create_customer : String → Time → Ptr → Method F Raw (Unit {0})
  create_customer fresh now p = do
    customer ← read_customer p
    let id = id_or customer.id fresh
    write_customer p (record customer { id = some id })
    raise_if (customer.source_id == "") "sourceId is required"
    let created = if nat_beq customer.created_at 0 then now else customer.created_at
    write_customer p (record customer { id = some id; created_at = created })
    taken ← gets (λ s. contains id s.customers)
    raise_if taken "customer already exists"
    modify (λ s. record s {
      customers = insert id p s.customers;
      customers_by_source = insert customer.source_id p s.customers_by_source;
    })

  unfoldable pub get_customer : String → Method F Raw Ptr
  get_customer id s = (of_option (lookup id s.customers) "customer not found", s)

  unfoldable pub get_customer_by_source_id : String → Method F Raw Ptr
  get_customer_by_source_id source_id s =
      (of_option (lookup source_id s.customers_by_source) "customer not found", s)

  unfoldable pub update_customer : Ptr → Method F Raw (Unit {0})
  update_customer p = do
    customer ← read_customer p
    raise_if (is_blank customer.id) "customer ID is required"
    let id = id_or customer.id ""
    known ← gets (λ s. contains id s.customers)
    raise_if (not known) "customer not found"
    modify (λ s. record s {
      customers = insert id p s.customers;
      customers_by_source = insert customer.source_id p s.customers_by_source;
    })

  abbrev pub read_account : Ptr → Method F Raw Account
  read_account p s = (of_option (deref p s.account_heap) nil_dereference, s)

  abbrev pub write_account : Ptr → Account → Method F Raw (Unit {0})
  write_account p a = modify (λ s. record s { account_heap = assign p a s.account_heap })

  -- `&models.Account{...}`
  abbrev pub new_account : Account → Method F Raw Ptr
  new_account a s = (ok (next s.account_heap), record s { account_heap = alloc a s.account_heap })

  unfoldable pub create_account : String → Time → Ptr → Method F Raw (Unit {0})
  create_account fresh now p = do
    account ← read_account p
    let id = id_or account.id fresh
    write_account p (record account { id = some id })
    taken ← gets (λ s. contains id s.accounts)
    raise_if taken "account already exists"
    let created = if nat_beq account.created_at 0 then now else account.created_at
    write_account p (record account { id = some id; created_at = created })
    modify (λ s. record s { accounts = insert id p s.accounts })

  unfoldable pub get_account : String → Method F Raw Ptr
  get_account id s = (of_option (lookup id s.accounts) "account not found", s)

  unfoldable pub update_account : Ptr → Method F Raw (Unit {0})
  update_account p = do
    account ← read_account p
    raise_if (is_blank account.id) "account ID is required"
    let id = id_or account.id ""
    known ← gets (λ s. contains id s.accounts)
    raise_if (not known) "account not found"
    modify (λ s. record s { accounts = insert id p s.accounts })

  -- No caller passes a nil address, but the test is there.
  unfoldable pub create_customer_address :
      String → String → Option CustomerDeliveryAddress → Method F Raw (Unit {0})
  create_customer_address fresh customer_id none =
      if customer_id == "" then raise "customer ID is required" else raise "address is required"
  create_customer_address fresh customer_id (some address) = do
    raise_if (customer_id == "") "customer ID is required"
    let kept = record address { id = if address.id == "" then fresh else address.id }
    modify (λ s. record s { customer_addresses = append_at customer_id kept s.customer_addresses })

  unfoldable pub get_customer_addresses : String → Method F Raw (List CustomerDeliveryAddress)
  get_customer_addresses customer_id s =
      (ok (list_or_nil (lookup customer_id s.customer_addresses)), s)

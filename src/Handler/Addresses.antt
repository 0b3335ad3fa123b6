-- ===== src/Handler/Addresses.antt =====
-- The delivery addresses of a customer, internal/handler/cards.go. A request is a JSON object, whose
-- values are V; `sprint` is `fmt.Sprintf("%v", ...)` of one and `as_text` its assertion to `string`.
use mockgatehub.Prelude.{String, Option, none, some, List, [], ◌∷◌}
use mockgatehub.Prelude.GoMap.{GoMap, lookup}
use mockgatehub.Prelude.Result.{ok, err, of_option, ◌>>=◌, ◌>>◌, lift, pure}
use mockgatehub.Models.{CustomerDeliveryAddress}
use mockgatehub.Storage.Customers.{create_customer_address, get_customer_addresses}
use mockgatehub.Handler.State.{Action, bad_request, internal_err, call, call_or}

module _ {V : Type 0} (sprint : V → String) (as_text : V → Option String) where
  -- A missing field is nil, which prints as <nil>.
  abbrev pub printed : String → GoMap V → String
  printed name req = elim (lookup name req) [ none ↦ "<nil>" | some v ↦ sprint v ]

  abbrev country_of : Option V → String
  country_of none = ""
  country_of (some v) = elim (as_text v) [ none ↦ "" | some code ↦ code ]

  abbrev pub new_address : String → String → GoMap V → CustomerDeliveryAddress
  new_address fresh customer_id req = record {
    id = fresh;
    source_id = "";
    customer_id = customer_id;
    customer_source_id = "";
    kind = printed "type" req;
    line1 = printed "line1" req;
    line2 = none;
    line3 = none;
    city = printed "city" req;
    post_office = none;
    zip_code = printed "zipCode" req;
    country_code = country_of (lookup "countryCode" req);
    status = "ACTIVE";
  }

  -- `fresh` is a new UUID.
  unfoldable pub handle_create_customer_address :
      {F Raw : Type 0}
      → String
      → String
      → Option (GoMap V)
      → Action F Raw (List CustomerDeliveryAddress)
  handle_create_customer_address fresh customer_id body = do
    req ← lift (of_option body (bad_request "invalid request body"))
    call_or (λ _. internal_err "failed to create address")
        (create_customer_address fresh customer_id (some (new_address fresh customer_id req)))
    pure (new_address fresh customer_id req ∷ [])

module _ {F Raw : Type 0} where
  unfoldable pub handle_get_customer_addresses :
      String → Action F Raw (List CustomerDeliveryAddress)
  handle_get_customer_addresses customer_id h =
      elim ((call (get_customer_addresses customer_id) h).0) [
        | err _ ↦ (ok [], h)
        | ok addresses ↦ (ok addresses, h)
      ]

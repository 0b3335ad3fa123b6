-- ===== src/Handler/CardOrders/Orderable.antt =====
-- Whose orders of a card pass, and which ones.
use Prim.Native.String.{◌++◌, len}
use mockgatehub.Prelude.{
  String, ◌≡◌, ◌≢◌, ◌⊎◌, inl, inr, refl, false, some, arith, ltb, ◌==◌, eq_iff, Bool-cases,
  Option-cases, ==→eq,
}
use mockgatehub.Prelude.Result.{ok, err}
use mockgatehub.Prelude.GoMap.{lookup}
use mockgatehub.Prelude.Heap.{Ptr, deref}
use mockgatehub.Float64.{Float64}
use mockgatehub.Models.{User}
use mockgatehub.Consts.{kyc_state_accepted}
use mockgatehub.Storage.{MemoryStorage, nil_dereference}
use mockgatehub.Storage.Users.{get_user}
use mockgatehub.Handler.State.{Handler, ApiError, internal_err, forbidden, bad_request, not_found}
use mockgatehub.Handler.CardOrders.{accepted_user, checked_order, CardOrder, base_currency, text_or}

-- what an order has to say
pub record IsOrderable (req : CardOrder) : Type 0 where
  pub named : req.name_on_card ≢ ""
  pub short : ltb 26 (len req.name_on_card) ≡ false
  pub in_euro : base_currency (text_or req.currency "EUR") ≡ "EUR"

module _ {F Raw : Type 0} ⦃fl : Float64 F⦄ where
  -- the user under an ID, verified
  pub record IsAccepted (user_id : String) (s : MemoryStorage F Raw) : Type 0 where
    pub at : Ptr
    pub user : User
    pub found : lookup user_id s.users ≡ some at
    pub there : deref at s.user_heap ≡ some user
    pub accepted : user.kyc_state ≡ kyc_state_accepted

  pub accepted_user-cases :
      (user_id : String) (h : Handler F Raw)
      → ((e : ApiError) × ((accepted_user user_id h).0 ≡ err e))
        ⊎ (IsAccepted user_id h.store × (accepted_user user_id h ≡ (ok tt, h)))
  unfolding accepted_user get_user
  accepted_user-cases user_id h = elim (Bool-cases (user_id == "")) [
    | inl empty ↦
        inl
          (bad_request "missing x-gatehub-managed-user-uuid header", rw (accepted_user, empty) refl)
    | inr given ↦ elim (Option-cases (lookup user_id h.store.users)) [
      | inl gone ↦
          inl
            (not_found "user not found in GateHub", rw (accepted_user, get_user, given, gone) refl)
      | inr (p, found) ↦ elim (Option-cases (deref p h.store.user_heap)) [
        | inl gone ↦
            inl
              (internal_err nil_dereference, rw (accepted_user, get_user, given, found, gone) refl)
        | inr (u, there) ↦ elim (Bool-cases (u.kyc_state == kyc_state_accepted)) [
          | inr other ↦ inl (
            forbidden (
                "user KYC state is '" ++ u.kyc_state
                ++ "' but must be 'accepted' before ordering cards"),
            rw (accepted_user, get_user, given, found, there, other) refl,
          )
          | inl accepted ↦ inr (
            record {
              at = p;
              user = u;
              found = found;
              there = there;
              accepted = ==→eq u.kyc_state kyc_state_accepted accepted;
            },
            rw (accepted_user, get_user, given, found, there, accepted) refl,
          )
        ]
      ]
    ]
  ]

  pub checked_order-cases :
      (req : CardOrder) (h : Handler F Raw)
      → ((e : ApiError) × ((checked_order (some req) h).0 ≡ err e))
        ⊎ (IsOrderable req × (checked_order (some req) h ≡ (ok req, h)))
  unfolding checked_order
  checked_order-cases req h =
      let currency = text_or req.currency "EUR" in
      elim (Bool-cases (req.name_on_card == "")) [
        | inl unnamed ↦ inl (bad_request "nameOnCard is required", rw (checked_order, unnamed) refl)
        | inr named ↦ elim (Bool-cases (ltb 26 (len req.name_on_card))) [
          | inl long ↦ inl (
            bad_request "nameOnCard must be 26 characters or less",
            rw (checked_order, named, long) refl,
          )
          | inr short ↦ elim (Bool-cases (base_currency currency == "EUR")) [
            | inr foreign ↦ inl (
              bad_request (
                  "invalid currency '" ++ currency
                  ++ "': only EUR-based currencies are supported for cards (e.g., 'EUR', 'PW_EUR', 'DEB_EUR')"),
              rw (checked_order, named, short, foreign) refl,
            )
            | inl euro ↦ inr (
              record {
                named = λ e. ground (arith, eq_iff req.name_on_card "");
                short = short;
                in_euro = ==→eq (base_currency currency) "EUR" euro;
              },
              rw (checked_order, named, short, euro) refl,
            )
          ]
        ]
      ]

-- ===== src/Handler/Users.antt =====
-- The managed users of internal/handler/auth.go. A user that a handler has fetched is the stored
-- object itself: what it writes through the pointer is in the store at once.
pub mod Email
use mockgatehub.Prelude.{
  String, Bool, true, false, Option, none, some, List, [], ◌∷◌, ◌==◌, ◌||◌, if◌then◌else◌,
}
use mockgatehub.Prelude.Result.{
  Result, ok, err, of_option, Exec, ◌>>=◌, ◌>>◌, raise_if, raise, lift, gets, modify, pure,
}
use Prim.Native.String.{◌++◌}
use mockgatehub.Prelude.GoMap.{insert}
use mockgatehub.Consts.{test_user1_id}
use mockgatehub.Prelude.Int.{pos}
use mockgatehub.Prelude.Heap.{Ptr, deref}
use mockgatehub.Models.{User, Time}
use mockgatehub.Storage.Users.{
  create_user, get_user_by_email, update_user, read_user, write_user, new_user,
}
use mockgatehub.Handler.State.{
  Handler, Action, ApiError, bad_request, not_found, internal_err, call_or,
}

-- the object that `CreateManagedUser` makes
abbrev pub managed_user : String → String → User
managed_user id email = record {
  id = id;
  email = email;
  activated = true;
  managed = true;
  role = "user";
  features = "wallet" ∷ [];
  kyc_state = "";
  risk_level = "";
  is_profile_creation_disabled = false;
  created_at = 0;
  first_name = "";
  middle_name = "";
  last_name = "";
  gender = "";
  birth_year = pos 0;
  birth_month = pos 0;
  birth_day = pos 0;
  birth_city = "";
  birth_country_code = "";
  citizenship = "";
  address_street1 = "";
  address_street2 = "";
  address_city = "";
  address_postal_code = "";
  address_subdivision = "";
  address_country_code = "";
  tax_residency = "";
  expected_volume = "";
}

module _ {F Raw : Type 0} where
  -- The user that is answered, whether it is there already or made now.
  unfoldable pub create_managed_user : String → String → Time → String → Action F Raw User
  create_managed_user uuid fresh now email = do
    raise_if (email == "") (bad_request "Email is required")
    existing ← gets (λ h. (get_user_by_email email h.store).0)
    elim existing [
      | ok p ↦ call_or internal_err (read_user p)
      | err _ ↦ do
        user ← call_or internal_err (new_user (managed_user uuid email))
        call_or (λ _. internal_err "Failed to create user") (create_user fresh now user)
        call_or internal_err (read_user user)
    ]

  unfoldable pub get_managed_user : String → Action F Raw User
  get_managed_user email = do
    raise_if (email == "") (bad_request "Email parameter is required")
    user ← call_or (λ _. not_found "User not found") (get_user_by_email email)
    call_or internal_err (read_user user)

  unfoldable pub update_managed_user_email : String → String → Action F Raw User
  update_managed_user_email email new_email = do
    raise_if (email == "" || new_email == "") (bad_request "Both email and new_email are required")
    user ← call_or (λ _. not_found "User not found") (get_user_by_email email)
    fields ← call_or internal_err (read_user user)
    call_or internal_err (write_user user (record fields { email = new_email }))
    call_or (λ _. internal_err "Failed to update user") (update_user user)
    call_or internal_err (read_user user)

-- The user's ID of a request, from the header or its older name.
abbrev pub named_user : String → String → String
named_user header old_header = if header == "" then old_header else header

module _ {F Raw : Type 0} where
  -- `fresh` is a new UUID. A request that names no user is given a token that no user has.
  unfoldable pub create_token : String → String → String → Action F Raw String
  create_token fresh header old_header h =
      let user_id = named_user header old_header in
      let token = "iframe-token-" ++ fresh in
      if user_id == ""
      then (ok ("mock-access-token-" ++ test_user1_id), h)
      else (ok token, record h { tokens = insert token user_id h.tokens })

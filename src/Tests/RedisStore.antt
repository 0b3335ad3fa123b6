-- ===== src/Tests/RedisStore.antt =====
-- The Redis storage on a server that is two maps, with an encoding of users that can be read back.
use mockgatehub.Redis.CardTransactions.{add_card_transaction_index}
use Prim.Native.Char.{Char, code}
use Prim.Native.String.{◌++◌ as ◌+++◌}
use mathlib.Core.List.{reverse}
use mockgatehub.Prelude.{
  ℕ, String, ◌≡◌, ◌⊎◌, refl, ap, sym, Bool, true, false, Option, none, some, List, [], ◌∷◌, arith,
  eq_iff, ◌==◌, nat_beq, if◌then◌else◌, is_some,
}
use mockgatehub.Prelude.Int.{ℤ, pos, negsuc, ◌+ℤ◌, ◌-ℤ◌, div_round}
use mockgatehub.Prelude.Result.{Result, ok, err}
use mockgatehub.Prelude.GoMap.{GoMap, lookup, insert, lookup-insert}
use mockgatehub.Float64.Units.{units}
use mockgatehub.Models.{User}
use mockgatehub.Storage.Customers.{list_or_nil}
use mockgatehub.Redis.{RedisClient, RedisFloats, Json}
use mockgatehub.Redis.Laws.{Reads}
use mockgatehub.Redis.Users.{create_user, get_user, get_user_by_email}
use mockgatehub.Redis.Users.Stored.{created, create_user_stored}
use mockgatehub.Storage.Balances.Runs.{BalanceCall, credit, debit}
use mockgatehub.Redis.Money.Unchecked.{text_after, balance_in}
use mockgatehub.Redis.CardTransactions.{get_card_transaction_ids}
use mockgatehub.Redis.CardTransactions.Orders.{
  index_in_memory, index_in_redis, storages_list_reversed,
}
use mockgatehub.Storage.CardTransactions
use mockgatehub.Tests.Data.{alice, store}
use mockgatehub.Tests.Redis.{show_ℤ, read_ℤ, read-show, int_or_zero}

abbrev push_char : Char → List String → List String
push_char c [] = String.◌∷◌ c "" ∷ []
push_char c (part ∷ parts) = String.◌∷◌ c part ∷ parts

-- each character has a mark before it, and each text an end
unfoldable put_text : String → String → String
put_text String.[] rest = String.◌∷◌ "e" (String.◌∷◌ "e" rest)
put_text (String.◌∷◌ c s) rest = String.◌∷◌ "x" (String.◌∷◌ c (put_text s rest))

unfoldable texts_of : String → List String
texts_of String.[] = []
texts_of (String.◌∷◌ c String.[]) = []
texts_of (String.◌∷◌ c (String.◌∷◌ d s)) =
    let rest = texts_of s in if nat_beq (code c) b'x' then push_char d rest else "" ∷ rest

texts_of-put_text : (s rest : String) → texts_of (put_text s rest) ≡ s ∷ texts_of rest
unfolding put_text texts_of
texts_of-put_text String.[] rest = refl
texts_of-put_text (String.◌∷◌ c s) rest = ap (push_char c) (texts_of-put_text s rest)

unfoldable join_texts : List String → String
join_texts [] = ""
join_texts (s ∷ ss) = put_text s (join_texts ss)

texts_of-join_texts : (ss : List String) → texts_of (join_texts ss) ≡ ss
unfolding join_texts texts_of
texts_of-join_texts [] = refl
texts_of-join_texts (s ∷ ss) = rw (texts_of-put_text s (join_texts ss), texts_of-join_texts ss) refl

abbrev show_bool : Bool → String
show_bool true = "t"
show_bool false = "f"

abbrev read_bool : String → Bool
read_bool s = s == "t"

read_bool-show_bool : (b : Bool) → read_bool (show_bool b) ≡ b
read_bool-show_bool true = refl
read_bool-show_bool false = refl

abbrev nat_of : ℤ → ℕ
nat_of (pos n) = n
nat_of _ = 0

abbrev fields_of : User → List String
fields_of u =
    u.id
    ∷ u.email
    ∷ show_bool u.activated
    ∷ show_bool u.managed
    ∷ u.role
    ∷ u.kyc_state
    ∷ u.risk_level
    ∷ show_bool u.is_profile_creation_disabled
    ∷ show_ℤ (pos u.created_at)
    ∷ u.first_name
    ∷ u.middle_name
    ∷ u.last_name
    ∷ u.gender
    ∷ show_ℤ u.birth_year
    ∷ show_ℤ u.birth_month
    ∷ show_ℤ u.birth_day
    ∷ u.birth_city
    ∷ u.birth_country_code
    ∷ u.citizenship
    ∷ u.address_street1
    ∷ u.address_street2
    ∷ u.address_city
    ∷ u.address_postal_code
    ∷ u.address_subdivision
    ∷ u.address_country_code
    ∷ u.tax_residency
    ∷ u.expected_volume
    ∷ u.features

abbrev user_of : List String → Result String User
user_of
      (id ∷ email ∷ activated ∷ managed ∷ role ∷ kyc_state ∷ risk_level ∷ disabled ∷ created_at
        ∷ first_name ∷ middle_name ∷ last_name ∷ gender ∷ birth_year ∷ birth_month ∷ birth_day
        ∷ birth_city ∷ birth_country_code ∷ citizenship ∷ street1 ∷ street2 ∷ city ∷ postal_code
        ∷ subdivision ∷ country_code ∷ tax_residency ∷ expected_volume ∷ features) =
    ok (record {
      id = id;
      email = email;
      activated = read_bool activated;
      managed = read_bool managed;
      role = role;
      features = features;
      kyc_state = kyc_state;
      risk_level = risk_level;
      is_profile_creation_disabled = read_bool disabled;
      created_at = nat_of (int_or_zero (read_ℤ created_at));
      first_name = first_name;
      middle_name = middle_name;
      last_name = last_name;
      gender = gender;
      birth_year = int_or_zero (read_ℤ birth_year);
      birth_month = int_or_zero (read_ℤ birth_month);
      birth_day = int_or_zero (read_ℤ birth_day);
      birth_city = birth_city;
      birth_country_code = birth_country_code;
      citizenship = citizenship;
      address_street1 = street1;
      address_street2 = street2;
      address_city = city;
      address_postal_code = postal_code;
      address_subdivision = subdivision;
      address_country_code = country_code;
      tax_residency = tax_residency;
      expected_volume = expected_volume;
    })
user_of _ = err "unexpected end of JSON input"

user_of-fields_of : (u : User) → user_of (fields_of u) ≡ ok u
user_of-fields_of u =
    rw
      (
        read_bool-show_bool u.activated,
        read_bool-show_bool u.managed,
        read_bool-show_bool u.is_profile_creation_disabled,
        read-show (pos u.created_at),
        read-show u.birth_year,
        read-show u.birth_month,
        read-show u.birth_day,
      )
      refl

ok_inj : {E A : Type 0} {a b : A} → ◌≡◌ {A = Result E A} (ok a) (ok b) → a ≡ b
ok_inj e = cc

json_law :
    (u : User) (text : String)
    → ◌≡◌ {A = Result String String} (ok (join_texts (fields_of u))) (ok text)
    → user_of (texts_of text) ≡ ok u
json_law u text e = rw (← ok_inj e) (rw (texts_of-join_texts (fields_of u)) (user_of-fields_of u))

instance unfoldable users_json : Json User
users_json = record {
  marshal = λ u. ok (join_texts (fields_of u));
  unmarshal = λ text. user_of (texts_of text);
  unmarshal-marshal = json_law;
}

record Server : Type 0 where
  texts : GoMap String
  lists : GoMap (List String)

instance unfoldable server_client : RedisClient Server
server_client = record {
  get = λ k r. ok (lookup k r.texts);
  set = λ k v ttl r. (ok tt, record r { texts = insert k v r.texts });
  exists = λ k r. ok (is_some (lookup k r.texts));
  time_to_live = λ k r. ok 0;
  incr = λ k r. (ok 1, r);
  s_add = λ k member r. (ok tt, r);
  s_members = λ k r. ok [];
  l_push = λ k member r.
      (ok tt, record r { lists = insert k (member ∷ list_or_nil (lookup k r.lists)) r.lists });
  l_range = λ k r. ok (list_or_nil (lookup k r.lists));
  z_add = λ k score member r. (ok tt, r);
  z_range_from = λ k score r. ok [];
  z_rem = λ k member r. (ok tt, r);
  holds = λ k r. lookup k r.texts;
  listed = λ k r. list_or_nil (lookup k r.lists);
  get-holds = λ k r v e. ok_inj (sym e);
  exists-holds = λ k r b e. ok_inj (sym e);
  holds-set = λ k j v ttl r fine. lookup-insert k j v r.texts;
  holds-s_add = λ k j member r fine. refl;
  l_range-listed = λ k r members e. ok_inj (sym e);
  listed-l_push = λ k j member r fine.
      let kept = list_or_nil (lookup k r.lists) in
      rw (lookup-insert k j (member ∷ kept) r.lists) (ground arith);
}

abbrev number_of : Option String → ℤ
number_of none = pos 0
number_of (some text) = int_or_zero (units.parse text)

instance unfoldable server_floats : RedisFloats Server ℤ
unfolding server_client
server_floats = record {
  incr_by_float = λ k x r. (
    ok tt,
    record r { texts = insert k (units.format (number_of (lookup k r.texts) +ℤ x)) r.texts },
  );
  text_sum = λ t x. units.format (number_of t +ℤ x);
  holds-incr_by_float =
      λ k j x r fine. lookup-insert k j (units.format (number_of (lookup k r.texts) +ℤ x)) r.texts;
}

abbrev empty_server : Server
empty_server = record { texts = []; lists = [] }

-- a server on which alice is stored, and a user who takes over her email
abbrev with_alice : Server
with_alice = (create_user "new-id" 5 alice empty_server).1

abbrev impostor : User
impostor = record alice { id = "bob-id"; created_at = 6 }

create_user_stored_example :
    let r' = (create_user "new-id" 7 impostor with_alice).1 in
    (impostor ≡ created "new-id" 7 impostor)
    × Reads "failed to get user: " (get_user "bob-id" r').0 impostor
    × (Reads "failed to get user: " (get_user_by_email "alice@example.com" r').0 impostor
        ⊎ ((e : String) × ((get_user_by_email "alice@example.com" r').0
              ≡ err ("failed to get user by email: " +++ e))))
unfolding create_user server_client lookup users_json insert
create_user_stored_example = create_user_stored "new-id" 7 impostor impostor with_alice refl

-- a debit from an empty balance, and a credit in another currency
abbrev overdrawing : List (BalanceCall ℤ)
overdrawing = debit "alice-id" "USD" (pos 50_000) ∷ credit "alice-id" "EUR" (pos 30_000) ∷ []

overdrawn :
    balance_in {F = ℤ} (
      text_after server_floats.text_sum "balance:alice-id:USD" overdrawing
        (server_client.holds "balance:alice-id:USD" empty_server))
    ≡ ok (negsuc 49_999)
unfolding text_after lookup server_floats server_client units div_round ◌+ℤ◌ ◌-ℤ◌
overdrawn = refl

storages_list_reversed_example :
    let s' = (index_in_memory "card-1" ("tx-1" ∷ "tx-2" ∷ []) store).1 in
    let r' = (index_in_redis "card-1" ("tx-1" ∷ "tx-2" ∷ []) empty_server).1 in
    (ids : List String) × ((CardTransactions.get_card_transaction_ids "card-1" s').0 ≡ ok ids)
    × Reads "failed to get card transaction IDs: "
        (get_card_transaction_ids "card-1" r').0
        (reverse ids)
unfolding lookup server_client index_in_redis add_card_transaction_index
storages_list_reversed_example =
    storages_list_reversed "card-1" ("tx-1" ∷ "tx-2" ∷ []) store empty_server
      (λ e. ground (arith, eq_iff "card-1" ""))
      ((λ e. ground (arith, eq_iff "tx-1" "")), ((λ e. ground (arith, eq_iff "tx-2" "")), tt)) refl
      refl

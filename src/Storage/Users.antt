-- ===== src/Storage/Users.antt =====
-- `CreateUser`, `GetUser`, `GetUserByEmail`, `UpdateUser`, `ListUsers` of memory.go. The argument of
-- the writing methods is the caller's pointer: `UpdateUser` compares the stored object with the one
-- that it is given, which may be the same object.
pub mod Laws
use Prim.Native.String.{◌++◌, compare}
use Prim.Native.Nat.{Ordering}
use mockgatehub.Prelude.{
  String, Bool, true, false, none, some, List, [], ◌∷◌, not, ltb, nat_beq, ◌==◌, if◌then◌else◌,
}
use mockgatehub.Prelude.Result.{ok, of_option, ◌>>=◌, ◌>>◌, raise_if, gets, modify}
use mockgatehub.Prelude.GoMap.{lookup, insert, erase, contains, values}
use mockgatehub.Prelude.Heap.{Ptr, next, alloc, deref, assign}
use mockgatehub.Models.{User, Time}
use mockgatehub.Storage.Memory.{MemoryStorage, Method, nil_dereference}

module _ {F Raw : Type 0} where
  -- the fields of `*p`
  abbrev pub read_user : Ptr → Method F Raw User
  read_user p s = (of_option (deref p s.user_heap) nil_dereference, s)

  -- `*p = u`, all fields at once
  abbrev pub write_user : Ptr → User → Method F Raw (Unit {0})
  write_user p u = modify (λ s. record s { user_heap = assign p u s.user_heap })

  -- `&models.User{...}`
  abbrev pub new_user : User → Method F Raw Ptr
  new_user u s = (ok (next s.user_heap), record s { user_heap = alloc u s.user_heap })

  unfoldable pub create_user : String → Time → Ptr → Method F Raw (Unit {0})
  create_user fresh now p = do
    user ← read_user p
    raise_if (user.email == "") "email is required"
    taken ← gets (λ s. contains user.email s.users_by_email)
    raise_if taken ("user with email " ++ user.email ++ " already exists")
    let id = if user.id == "" then fresh else user.id
    let created = if nat_beq user.created_at 0 then now else user.created_at
    write_user p (record user { id = id; created_at = created })
    modify (λ s. record s {
      users = insert id p s.users;
      users_by_email = insert user.email p s.users_by_email;
    })

  unfoldable pub get_user : String → Method F Raw Ptr
  get_user id s = (of_option (lookup id s.users) "user not found", s)

  unfoldable pub get_user_by_email : String → Method F Raw Ptr
  get_user_by_email email s = (of_option (lookup email s.users_by_email) "user not found", s)

  abbrev reindex : String → String → Ptr → MemoryStorage F Raw → MemoryStorage F Raw
  reindex old email p s =
      if not (old == email)
      then record s { users_by_email = insert email p (erase old s.users_by_email) }
      else s

  unfoldable pub update_user : Ptr → Method F Raw (Unit {0})
  update_user p = do
    user ← read_user p
    q ← (λ s. (of_option (lookup user.id s.users) "user not found", s))
    existing ← read_user q
    modify (reindex existing.email user.email p)
    modify (λ s. record s { users = insert user.id p s.users })

-- `sort.SliceStable` by creation time, then by ID: insertion keeps the order of equal elements.
abbrev id_lt : String → String → Bool
id_lt a b = elim (compare a b) [ Ordering.lt ↦ true | _ ↦ false ]

abbrev pub listed_before : User → User → Bool
listed_before a b =
    if nat_beq a.created_at b.created_at then id_lt a.id b.id else ltb a.created_at b.created_at

unfoldable pub insert_user : User → List User → List User
insert_user u [] = u ∷ []
insert_user u (v ∷ vs) = if listed_before v u then v ∷ insert_user u vs else u ∷ v ∷ vs

unfoldable pub sort_users : List User → List User
sort_users [] = []
sort_users (u ∷ us) = insert_user u (sort_users us)

-- The objects behind the pointers; one that is not there is left out.
unfoldable pub deref_all : List User → List Ptr → List User
deref_all h [] = []
deref_all h (p ∷ ps) = elim (deref p h) [ none ↦ deref_all h ps | some u ↦ u ∷ deref_all h ps ]

module _ {F Raw : Type 0} where
  unfoldable pub list_users : Method F Raw (List User)
  unfolding sort_users insert_user deref_all values
  list_users s = (ok (sort_users (deref_all s.user_heap (values s.users))), s)

-- ===== src/Storage/Users/Laws.antt =====
-- What the user methods of memory.go do to the store.
use mockgatehub.Prelude.{
  String, ◌≡◌, ◌≢◌, refl, none, some, nat_beq, ◌==◌, arith, eq_iff, eq_refl, get_elem?_lt,
  get_elem?-set_self, if◌then◌else◌,
}
use mockgatehub.Prelude.Result.{ok, err}
use mockgatehub.Prelude.GoMap.{
  lookup, erase, lookup-insert, lookup-insert_self, lookup-erase, insert-lookup,
}
use mockgatehub.Prelude.Heap.{Ptr, deref}
use mockgatehub.Models.{User, Time}
use mockgatehub.Storage.Memory.{MemoryStorage}
use mockgatehub.Storage.Users.{create_user, get_user, get_user_by_email, update_user}

module _ {F Raw : Type 0} (s : MemoryStorage F Raw) where
  -- A refused `CreateUser` has changed nothing.
  pub create_user_refused :
      (fresh : String) (now : Time) (p : Ptr) (e : String)
      → (create_user fresh now p s).0 ≡ err e
      → (create_user fresh now p s).1 ≡ s
  unfolding create_user
  create_user_refused fresh now p e h = ground arith

  pub update_user_refused :
      (p : Ptr) (e : String) → (update_user p s).0 ≡ err e → (update_user p s).1 ≡ s
  unfolding update_user
  update_user_refused p e h = ground arith

  -- `CreateUser` takes an object with an email that no user has.
  pub create_user_stores :
      (fresh : String) (now : Time) (p : Ptr) (u : User)
      → deref p s.user_heap ≡ some u
      → u.email ≢ ""
      → lookup u.email s.users_by_email ≡ none
      → let (r, s') = create_user fresh now p s in
        let id = if u.id == "" then fresh else u.id in
        (r ≡ ok tt)
        × ((get_user id s').0 ≡ ok p)
        × ((get_user_by_email u.email s').0 ≡ ok p)
        × (deref p s'.user_heap
            ≡ some (record u {
              id = id;
              created_at = if nat_beq u.created_at 0 then now else u.created_at;
            }))
  unfolding create_user get_user get_user_by_email
  create_user_stores fresh now p u h e n =
      let id = if u.id == "" then fresh else u.id in
      let created = if nat_beq u.created_at 0 then now else u.created_at in
      ground (
        arith,
        eq_iff u.email "",
        lookup-insert_self id p s.users,
        lookup-insert_self u.email p s.users_by_email,
        get_elem?-set_self s.user_heap p (record u { id = id; created_at = created })
            (get_elem?_lt s.user_heap p h),
      )

  -- `UpdateUser` of the stored object itself leaves the email index as it was.
  pub update_user_aliased :
      (p : Ptr) (u : User)
      → deref p s.user_heap ≡ some u
      → lookup u.id s.users ≡ some p
      → let (r, s') = update_user p s in
        (r ≡ ok tt)
        × (s'.users_by_email ≡ s.users_by_email)
        × (s'.user_heap ≡ s.user_heap)
        × ((id : String) → lookup id s'.users ≡ lookup id s.users)
  unfolding update_user
  update_user_aliased p u h k = (
    ground arith,
    ground (arith, eq_refl u.email),
    ground (arith, eq_refl u.email),
    λ id. ground (arith, eq_refl u.email, lookup-insert u.id id p s.users, eq_iff u.id id),
  )

  -- `UpdateUser` of the stored object itself changes nothing.
  pub update_user_stored :
      (p : Ptr) (u : User)
      → deref p s.user_heap ≡ some u
      → lookup u.id s.users ≡ some p
      → update_user p s ≡ (ok tt, s)
  unfolding update_user
  update_user_stored p u h k =
      rw (update_user, h, k, h, eq_refl u.email, insert-lookup u.id p s.users k) refl

  -- `UpdateUser` of another object under the same ID replaces it, and moves the email index.
  pub update_user_moves_email :
      (p q : Ptr) (u old : User)
      → deref p s.user_heap ≡ some u
      → lookup u.id s.users ≡ some q
      → deref q s.user_heap ≡ some old
      → old.email ≢ u.email
      → let (r, s') = update_user p s in
        (r ≡ ok tt)
        × ((get_user u.id s').0 ≡ ok p)
        × ((get_user_by_email u.email s').0 ≡ ok p)
        × ((get_user_by_email old.email s').0 ≡ err "user not found")
  unfolding update_user get_user get_user_by_email
  update_user_moves_email p q u old h k g ne = ground (
    arith,
    eq_iff old.email u.email,
    eq_iff u.email old.email,
    eq_refl old.email,
    lookup-insert_self u.id p s.users,
    lookup-insert_self u.email p (erase old.email s.users_by_email),
    lookup-insert u.email old.email p (erase old.email s.users_by_email),
    lookup-erase old.email old.email s.users_by_email,
  )

-- ===== src/Handler/Users/Email.antt =====
-- What the user handlers promise about emails.
use mockgatehub.Prelude.{
  String, ◌≡◌, ◌≢◌, refl, ◌∙◌, none, some, arith, ne→==, get_elem?-append_last, get_elem?_lt,
  get_elem?-set_self,
}
use mockgatehub.Prelude.Result.{ok, err}
use mockgatehub.Prelude.GoMap.{lookup}
use mockgatehub.Prelude.Heap.{Ptr, deref, alloc, next, assign}
use mockgatehub.Models.{User, Time}
use mockgatehub.Storage.{MemoryStorage}
use mockgatehub.Storage.Users.{get_user_by_email}
use mockgatehub.Storage.Users.Laws.{update_user_aliased, create_user_stores}
use mockgatehub.Handler.State.{Handler, not_found}
use mockgatehub.Handler.Users.{
  create_managed_user, get_managed_user, update_managed_user_email, managed_user,
}

module _ {F Raw : Type 0} where
  -- An email change of a stored user, to an email that no user is indexed under, is answered as a
  -- success, with the new email. Looking the user up under the new email then fails, and looking it up
  -- under the old email still succeeds, with the new email in the answer.
  pub email_change_is_not_indexed :
      (email new_email : String) (h : Handler F Raw) (p : Ptr) (u : User)
      → email ≢ ""
      → new_email ≢ ""
      → lookup email h.store.users_by_email ≡ some p
      → deref p h.store.user_heap ≡ some u
      → lookup u.id h.store.users ≡ some p
      → lookup new_email h.store.users_by_email ≡ none
      → let (r, h') = update_managed_user_email email new_email h in
        (r ≡ ok (record u { email = new_email }))
        × ((get_managed_user new_email h').0 ≡ err (not_found "User not found"))
        × ((get_managed_user email h').0 ≡ ok (record u { email = new_email }))
  unfolding update_managed_user_email get_managed_user get_user_by_email
  email_change_is_not_indexed email new_email h p u ne ne' found there own free =
      let u' : User = record u { email = new_email } in
      let s : MemoryStorage F Raw = record h.store { user_heap = assign p u' h.store.user_heap } in
      let written : deref p s.user_heap ≡ some u' =
        get_elem?-set_self h.store.user_heap p u' (get_elem?_lt h.store.user_heap p there) in
      let (fine, index, heap, users) = update_user_aliased s p u' written own in
      (
        ground
            (arith, ne→== email "" ne, ne→== new_email "" ne', found, there, fine, heap, written),
        ground (
          arith,
          ne→== email "" ne,
          ne→== new_email "" ne',
          found,
          there,
          fine,
          heap,
          index,
          free,
        ),
        ground (
          arith,
          ne→== email "" ne,
          ne→== new_email "" ne',
          found,
          there,
          fine,
          heap,
          index,
          written,
        ),
      )

  create_managed_user_present :
      (uuid fresh : String) (now : Time) (email : String) (h : Handler F Raw) (p : Ptr) (u : User)
      → email ≢ ""
      → lookup email h.store.users_by_email ≡ some p
      → deref p h.store.user_heap ≡ some u
      → create_managed_user uuid fresh now email h ≡ (ok u, h)
  unfolding create_managed_user get_user_by_email
  create_managed_user_present uuid fresh now email h p u ne found there =
      rw (ne→== email "" ne, found, there) refl

  -- Creating a managed user under an email that no user has answers the user with that email, the
  -- generated ID and the time of creation. Looking the email up then answers the same user, and
  -- creating it again answers the same user and changes nothing.
  pub create_managed_user_again :
      (uuid fresh uuid' fresh' : String) (now now' : Time) (email : String) (h : Handler F Raw)
      → email ≢ ""
      → uuid ≢ ""
      → lookup email h.store.users_by_email ≡ none
      → let (r, h') = create_managed_user uuid fresh now email h in
        (r ≡ ok (record (managed_user uuid email) { created_at = now }))
        × ((get_managed_user email h').0 ≡ r)
        × (create_managed_user uuid' fresh' now' email h' ≡ (r, h'))
  unfolding create_managed_user get_managed_user get_user_by_email
  create_managed_user_again uuid fresh uuid' fresh' now now' email h ne ne' free =
      let u = managed_user uuid email in
      let p = next h.store.user_heap in
      let s : MemoryStorage F Raw = record h.store { user_heap = alloc u h.store.user_heap } in
      let there : deref p s.user_heap ≡ some u = get_elem?-append_last h.store.user_heap u in
      let (fine, by_id, by_email, kept) = create_user_stores s fresh now p u there ne free in
      (
        ground (arith, ne→== email "" ne, ne→== uuid "" ne', free, fine, kept),
        ground (arith, ne→== email "" ne, ne→== uuid "" ne', free, fine, kept, by_email),
        create_managed_user_present uuid' fresh' now' email _ p (record u { created_at = now }) ne
              (ground (arith, ne→== email "" ne, ne→== uuid "" ne', free, fine, by_email))
              (ground (arith, ne→== email "" ne, ne→== uuid "" ne', free, fine, kept))
            ∙ ground (arith, ne→== email "" ne, ne→== uuid "" ne', free, fine, kept),
      )

-- ===== src/Handler/Kyc/Writes.antt =====
-- What the KYC handlers write: the one user behind a pointer.
use mockgatehub.Prelude.{
  String, ◌≡◌, refl, ap, some, arith, get_elem?_lt, get_elem?-set_self, set-set,
}
use mockgatehub.Prelude.Result.{ok, on_result, ◌>>◌}
use mockgatehub.Prelude.GoMap.{lookup}
use mockgatehub.Prelude.Heap.{Ptr, deref, assign}
use mockgatehub.Models.{User}
use mockgatehub.Storage.{MemoryStorage}
use mockgatehub.Storage.Users.{get_user}
use mockgatehub.Storage.Users.Laws.{update_user_stored}
use mockgatehub.Handler.State.{Handler, Action, Payload, send_async}
use mockgatehub.Handler.Kyc.{fetch, save}

module _ {F Raw : Type 0} where
  abbrev pub put_user : Ptr → User → MemoryStorage F Raw → MemoryStorage F Raw
  put_user p u s = record s { user_heap = assign p u s.user_heap }

  abbrev pub with_user : Ptr → User → Handler F Raw → Handler F Raw
  with_user p u h = record h { store = put_user p u h.store }

  -- the user stored under an ID, with its pointer
  pub record IsStored (id : String) (p : Ptr) (u : User) (h : Handler F Raw) : Type 0 where
    pub found : lookup id h.store.users ≡ some p
    pub there : deref p h.store.user_heap ≡ some u
    pub own : u.id ≡ id

  pub fetch_lem :
      (missing id : String) (p : Ptr) (u : User) (h : Handler F Raw)
      → IsStored id p u h
      → fetch missing id h ≡ (ok (p, u), h)
  unfolding get_user
  fetch_lem missing id p u h stored = rw (get_user, stored.found, stored.there) refl

  pub save_lem :
      (failed id : String) (p : Ptr) (u u' : User) (h : Handler F Raw)
      → IsStored id p u h
      → u'.id ≡ id
      → save failed p u' h ≡ (ok tt, with_user p u' h)
  save_lem failed id p u u' h stored own =
      let inside = get_elem?_lt h.store.user_heap p stored.there in
      let written : deref p (assign p u' h.store.user_heap) ≡ some u' =
        get_elem?-set_self h.store.user_heap p u' inside in
      rw (update_user_stored (put_user p u' h.store) p u' written (rw own stored.found)) refl

  -- what follows a save goes on from what it wrote
  pub save_then :
      {A : Type 0} (failed id : String) (p : Ptr) (u u' : User) (h : Handler F Raw)
      (k : Action F Raw A)
      → IsStored id p u h
      → u'.id ≡ id
      → (save failed p u' >> k) h ≡ k (with_user p u' h)
  save_then failed id p u u' h k stored own =
      ap (λ r. on_result (r.0) (λ _. k) (r.1)) (save_lem failed id p u u' h stored own)

  pub keeps_store-send_async :
      (event user : String) (payload : Payload) (h : Handler F Raw)
      → (send_async event user payload h).store ≡ h.store
  unfolding send_async
  keeps_store-send_async event user payload h = ground arith

  pub with_user-IsStored :
      (id : String) (p : Ptr) (u u' : User) (h : Handler F Raw)
      → IsStored id p u h
      → u'.id ≡ id
      → IsStored id p u' (with_user p u' h)
  with_user-IsStored id p u u' h stored own = record {
    found = stored.found;
    there =
        get_elem?-set_self h.store.user_heap p u' (get_elem?_lt h.store.user_heap p stored.there);
    own = own;
  }

  pub with_user-with_user :
      (p : Ptr) (u u' : User) (h : Handler F Raw)
      → with_user p u' (with_user p u h) ≡ with_user p u' h
  with_user-with_user p u u' h =
      ap (λ heap. record h { store = record (h.store) { user_heap = heap } })
        (set-set h.store.user_heap p u u')

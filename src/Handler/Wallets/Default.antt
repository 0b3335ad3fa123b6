-- ===== src/Handler/Wallets/Default.antt =====
-- The wallet that a user is given.
use mockgatehub.Prelude.{
  String, Bool, ◌≡◌, refl, ap, ◌∙◌, sym, true, false, some, inl, inr, List, [], ◌∷◌, arith, ◌==◌,
  eq_refl, Bool-cases, Option-cases,
}
use mockgatehub.Prelude.GoMap.{GoMap, lookup, insert, contains, values}
use mockgatehub.Prelude.Result.{ok, err}
use mockgatehub.Models.{Wallet, Time}
use mockgatehub.Storage.{MemoryStorage}
use mockgatehub.Storage.Cards.{select}
use mockgatehub.Storage.Users.{get_user}
use mockgatehub.Storage.Wallets.{create_wallet, get_wallets_by_user}
use mockgatehub.Handler.State.{Handler, ApiError, bad_request, not_found, internal_err}
use mockgatehub.Handler.Payments.{default_wallet}
use mockgatehub.Handler.Wallets.{
  get_user_wallets, or_default_wallet, user_wallets, UserWalletResponse,
}

-- A new entry is the only one of its kind where there was none.
select_inserted :
    {V : Type 0} (test : V → Bool) (k : String) (v : V) (m : GoMap V)
    → test v ≡ true
    → select test (values m) ≡ []
    → contains k m ≡ false
    → select test (values (insert k v m)) ≡ v ∷ []
unfolding select values insert lookup
select_inserted test k v [] passes empty free = rw passes refl
select_inserted test k v ((j, w) ∷ m) passes empty free = elim (Bool-cases (j == k)) [
  | inl hit ↦ absurd (ground arith)
  | inr miss ↦ elim (Bool-cases (test w)) [
    | inl other ↦ absurd (ground arith)
    | inr out ↦
        rw (miss, out) (select_inserted test k v m passes (rw out at empty) (rw miss at free))
  ]
]

module _ {F Raw : Type 0} where
  abbrev pub wallets_of : String → MemoryStorage F Raw → List Wallet
  wallets_of user_id s = select (λ (wallet : Wallet). wallet.user_id == user_id) (values s.wallets)

  -- A user with wallets is answered with them.
  listed :
      (fresh : String) (now : Time) (user_id : String) (h : Handler F Raw) (p : _) (w : Wallet)
      (wallets : List Wallet)
      → (user_id == "") ≡ false
      → lookup user_id h.store.users ≡ some p
      → wallets_of user_id h.store ≡ w ∷ wallets
      → get_user_wallets fresh now user_id h ≡ (ok (user_wallets (w ∷ wallets)), h)
  unfolding get_user_wallets get_user get_wallets_by_user or_default_wallet
  listed fresh now user_id h p w wallets given known own =
      rw (get_user_wallets, get_user, get_wallets_by_user, given, known, own) refl

  -- A user without wallets who asks for them, and is answered, is given one. The same request in the
  -- state that this leaves, at any time, is answered with that wallet alone, as the first request was,
  -- and changes nothing.
  pub default_wallet_once :
      (fresh fresh' : String) (now now' : Time) (user_id : String) (h : Handler F Raw)
      (answer : List UserWalletResponse)
      → wallets_of user_id h.store ≡ []
      → (get_user_wallets fresh now user_id h).0 ≡ ok answer
      → let h' = (get_user_wallets fresh now user_id h).1 in
        (wallets_of user_id h'.store
          ≡ record (default_wallet fresh user_id) { created_at = now } ∷ [])
        × (get_user_wallets fresh' now' user_id h' ≡ (ok answer, h'))
  unfolding get_user_wallets get_user get_wallets_by_user or_default_wallet create_wallet
  default_wallet_once fresh fresh' now now' user_id h answer own fine =
      elim (Bool-cases (user_id == "")) [
        | inl empty ↦
            absurd (refused (bad_request "User ID is required") (rw (get_user_wallets, empty) refl))
        | inr given ↦ elim (Option-cases (lookup user_id h.store.users)) [
          | inl gone ↦ absurd (
              refused (not_found "User not found")
                (rw (get_user_wallets, get_user, given, gone) refl))
          | inr (p, known) ↦ go given p known
        ]
      ]
    where
      refused : (e : ApiError) → (get_user_wallets fresh now user_id h).0 ≡ err e → ⊥
      refused e bad = ground arith

      go :
          (given : (user_id == "") ≡ false) (p : _) (known : lookup user_id h.store.users ≡ some p)
          → let h' = (get_user_wallets fresh now user_id h).1 in
            (wallets_of user_id h'.store
              ≡ record (default_wallet fresh user_id) { created_at = now } ∷ [])
            × (get_user_wallets fresh' now' user_id h' ≡ (ok answer, h'))
      go given p known = elim (Bool-cases (fresh == "")) [
        | inl nameless ↦ absurd (
            refused (internal_err "Failed to create wallet") (
              rw
                (
                  get_user_wallets, get_user, get_wallets_by_user, create_wallet, given, known, own,
                  nameless,
                )
                refl))
        | inr named ↦ elim (Bool-cases (contains fresh h.store.wallets)) [
          | inl taken ↦ absurd (
              refused (internal_err "Failed to create wallet") (
                rw
                  (
                    get_user_wallets, get_user, get_wallets_by_user, create_wallet, given, known,
                    own, named, taken,
                  )
                  refl))
          | inr free ↦
              let kept : Wallet = record (default_wallet fresh user_id) { created_at = now } in
              let h1 : Handler F Raw = record h {
                store = record (h.store) { wallets = insert fresh kept h.store.wallets };
              } in
              let ran : get_user_wallets fresh now user_id h ≡ (ok (user_wallets (kept ∷ [])), h1) =
                rw
                  (
                    get_user_wallets, get_user, get_wallets_by_user, create_wallet, given, known,
                    own, named, free,
                  )
                  refl in
              let only : wallets_of user_id h1.store ≡ kept ∷ [] =
                select_inserted (λ (wallet : Wallet). wallet.user_id == user_id) fresh kept
                  h.store.wallets (eq_refl user_id) own free in
              rw ran (
                only,
                listed fresh' now' user_id h1 p kept [] given known only
                    ∙ ap (λ r. (r, h1)) (sym (ap (λ x. x.0) ran) ∙ fine),
              )
        ]
      ]

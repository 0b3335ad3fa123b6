-- ===== src/Handler/Kyc/Traces.antt =====
-- What holds over any requests of the KYC API.
use native.Mathlib.Decide.{ℕ_discrete}
use mockgatehub.Prelude.{
  ℕ, String, ◌≡◌, ◌⊎◌, inl, inr, refl, ap, subst, true, some, List, [], ◌∷◌, All, All-set,
  All-get_elem?, get_elem?_lt, get_elem?-set_self, get_elem?-set_ne, ◌∙◌,
}
use mockgatehub.Prelude.GoMap.{lookup}
use mockgatehub.Prelude.Heap.{Ptr, deref}
use mockgatehub.Models.{User}
use mockgatehub.Storage.{MemoryStorage}
use mockgatehub.Handler.State.{Handler}
use mockgatehub.Handler.TwoFactor.{CallbackClient}
use mockgatehub.Handler.Kyc.{is_known_kyc_state}
use mockgatehub.Handler.Kyc.Writes.{put_user}
use mockgatehub.Handler.Kyc.Requests.{
  KycRequest, Asks, IsLinked, Writes, kept, wrote, apply_kyc_request, request-Writes,
}

-- a state that the API knows, or none yet
abbrev pub HasKycState : User → Type 0
HasKycState u = (u.kyc_state ≡ "") ⊎ (is_known_kyc_state u.kyc_state ≡ true)

-- an update asks for such a state; the other requests are free
abbrev pub AsksForKnown : KycRequest → Type 0
AsksForKnown r = (state : String) → Asks r state → (state ≡ "") ⊎ (is_known_kyc_state state ≡ true)

module _ {F Raw : Type 0} where
  -- what stays when a user is written
  pub record IsSameButUsers (s s' : MemoryStorage F Raw) : Type 0 where
    pub rest : s' ≡ record s { user_heap = s'.user_heap }
    pub users :
        (p : Ptr) (u : User)
        → deref p s.user_heap ≡ some u
        → (u' : User) × (deref p s'.user_heap ≡ some u') × (u'.id ≡ u.id) × (u'.email ≡ u.email)

  IsSameButUsers-refl : (s : MemoryStorage F Raw) → IsSameButUsers s s
  IsSameButUsers-refl s = record { rest = refl; users = λ p u e. (u, e, refl, refl) }

  IsSameButUsers-trans :
      (s t v : MemoryStorage F Raw) → IsSameButUsers s t → IsSameButUsers t v → IsSameButUsers s v
  IsSameButUsers-trans s t v a b = record {
    rest = b.rest ∙ ap (λ (x : MemoryStorage F Raw). record x { user_heap = v.user_heap }) a.rest;
    users = λ p u e.
        let (u', e', same_id, same_email) = a.users p u e in
        let (u'', e'', same_id', same_email') = b.users p u' e' in
        (u'', e'', same_id' ∙ same_id, same_email' ∙ same_email);
  }

  put_user-IsSameButUsers :
      (p : Ptr) (u u' : User) (s : MemoryStorage F Raw)
      → deref p s.user_heap ≡ some u
      → u'.id ≡ u.id
      → u'.email ≡ u.email
      → IsSameButUsers s (put_user p u' s)
  put_user-IsSameButUsers p u u' s there same_id same_email = record {
    rest = refl;
    users = λ q v e. elim (ℕ_discrete p q) [
      | yes hit ↦
          let same : u ≡ v = cc (ap (λ x. deref x s.user_heap) hit) in
          (
            u',
            rw (← hit) (get_elem?-set_self s.user_heap p u' (get_elem?_lt s.user_heap p there)),
            same_id ∙ ap (λ x. x.id) same,
            same_email ∙ ap (λ x. x.email) same,
          )
      | no miss ↦ (v, get_elem?-set_ne s.user_heap p q u' miss ∙ e, refl, refl)
    ];
  }

  Writes-IsSameButUsers :
      (r : KycRequest) (s s' : MemoryStorage F Raw) → Writes r s s' → IsSameButUsers s s'
  Writes-IsSameButUsers r s s' (kept e) = rw e (IsSameButUsers-refl s)
  Writes-IsSameButUsers r s s' (wrote p u u' there same_id same_email _ e) =
      rw e (put_user-IsSameButUsers p u u' s there same_id same_email)

  IsSameButUsers-IsLinked :
      (s s' : MemoryStorage F Raw) → IsSameButUsers s s' → IsLinked s → IsLinked s'
  IsSameButUsers-IsLinked s s' same linked = record {
    at = λ id p found.
        let before = subst (λ m. lookup id m ≡ some p) (ap (λ x. x.users) same.rest) found in
        let (u, there, own) = linked.at id p before in
        let (u', there', same_id, same_email) = same.users p u there in (u', there', same_id ∙ own);
  }

  Writes-HasKycState :
      (r : KycRequest) (s s' : MemoryStorage F Raw)
      → Writes r s s'
      → AsksForKnown r
      → All HasKycState s.user_heap
      → All HasKycState s'.user_heap
  Writes-HasKycState r s s' (kept e) known all = rw e all
  Writes-HasKycState r s s' (wrote p u u' there _ _ state e) known all = rw e (
      All-set HasKycState s.user_heap p u' all (elim state [
        | inl same ↦ rw same (All-get_elem? HasKycState s.user_heap p u all there)
        | inr (inl is) ↦ inr is
        | inr (inr asked) ↦ known u'.kyc_state asked
      ]))

  module _ (client : CallbackClient) (show : ℕ → String) (quote : String → String) where
    unfoldable pub apply_kyc_requests : List KycRequest → Handler F Raw → Handler F Raw
    apply_kyc_requests [] h = h
    apply_kyc_requests (r ∷ rs) h = apply_kyc_requests rs (apply_kyc_request client show quote r h)

    -- From a store in which every user ID leads to an object with that ID, any requests of the KYC
    -- API, whatever they are answered, change nothing in the store but fields of users: balances,
    -- wallets, transactions, cards, the index of emails and all the rest stay as they were, every
    -- user keeps its ID and its email, and every user ID still leads to an object with that ID.
    pub kyc_requests_keep_store :
        (rs : List KycRequest) (h : Handler F Raw)
        → IsLinked h.store
        → let s' = (apply_kyc_requests rs h).store in IsSameButUsers h.store s' × IsLinked s'
    unfolding apply_kyc_requests
    kyc_requests_keep_store [] h linked = (IsSameButUsers-refl h.store, linked)
    kyc_requests_keep_store (r ∷ rs) h linked =
        let h' = apply_kyc_request client show quote r h in
        let step =
          Writes-IsSameButUsers r h.store h'.store (request-Writes client show quote r h linked) in
        let linked' = IsSameButUsers-IsLinked h.store h'.store step linked in
        let (same, linked'') = kyc_requests_keep_store rs h' linked' in
        (IsSameButUsers-trans h.store h'.store _ step same, linked'')

    -- From a store in which every user ID leads to an object with that ID and every user has one of
    -- the four KYC states or none, any requests of the KYC API keep every user in one of these, where
    -- the updates among them ask for these only: a form or a quiet change is checked by the code, an
    -- update is not.
    pub kyc_requests-HasKycState :
        (rs : List KycRequest) (h : Handler F Raw)
        → IsLinked h.store
        → All AsksForKnown rs
        → All HasKycState h.store.user_heap
        → All HasKycState (apply_kyc_requests rs h).store.user_heap
    unfolding apply_kyc_requests
    kyc_requests-HasKycState [] h linked known all = all
    kyc_requests-HasKycState (r ∷ rs) h linked known all =
        let h' = apply_kyc_request client show quote r h in
        let writes = request-Writes client show quote r h linked in
        let same = Writes-IsSameButUsers r h.store h'.store writes in
        kyc_requests-HasKycState rs h' (IsSameButUsers-IsLinked h.store h'.store same linked)
          known.1 (Writes-HasKycState r h.store h'.store writes known.0 all)

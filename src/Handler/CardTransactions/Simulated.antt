-- ===== src/Handler/CardTransactions/Simulated.antt =====
-- What a simulated transaction is, and what it leaves.
use mockgatehub.Prelude.{
  ℕ, String, ◌≡◌, ◌≢◌, ◌≤◌, ◌<◌, inl, inr, refl, ◌∙◌, sym, subst, some, arith, List, [], ◌∷◌, ne→==,
  Bool-cases, nat_beq,
}
use mockgatehub.Prelude.Int.{pos}
use mockgatehub.Prelude.GoMap.{GoMap, lookup, lookup-insert}
use mockgatehub.Prelude.Result.{ok, err, Result-cases}
use mockgatehub.Handler.CardTransactions.Simulation.{
  TransactionJson, Materialised, numeric_card_id, leading_bits, materialise_card_transaction,
  with_identity, override_fields,
}

leading_bits_lt : (bytes : List ℕ) → leading_bits bytes < 2_147_483_648
unfolding leading_bits
leading_bits_lt [] = ground arith
leading_bits_lt (a ∷ []) = ground arith
leading_bits_lt (a ∷ b ∷ []) = ground arith
leading_bits_lt (a ∷ b ∷ c ∷ []) = ground arith
leading_bits_lt (a ∷ b ∷ c ∷ d ∷ rest) = ground arith

-- The number of a card fits 31 bits, and is not zero unless the card has no ID.
pub numeric_card_id_range :
    (sha256 : String → List ℕ) (card_uuid : String)
    → card_uuid ≢ ""
    → (1 ≤ numeric_card_id sha256 card_uuid) × (numeric_card_id sha256 card_uuid < 2_147_483_648)
unfolding numeric_card_id
numeric_card_id_range sha256 card_uuid given =
    let small = leading_bits_lt (sha256 card_uuid) in
    let named = ne→== card_uuid "" given in
    elim (Bool-cases (nat_beq (leading_bits (sha256 card_uuid)) 0)) [
      | inl zero_bits ↦ rw (named, zero_bits) (ground arith, ground arith)
      | inr some_bits ↦ rw (named, some_bits) (ground arith, small)
    ]

module _ {V Raw : Type 0} (j : TransactionJson V Raw) where
  -- the JSON of a transaction has its identity, whatever was asked for
  pub record IsIdentified (sha256 : String → List ℕ) (tx_id created_at card_uuid : String)
      (seq_id : ℕ) (raw : Raw) : Type 0 where
    pub fields : GoMap V
    pub coded : j.marshal_fields fields ≡ ok raw
    pub transaction_id : lookup "transactionId" fields ≡ some (j.text tx_id)
    pub id : lookup "id" fields ≡ some (j.number (pos seq_id))
    pub card_id : lookup "cardId" fields ≡ some (j.number (pos (numeric_card_id sha256 card_uuid)))
    pub created : lookup "createdAt" fields ≡ some (j.text created_at)

  -- A transaction that was made from a scenario is encoded from fields in which the ID, the sequence
  -- number, the card and the time are those of this service, whatever the scenario and the overrides
  -- say of them, and its record is what that JSON decodes to.
  pub materialise-IsIdentified :
      (sha256 : String → List ℕ) (tx_id created_at : String) (payload : Raw) (overrides : GoMap V)
      (seq_id : ℕ) (card_uuid : String) (made : Materialised Raw)
      → materialise_card_transaction j sha256 tx_id created_at payload overrides seq_id card_uuid
        ≡ ok made
      → (made.tx_id ≡ tx_id)
        × (j.unmarshal made.raw ≡ ok made.tx)
        × IsIdentified sha256 tx_id created_at card_uuid seq_id made.raw
  unfolding materialise_card_transaction
  materialise-IsIdentified sha256 tx_id created_at payload overrides seq_id card_uuid made fine =
      let fields = λ (base : GoMap V).
        with_identity j tx_id seq_id (numeric_card_id sha256 card_uuid) created_at
          (override_fields overrides base) in
      let refused : (e : String)
          → materialise_card_transaction j sha256 tx_id created_at payload overrides seq_id
              card_uuid
            ≡ err e
          → ⊥ =
        λ e bad. ground arith in
      elim (Result-cases (j.unmarshal_fields payload)) [
        | inl (e, bad) ↦ absurd (refused e (rw (materialise_card_transaction, bad) refl))
        | inr (base, read) ↦ elim (Result-cases (j.marshal_fields (fields base))) [
          | inl (e, bad) ↦ absurd (refused e (rw (materialise_card_transaction, read, bad) refl))
          | inr (raw, coded) ↦ elim (Result-cases (j.unmarshal raw)) [
            | inl (e, bad) ↦
                absurd (refused e (rw (materialise_card_transaction, read, coded, bad) refl))
            | inr (tx, decoded) ↦
                let expected : Materialised Raw = record { tx = tx; raw = raw; tx_id = tx_id } in
                let done : materialise_card_transaction j sha256 tx_id created_at payload overrides
                      seq_id card_uuid
                    ≡ ok expected =
                  rw (materialise_card_transaction, read, coded, decoded) refl in
                let same_ok = sym done ∙ fine in
                let same : expected ≡ made = ground arith in
                subst
                  (λ (m : Materialised Raw).
                    (m.tx_id ≡ tx_id)
                    × (j.unmarshal m.raw ≡ ok m.tx)
                    × IsIdentified sha256 tx_id created_at card_uuid seq_id m.raw)
                  same
                  (
                    refl,
                    decoded,
                    record {
                      fields = fields base;
                      coded = coded;
                      transaction_id = simp lookup-insert;
                      id = simp lookup-insert;
                      card_id = simp lookup-insert;
                      created = simp lookup-insert;
                    },
                  )
          ]
        ]
      ]

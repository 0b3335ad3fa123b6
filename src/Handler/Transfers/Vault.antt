-- ===== src/Handler/Transfers/Vault.antt =====
-- The currency and the vault of a transaction agree.
use mockgatehub.Prelude.{
  String, ◌≡◌, ◌≢◌, ◌⊎◌, inl, inr, ap, sym, ◌∙◌, none, some, ◌==◌, arith, Bool-cases, Option-cases,
  ==→eq, ==→ne,
}
use mockgatehub.Prelude.Result.{ok}
use mockgatehub.Prelude.GoMap.{lookup}
use mockgatehub.Consts.{sandbox_vault_ids, vault_uuid_to_currency}
use mockgatehub.Consts.Vaults.{vault_tables_inverse}
use mockgatehub.Handler.Payments.{text_or_empty}
use mockgatehub.Handler.Transfers.{resolve_currency}

-- The currency that a request is given is the one that its vault stands for, where the vault is known,
-- whatever currency it names. Where it names no vault, or one that is not known, the currency is the
-- one that it names.
pub resolve_currency_lem :
    (currency vault_uuid c : String)
    → resolve_currency currency vault_uuid ≡ ok c
    → ((vault_uuid ≢ "") × (lookup vault_uuid vault_uuid_to_currency ≡ some c))
      ⊎ (((vault_uuid ≡ "") ⊎ (lookup vault_uuid vault_uuid_to_currency ≡ none)) × (c ≡ currency))
unfolding resolve_currency
resolve_currency_lem currency vault_uuid c h = elim (Bool-cases (vault_uuid == "")) [
  | inl no_vault ↦ elim (Bool-cases (currency == "")) [
    | inl nothing ↦ absurd (ground (arith, no_vault, nothing))
    | inr named ↦ inr (inl (==→eq _ _ no_vault), ground (arith, no_vault, named))
  ]
  | inr vault ↦ elim (Bool-cases (currency == "")) [
    | inl unnamed ↦ elim (Option-cases (lookup vault_uuid vault_uuid_to_currency)) [
      | inl unknown ↦ absurd (ground (arith, vault, unnamed, unknown))
      | inr (d, known) ↦ inl (==→ne _ _ vault, ground (arith, vault, unnamed, known))
    ]
    | inr named ↦
        elim (Bool-cases (vault_uuid == text_or_empty (lookup currency sandbox_vault_ids))) [
          | inr other ↦ elim (Option-cases (lookup vault_uuid vault_uuid_to_currency)) [
            | inl unknown ↦ inr (inr unknown, ground (arith, vault, named, other, unknown))
            | inr (d, known) ↦ inl (==→ne _ _ vault, ground (arith, vault, named, other, known))
          ]
          | inl agrees ↦
              let kept : c ≡ currency = ground (arith, vault, named, agrees) in
              elim (Option-cases (lookup currency sandbox_vault_ids)) [
                | inl none_there ↦
                    absurd (==→ne _ _ vault (==→eq _ _ agrees ∙ ap text_or_empty none_there))
                | inr (w, there) ↦
                    let same : w ≡ vault_uuid = sym (==→eq _ _ agrees ∙ ap text_or_empty there) in
                    inl (
                      ==→ne _ _ vault,
                      (vault_tables_inverse currency vault_uuid).0 (there ∙ ap some same)
                          ∙ ap some (sym kept),
                    )
              ]
        ]
  ]
]

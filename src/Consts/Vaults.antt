-- ===== src/Consts/Vaults.antt =====
-- The two vault tables of consts.go, `SandboxVaultIDs` and `VaultUUIDToCurrency`.
use mockgatehub.Prelude.{
  String, ◌≡◌, ◌↔◌, refl, Bool, true, false, some, none, List, [], ◌∷◌, ◌==◌, arith, eq_iff,
  is_some, Option-cases, inl, inr, ◌&&◌,
}
use mockgatehub.Prelude.GoMap.{GoMap, lookup}
use mockgatehub.Consts.{sandbox_currencies, sandbox_vault_ids, vault_uuid_to_currency}

-- Every entry of the first map is found reversed in the second.
reverses : GoMap String → GoMap String → Bool
reverses [] back = true
reverses ((k, v) ∷ m) back =
    elim (lookup v back) [ none ↦ false | some j ↦ j == k ] && reverses m back

reverses_sound :
    (m back : GoMap String) (k v : String)
    → reverses m back ≡ true
    → lookup k m ≡ some v
    → lookup v back ≡ some k
unfolding reverses lookup
reverses_sound [] back k v h e = cc
reverses_sound ((j, w) ∷ m) back k v h e = elim (Option-cases (lookup w back)) [
  | inl gone ↦ ground arith
  | inr (i, found) ↦ ground (arith, eq_iff j k, eq_iff i j, reverses_sound m back k v)
]

-- The two vault tables are inverse to one another: a currency has a vault exactly if that vault
-- stands for the currency.
pub vault_tables_inverse :
    (currency vault : String)
    → (lookup currency sandbox_vault_ids ≡ some vault)
      ↔ (lookup vault vault_uuid_to_currency ≡ some currency)
unfolding sandbox_vault_ids vault_uuid_to_currency reverses lookup
vault_tables_inverse currency vault = (
  reverses_sound sandbox_vault_ids vault_uuid_to_currency currency vault refl,
  reverses_sound vault_uuid_to_currency sandbox_vault_ids vault currency refl,
)

-- every currency of a list has a vault
abbrev pub all_have_vaults : List String → Bool
all_have_vaults [] = true
all_have_vaults (c ∷ cs) = is_some (lookup c sandbox_vault_ids) && all_have_vaults cs

pub sandbox_currencies_have_vaults : all_have_vaults sandbox_currencies ≡ true
unfolding sandbox_currencies sandbox_vault_ids lookup
sandbox_currencies_have_vaults = refl

-- ===== src/Storage/CardStore.antt =====
-- The part of the `Storage` interface (internal/storage/interface.go) that the card lifecycle uses,
-- with what its clients rely on. `MemoryStorage` fills it below.
use mockgatehub.Prelude.{String, ◌≡◌, ◌≢◌, ◌==◌, some, if◌then◌else◌, refl, arith, eq_iff}
use mockgatehub.Prelude.Result.{ok, Exec}
use mockgatehub.Prelude.GoMap.{lookup, lookup-insert}
use mockgatehub.Models.{Card}
use mockgatehub.Storage.Memory.{MemoryStorage, GoError}
use mockgatehub.Storage.Cards.{get_card, update_card}

pub record CardStore (S : Type 0) : Type 1 where
  pub get : String → Exec S GoError Card
  pub update : Card → Exec S GoError (Unit {0})
  -- a read changes nothing
  pub get_keeps : (id : String) (s : S) → (get id s).1 ≡ s
  -- a store that is well formed keeps a card under its own ID, which is not blank
  pub WellFormed : S → Type 0
  pub get_id :
      (id : String) (s : S) (c : Card)
      → WellFormed s
      → (get id s).0 ≡ ok c
      → (c.id ≡ id) × (c.id ≢ "")
  pub update-WellFormed : (c : Card) (s : S) → WellFormed s → WellFormed (update c s).1
  -- an update of a card that is found succeeds, is read back, and leaves other cards
  pub update_found :
      (c old : Card) (s : S) → c.id ≢ "" → (get c.id s).0 ≡ ok old → (update c s).0 ≡ ok tt
  pub get_after_update :
      (c old : Card) (id : String) (s : S)
      → c.id ≢ ""
      → (get c.id s).0 ≡ ok old
      → (get id (update c s).1).0 ≡ (if c.id == id then ok c else (get id s).0)

module _ {F Raw : Type 0} where
  pub record CardsKeyed (s : MemoryStorage F Raw) : Type 0 where
    pub keyed : (id : String) (c : Card) → lookup id s.cards ≡ some c → (c.id ≡ id) × (c.id ≢ "")

  pub get_card_id :
      (id : String) (s : MemoryStorage F Raw) (c : Card)
      → CardsKeyed s
      → (get_card id s).0 ≡ ok c
      → (c.id ≡ id) × (c.id ≢ "")
  unfolding get_card
  get_card_id id s c h e = h.keyed id c (ground arith)

  pub update_card-CardsKeyed :
      (c : Card) (s : MemoryStorage F Raw) → CardsKeyed s → CardsKeyed (update_card c s).1
  unfolding update_card
  update_card-CardsKeyed c s h = record {
    keyed = λ id d e.
        ground
          (arith, lookup-insert c.id id c s.cards, eq_iff c.id id, eq_iff c.id "", h.keyed id d);
  }

  pub update_card_found :
      (c old : Card) (s : MemoryStorage F Raw)
      → c.id ≢ ""
      → (get_card c.id s).0 ≡ ok old
      → (update_card c s).0 ≡ ok tt
  unfolding update_card get_card
  update_card_found c old s ne e = ground (arith, eq_iff c.id "")

  pub get_card-update_card :
      (c old : Card) (id : String) (s : MemoryStorage F Raw)
      → c.id ≢ ""
      → (get_card c.id s).0 ≡ ok old
      → (get_card id (update_card c s).1).0 ≡ (if c.id == id then ok c else (get_card id s).0)
  unfolding update_card get_card
  get_card-update_card c old id s ne e =
      ground (arith, lookup-insert c.id id c s.cards, eq_iff c.id id, eq_iff c.id "")

  pub get_card_keeps : (id : String) (s : MemoryStorage F Raw) → (get_card id s).1 ≡ s
  unfolding get_card
  get_card_keeps id s = refl

  -- `MemoryStorage` is such a store.
  instance abbrev pub memory_card_store : CardStore (MemoryStorage F Raw)
  memory_card_store = record {
    get = get_card;
    update = update_card;
    get_keeps = get_card_keeps;
    WellFormed = CardsKeyed;
    get_id = get_card_id;
    update-WellFormed = update_card-CardsKeyed;
    update_found = update_card_found;
    get_after_update = get_card-update_card;
  }

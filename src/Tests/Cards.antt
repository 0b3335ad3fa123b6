-- ===== src/Tests/Cards.antt =====
-- The life of a card.
use mockgatehub.Prelude.{String, ◌≡◌, refl, List, [], ◌∷◌, arith, eq_iff}
use mockgatehub.Prelude.Result.{ok}
use mockgatehub.Prelude.GoMap.{lookup}
use mockgatehub.Models.{Card}
use mockgatehub.Storage.Cards.{get_card}
use mockgatehub.Storage.CardStore.{memory_card_store, CardsKeyed}
use mockgatehub.Handler.Cards.{lock, unlock, block, delete, apply_card_requests, CardRequest}
use mockgatehub.Handler.Cards.Traces.{deleted_card_stays}
use mockgatehub.Tests.Data.{card, store_with}

abbrev with_status : String → Card
with_status status = record card { status = status }

keyed : (status : String) → CardsKeyed (store_with (with_status status))
unfolding lookup
keyed status = record { keyed = λ id c h. ground (arith, eq_iff "card-1" id, eq_iff "card-1" "") }

found :
    (status : String)
    → (get_card "card-1" (store_with (with_status status))).0 ≡ ok (with_status status)
unfolding get_card lookup
found status = refl

abbrev requests : List CardRequest
requests = unlock "card-1" ∷ lock "card-1" "" ∷ block "card-1" "stolen" ∷ delete "card-1" ∷ []

deleted_card_stays_example :
    (get_card "card-1" (apply_card_requests requests (store_with (with_status "SoftDelete")))).0
    ≡ ok (with_status "SoftDelete")
deleted_card_stays_example =
    deleted_card_stays requests (store_with (with_status "SoftDelete")) "card-1"
      (with_status "SoftDelete") (keyed "SoftDelete") (found "SoftDelete") refl

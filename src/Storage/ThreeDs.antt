-- ===== src/Storage/ThreeDs.antt =====
-- 3DS challenges of memory.go. Their status is a text: "pending", "approved", "declined" or "expired".
use mockgatehub.Prelude.{String, Bool, List, ◌&&◌, ltb, nat_beq, ◌==◌, not, if◌then◌else◌}
use mockgatehub.Prelude.Result.{ok, of_option, ◌>>=◌, ◌>>◌, raise_if, gets, modify, pure}
use mockgatehub.Prelude.GoMap.{lookup, insert, contains, values}
use mockgatehub.Models.{ThreeDsChallenge, Time}
use mockgatehub.Storage.Memory.{Method}
use mockgatehub.Storage.Cards.{select}

-- the two tests of the loop of `GetPendingThreeDSChallenges`
unfoldable pub is_pending_for : String → Time → ThreeDsChallenge → Bool
is_pending_for user_id now challenge =
    challenge.user_id == user_id && challenge.status == "pending" && ltb now challenge.timeout

module _ {F Raw : Type 0} where
  unfoldable pub create_three_ds_challenge : Time → ThreeDsChallenge → Method F Raw ThreeDsChallenge
  create_three_ds_challenge now challenge = do
    raise_if (challenge.transaction_id == "") "transaction ID is required"
    let created = if nat_beq challenge.created_at 0 then now else challenge.created_at
    let kept = record challenge { created_at = created }
    modify (λ s. record s {
      three_ds_challenges = insert challenge.transaction_id kept s.three_ds_challenges;
    })
    pure kept

  unfoldable pub get_three_ds_challenge : String → Method F Raw ThreeDsChallenge
  get_three_ds_challenge tx_id s =
      (of_option (lookup tx_id s.three_ds_challenges) "3DS challenge not found", s)

  unfoldable pub get_pending_three_ds_challenges :
      Time → String → Method F Raw (List ThreeDsChallenge)
  unfolding select values is_pending_for
  get_pending_three_ds_challenges now user_id s =
      (ok (select (is_pending_for user_id now) (values s.three_ds_challenges)), s)

  unfoldable pub update_three_ds_challenge : ThreeDsChallenge → Method F Raw (Unit {0})
  update_three_ds_challenge challenge = do
    known ← gets (λ s. contains challenge.transaction_id s.three_ds_challenges)
    raise_if (not known) "3DS challenge not found"
    modify (λ s. record s {
      three_ds_challenges = insert challenge.transaction_id challenge s.three_ds_challenges;
    })

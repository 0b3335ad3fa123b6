-- ===== src/Redis/ThreeDs.antt =====
-- 3DS challenges of redis.go. A time is a number of seconds here, and `ttl` is how long a key lives.
use Prim.Native.String.{◌++◌}
use mockgatehub.Prelude.{ℕ, String, List, ◌+◌, ◌-◌, ltb, nat_beq, ◌==◌, not, if◌then◌else◌}
use mockgatehub.Prelude.Result.{ok, ◌>>=◌, ◌>>◌, raise_if, pure}
use mockgatehub.Models.{ThreeDsChallenge, Time}
use mockgatehub.Storage.Cards.{select}
use mockgatehub.Redis.Client.{
  RedisClient, Json, Call, load, write, read, collect, encode, exists_or,
}

abbrev pub three_ds_challenge_key : String → String
three_ds_challenge_key tx_id = "3ds:challenge:" ++ tx_id

abbrev pub user_three_ds_challenges_key : String → String
user_three_ds_challenges_key user_id = "user:" ++ user_id ++ ":3ds:challenges"

-- ten minutes after the timeout, for the challenge to be marked as expired
abbrev pub ttl_buffer : ℕ
ttl_buffer = 600

module _ {R : Type 0} ⦃client : RedisClient R⦄ ⦃json : Json ThreeDsChallenge⦄ where
  unfoldable pub create_three_ds_challenge : Time → ThreeDsChallenge → Call R ThreeDsChallenge
  create_three_ds_challenge now challenge = do
    raise_if (challenge.transaction_id == "") "transaction ID is required"
    let created = if nat_beq challenge.created_at 0 then now else challenge.created_at
    let kept = record challenge { created_at = created }
    text ← encode "failed to marshal 3DS challenge: " kept
    raise_if (ltb challenge.timeout now) "3DS challenge timeout is in the past"
    write "failed to store 3DS challenge: " (
        client.set (three_ds_challenge_key challenge.transaction_id) text
          (challenge.timeout - now + ttl_buffer))
    write "failed to index 3DS challenge: " (
        client.z_add (user_three_ds_challenges_key challenge.user_id) challenge.timeout
          challenge.transaction_id)
    pure kept

  unfoldable pub get_three_ds_challenge : String → Call R ThreeDsChallenge
  get_three_ds_challenge tx_id = load "3DS challenge" (three_ds_challenge_key tx_id)

  unfoldable pub get_pending_three_ds_challenges : Time → String → Call R (List ThreeDsChallenge)
  unfolding collect get_three_ds_challenge select
  get_pending_three_ds_challenges now user_id = do
    ids ←
        read "failed to get pending 3DS challenges: "
          (client.z_range_from (user_three_ds_challenges_key user_id) now)
    (λ r. (
      ok (
          select (λ (challenge : ThreeDsChallenge). challenge.status == "pending")
            (collect get_three_ds_challenge ids r)),
      r,
    ))

  unfoldable pub update_three_ds_challenge : ThreeDsChallenge → Call R (Unit {0})
  update_three_ds_challenge challenge = do
    let key = three_ds_challenge_key challenge.transaction_id
    known ← exists_or "failed to check 3DS challenge existence: " key
    raise_if (not known) "3DS challenge not found"
    text ← encode "failed to marshal 3DS challenge: " challenge
    ttl ← read "failed to get TTL: " (client.time_to_live key)
    write "failed to update 3DS challenge: " (client.set key text ttl)
    if challenge.status == "pending"
        then pure tt
        else write "failed to remove from pending set: "
            (client.z_rem (user_three_ds_challenges_key challenge.user_id) challenge.transaction_id)

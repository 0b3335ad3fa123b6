-- ===== src/Redis/Users.antt =====
-- Users of redis.go.
pub mod Stored
use Prim.Native.String.{◌++◌}
use mockgatehub.Prelude.{String, Bool, nat_beq, ◌==◌, not, if◌then◌else◌}
use mockgatehub.Prelude.Result.{◌>>=◌, ◌>>◌, raise_if, pure}
use mockgatehub.Models.{User, Time}
use mockgatehub.Redis.Client.{
  RedisClient, Json, Call, exists_or, encode, set_text, get_text, load, save,
}

abbrev pub user_key : String → String
user_key id = "user:" ++ id

abbrev pub email_key : String → String
email_key email = "email:" ++ email

module _ {R : Type 0} ⦃client : RedisClient R⦄ ⦃json : Json User⦄ where
  unfoldable pub create_user : String → Time → User → Call R User
  create_user fresh now user = do
    raise_if (user.email == "") "email is required"
    let id = if user.id == "" then fresh else user.id
    let created = if nat_beq user.created_at 0 then now else user.created_at
    let kept = record user { id = id; created_at = created }
    taken ← exists_or "failed to check user existence: " (user_key id)
    raise_if taken "user already exists"
    save "user" "store" (user_key id) kept
    set_text "failed to store email mapping: " (email_key user.email) id
    pure kept

  unfoldable pub get_user : String → Call R User
  get_user id = load "user" (user_key id)

  unfoldable pub get_user_by_email : String → Call R User
  unfolding get_user
  get_user_by_email email = do
    user_id ← get_text "user not found" "failed to get user by email: " (email_key email)
    get_user user_id

  unfoldable pub update_user : User → Call R (Unit {0})
  update_user user = do
    raise_if (user.id == "") "user ID is required"
    known ← exists_or "failed to check user existence: " (user_key user.id)
    raise_if (not known) "user not found"
    save "user" "update" (user_key user.id) user

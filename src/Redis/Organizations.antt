-- ===== src/Redis/Organizations.antt =====
-- Organizations of redis.go.
use Prim.Native.String.{◌++◌}
use mockgatehub.Prelude.{String, not}
use mockgatehub.Prelude.Result.{◌>>=◌, ◌>>◌, raise_if, pure}
use mockgatehub.Models.{Organization, Time}
use mockgatehub.Redis.Client.{RedisClient, Json, Call, load, encode, set_text, exists_or}

abbrev pub organization_key : String → String
organization_key org_id = "organization:" ++ org_id

module _ {R : Type 0} ⦃client : RedisClient R⦄ ⦃json : Json Organization⦄ where
  unfoldable pub get_organization : String → Call R Organization
  get_organization org_id = load "organization" (organization_key org_id)

  -- The error of the last call is passed on as it is.
  unfoldable pub create_organization : Organization → Call R (Unit {0})
  create_organization org = do
    taken ← exists_or "failed to check organization existence: " (organization_key org.id)
    raise_if taken "organization already exists"
    text ← encode "failed to marshal organization: " org
    set_text "" (organization_key org.id) text

  unfoldable pub update_organization : Time → Organization → Call R Organization
  update_organization now org = do
    known ← exists_or "failed to check organization existence: " (organization_key org.id)
    raise_if (not known) "organization not found"
    let kept = record org { updated_at = now }
    text ← encode "failed to marshal organization: " kept
    set_text "" (organization_key org.id) text
    pure kept

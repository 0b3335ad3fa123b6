-- ===== src/Storage/Organizations.antt =====
-- Organizations of memory.go; the store keeps and returns copies.
use mockgatehub.Prelude.{String, not}
use mockgatehub.Prelude.Result.{of_option, ◌>>=◌, ◌>>◌, raise_if, gets, modify, pure}
use mockgatehub.Prelude.GoMap.{lookup, insert, contains}
use mockgatehub.Models.{Organization, Time}
use mockgatehub.Storage.Memory.{Method}

module _ {F Raw : Type 0} where
  unfoldable pub get_organization : String → Method F Raw Organization
  get_organization org_id s =
      (of_option (lookup org_id s.organizations) "organization not found", s)

  unfoldable pub create_organization : Organization → Method F Raw (Unit {0})
  create_organization org = do
    taken ← gets (λ s. contains org.id s.organizations)
    raise_if taken "organization already exists"
    modify (λ s. record s { organizations = insert org.id org s.organizations })

  -- The organization as `UpdateOrganization` leaves it.
  unfoldable pub update_organization : Time → Organization → Method F Raw Organization
  update_organization now org = do
    known ← gets (λ s. contains org.id s.organizations)
    raise_if (not known) "organization not found"
    let kept = record org { updated_at = now }
    modify (λ s. record s { organizations = insert org.id kept s.organizations })
    pure kept

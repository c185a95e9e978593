-- ===== src/Actor.antt =====
-- core/security.py: the authenticated actor and the role tests. A set of roles is a list, of which
-- only membership is read.
use fireviewer_backend.Enums.{ActorType}
use fireviewer_backend.Prelude.{Bool, List, Option, String, all, any, str_eq}

pub record Actor : Type 0 where
  pub actor_id : String
  pub roles : List String
  pub actor_type : ActorType
  pub csrf_token : Option String

unfoldable pub has_role : List String → String → Bool
has_role roles role = any (λ held. str_eq held role) roles

-- `bool(self.roles.intersection(required))`
unfoldable pub has_any_role : Actor → List String → Bool
has_any_role actor required = any (has_role actor.roles) required

-- `required.issubset(self.roles)`
unfoldable pub has_all_roles : Actor → List String → Bool
has_all_roles actor required = all (has_role actor.roles) required

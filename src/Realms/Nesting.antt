-- ===== src/Realms/Nesting.antt =====
-- x/realms/docker.go: the default realm of a product contains its other realms.
use secrets_engine.Prelude.{◌≡◌, refl, ◌≢◌, Bool, true, List, [], ◌∷◌, All, all, not, inl, arith}
use secrets_engine.Realms.{
  docker_mcp_default, docker_mcp_oauth, docker_mcp_oauth_dcr, docker_sandbox, docker_sandbox_oauth,
  secrets_engine_realm, secrets_engine_plugins,
}
use secrets_engine.Secrets.Identifier.{SecretId, split}
use secrets_engine.Secrets.Match.{matches_id, includes, match_parts, try_skips}
use secrets_engine.Secrets.Match.Includes.{includes_sound}
use secrets_engine.Secrets.Pattern.{SecretPattern, star}
use secrets_engine.Text.{Bytes, equal, equal_iff}

All-star :
    (parts : List Bytes) → all (λ q. not (equal q star)) parts ≡ true → All (λ q. q ≢ star) parts
All-star [] h = tt
All-star (p ∷ parts) h = (λ e. ground (arith, equal_iff p star), All-star parts (ground arith))

abbrev star_free : SecretPattern → Bool
star_free p = all (λ q. not (equal q star)) (split p)

nests :
    (p other : SecretPattern)
    → star_free p ≡ true
    → star_free other ≡ true
    → includes p other ≡ true
    → (i : SecretId) → matches_id other i ≡ true
    → matches_id p i ≡ true
nests p other a b = includes_sound p other (All-star (split other) b) (inl (All-star (split p) a))

-- Whatever a realm for OAuth credentials or for plugins matches is matched by the default realm of its
-- product.
pub realms_nest :
    (i : SecretId)
    → (matches_id docker_mcp_oauth i ≡ true → matches_id docker_mcp_default i ≡ true)
      × (matches_id docker_mcp_oauth_dcr i ≡ true → matches_id docker_mcp_default i ≡ true)
      × (matches_id docker_sandbox_oauth i ≡ true → matches_id docker_sandbox i ≡ true)
      × (matches_id secrets_engine_plugins i ≡ true → matches_id secrets_engine_realm i ≡ true)
unfolding includes match_parts try_skips split equal
realms_nest i = (
  nests docker_mcp_default docker_mcp_oauth refl refl refl i,
  nests docker_mcp_default docker_mcp_oauth_dcr refl refl refl i,
  nests docker_sandbox docker_sandbox_oauth refl refl refl i,
  nests secrets_engine_realm secrets_engine_plugins refl refl refl i,
)

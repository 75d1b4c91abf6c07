-- ===== src/Realms.antt =====
-- x/realms/docker.go: the patterns of the realms of Docker products.
pub mod Nesting
use secrets_engine.Secrets.Pattern.{SecretPattern}
use secrets_engine.Text.{codes}

abbrev pub docker_hub_authentication : SecretPattern
docker_hub_authentication = codes "docker/auth/hub/**"

abbrev pub docker_hub_staging_authentication : SecretPattern
docker_hub_staging_authentication = codes "docker/auth/hub-staging/**"

abbrev pub docker_registry_authentication : SecretPattern
docker_registry_authentication = codes "docker/auth/registry/docker/**"

abbrev pub docker_registry_staging_authentication : SecretPattern
docker_registry_staging_authentication = codes "docker/auth/registry/docker-staging/**"

abbrev pub docker_hub_authentication_metadata : SecretPattern
docker_hub_authentication_metadata = codes "docker/auth/metadata/hub/**"

abbrev pub docker_hub_staging_authentication_metadata : SecretPattern
docker_hub_staging_authentication_metadata = codes "docker/auth/metadata/hub-staging/**"

abbrev pub docker_mcp_default : SecretPattern
docker_mcp_default = codes "docker/mcp/**"

abbrev pub docker_mcp_oauth : SecretPattern
docker_mcp_oauth = codes "docker/mcp/oauth/**"

abbrev pub docker_mcp_oauth_dcr : SecretPattern
docker_mcp_oauth_dcr = codes "docker/mcp/oauth-dcr/**"

abbrev pub docker_sandbox : SecretPattern
docker_sandbox = codes "docker/sandbox/**"

abbrev pub docker_sandbox_oauth : SecretPattern
docker_sandbox_oauth = codes "docker/sandbox/oauth/**"

abbrev pub secrets_engine_realm : SecretPattern
secrets_engine_realm = codes "docker/secrets-engine/**"

abbrev pub secrets_engine_plugins : SecretPattern
secrets_engine_plugins = codes "docker/secrets-engine/plugins/**"

-- ===== src/Configuration.antt =====
-- `Settings` of app/config.py, as far as the program's behaviour depends on them, and `lifespan` of
-- app/main.py. Reading the environment is left to pydantic.
pub mod Urls
use jarvis_ai_coo.Prelude.{
  ℕ, Text, codes, Bool, true, false, not, ◌&&◌, ◌||◌, ◌==◌, text_eq, Option, none, some, List, [],
  ◌∷◌, ◌++◌, if◌then◌else◌,
}
use jarvis_ai_coo.Strings.{is_empty}
use jarvis_ai_coo.Json.{decimal}
use jarvis_ai_coo.Database.{Env, Server, Result, ok, get_db}
use jarvis_ai_coo.Seeding.{seed_fixture_organizations}

pub record Settings : Type 0 where
  pub environment : Text
  pub database_url : Text
  pub postgres_user : Text
  pub postgres_password : Text
  pub postgres_host : Text
  pub postgres_port : ℕ
  pub postgres_db : Text
  pub seed_fixture_organizations : Bool
  pub auth_signing_key : Text
  pub rate_limit_per_minute : ℕ

-- what a setting is that nothing sets
abbrev pub default_settings : Settings
default_settings = record {
  environment = codes "development";
  database_url = [];
  postgres_user = [];
  postgres_password = [];
  postgres_host = codes "localhost";
  postgres_port = 5432;
  postgres_db = codes "jarvis";
  seed_fixture_organizations = true;
  auth_signing_key = [];
  rate_limit_per_minute = 120;
}

-- `resolved_database_url`, with the `RuntimeError` as `none`
unfoldable pub resolved_database_url : Settings → Option Text
unfolding is_empty decimal
resolved_database_url settings =
    if not (is_empty settings.database_url)
    then some settings.database_url
    else if is_empty settings.postgres_user || is_empty settings.postgres_password
    then none
    else some (
        codes "postgresql+asyncpg://"
        ++ (settings.postgres_user
            ++ b':'
              ∷ (settings.postgres_password
                  ++ b'@'
                    ∷ (settings.postgres_host
                        ++ b':'
                          ∷ (decimal settings.postgres_port ++ b'/' ∷ settings.postgres_db)))))

unfoldable pub is_test : Env → Settings → Bool
is_test env settings = env.lower settings.environment == codes "test"

-- what `lifespan` does before the first request
unfoldable pub lifespan : Env → Settings → Text → Text → Server → Result {0} Unit × Server
unfolding is_test
lifespan env settings abc xyz server =
    if settings.seed_fixture_organizations && not (is_test env settings)
    then get_db (seed_fixture_organizations env abc xyz) server
    else (ok tt, server)

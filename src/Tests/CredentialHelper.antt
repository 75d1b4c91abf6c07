-- ===== src/Tests/CredentialHelper.antt =====
-- Runs and instances for plugins/credentialhelper.
use secrets_engine.CredentialHelper.{
  Helper, replace_schemes, trim_slash, default_key_rewriter, get_helper_secrets,
}
use secrets_engine.CredentialHelper.Answers.{Serves, Answers, get_helper_secrets_lem}
use secrets_engine.CredentialHelper.Rewriting.{default_key_rewriter_lem}
use secrets_engine.Prelude.{ℕ, ◌≡◌, refl, true, false, List, [], ◌∷◌, some, ok}
use secrets_engine.Resolver.{Envelope}
use secrets_engine.Secrets.Identifier.{SecretId}
use secrets_engine.Text.{codes, cut_prefix}
use secrets_engine.Text.Search.{replace_all}
use secrets_engine.Text.Split.{split_on}

with_port :
    default_key_rewriter (λ s. true) (codes "http://10.0.0.1:80/key/")
    ≡ codes "10.0.0.1-port-80/key"
unfolding default_key_rewriter replace_schemes trim_slash replace_all split_on cut_prefix
with_port = refl

default_key_rewriter_lem_example :
    (default_key_rewriter (λ s. false) (codes "https://a.io/k/") ≡ codes "a.io/k")
    × (default_key_rewriter (λ s. false) (codes "http://a.io/k/") ≡ codes "a.io/k")
default_key_rewriter_lem_example =
    default_key_rewriter_lem (λ s. false) (codes "a.io/k")
      (refl, (refl, (refl, (refl, (refl, (refl, tt))))))

abbrev helper : Helper
helper = record {
  has_port = λ s. false;
  rewriter = some (λ server_url user. some user);
  list = ok ((codes "u", codes "a") ∷ []);
  get = λ server_url.
      ok (record { server_url = server_url; username = codes "a"; secret = codes "pw" });
}

abbrev zero_time : ℕ
zero_time = 0

get_helper_secrets_lem_example :
    (es : List (Envelope SecretId ℕ)) × Serves 0 helper 7
      (codes "**")
      ((codes "u", codes "a") ∷ [])
      es
    × Answers es (get_helper_secrets zero_time helper 7 (codes "**"))
get_helper_secrets_lem_example = get_helper_secrets_lem 0 helper 7 (codes "**")

-- ===== src/CredentialHelper.antt =====
-- plugins/credentialhelper/store.go: the plugin that serves the credentials of a credential helper.
pub mod Rewriting
pub mod Answers
use secrets_engine.Maps.{Map, put, empty}
use secrets_engine.Prelude.{
  ℕ, zero, suc, Bool, true, false, List, [], ◌∷◌, ◌++◌, Option, none, some, Result, ok, err, ◌==◌,
  if◌then◌else◌, length,
}
use secrets_engine.Resolver.{Envelope}
use secrets_engine.Secrets.Identifier.{SecretId, ErrInvalidId, parse_id}
use secrets_engine.Secrets.Match.{matches_id}
use secrets_engine.Secrets.Pattern.{SecretPattern}
use secrets_engine.Text.{Bytes, codes, cut_prefix}
use secrets_engine.Text.Search.{replace_all}
use secrets_engine.Text.Split.{split_on}

abbrev pub https_scheme : Bytes
https_scheme = codes "https://"

abbrev pub http_scheme : Bytes
http_scheme = codes "http://"

abbrev scheme_round : Option Bytes → Option Bytes → (Bytes → Bytes) → ℕ → Bytes → Bytes
scheme_round (some rest) o replace x s = replace rest
scheme_round none (some rest) replace x s = replace rest
scheme_round none none replace x s = x ∷ replace s

replace_schemes_fuel : ℕ → Bytes → Bytes
replace_schemes_fuel zero s = s
replace_schemes_fuel (suc f) [] = []
replace_schemes_fuel (suc f) (x ∷ s) =
    scheme_round (cut_prefix https_scheme (x ∷ s)) (cut_prefix http_scheme (x ∷ s))
      (replace_schemes_fuel f) x s

-- The replacer of `DefaultKeyRewriter`; each round takes a byte at least.
unfoldable pub replace_schemes : Bytes → Bytes
unfolding replace_schemes_fuel cut_prefix
replace_schemes s = replace_schemes_fuel (length s) s

-- `TrimSuffix` of `/`
unfoldable pub trim_slash : Bytes → Bytes
trim_slash [] = []
trim_slash (c ∷ []) = if c == b'/' then [] else c ∷ []
trim_slash (c ∷ d ∷ s) = c ∷ trim_slash (d ∷ s)

abbrev pub first_part : List Bytes → Bytes
first_part [] = []
first_part (p ∷ ps) = p

-- `DefaultKeyRewriter`; the first argument says for which texts `net.SplitHostPort` returns no error.
unfoldable pub default_key_rewriter : (Bytes → Bool) → Bytes → Bytes
default_key_rewriter has_port server_url =
    let o = trim_slash (replace_schemes server_url) in
    if has_port (first_part (split_on b'/' o))
    then replace_all (codes ":") (codes "-port-") o
    else o

-- `credentials.Credentials`
pub record Credentials : Type 0 where
  pub server_url : Bytes
  pub username : Bytes
  pub secret : Bytes

-- `credentialHelperStore`, with what the package net and the helper answer; the list is in the order of the
-- loop over the map.
pub record Helper : Type 0 where
  pub has_port : Bytes → Bool
  pub rewriter : Option (Bytes → Bytes → Option SecretId)
  pub list : Result ℕ (List (Bytes × Bytes))
  pub get : Bytes → Result ℕ Credentials

pub data HelperError : Type 0 where
  list_error : ℕ → HelperError
  not_found : HelperError

abbrev parsed_id : Result ErrInvalidId SecretId → Option SecretId
parsed_id (err e) = none
parsed_id (ok i) = some i

abbrev rewritten :
    (Bytes → Bool) → Option (Bytes → Bytes → Option SecretId) → Bytes × Bytes → Option SecretId
rewritten has_port none c = parsed_id (parse_id (default_key_rewriter has_port c.0))
rewritten has_port (some rewriter) c = rewriter c.0 c.1

module _ {T : Type 0} (zero_time : T) (h : Helper) (resolved_at : T) where
  -- The identifier of a credential; `none` is an error, which is logged.
  abbrev pub identify : Bytes × Bytes → Option SecretId
  identify c = rewritten h.has_port h.rewriter c

  abbrev pub helper_envelope : SecretId → Credentials → Envelope SecretId T
  helper_envelope p cred = record {
    id = p;
    value = cred.secret;
    metadata = put (codes "Username") cred.username (put (codes "ServerURL") cred.server_url empty);
    provider = codes "docker-credential-helper";
    version = codes "0.0.1";
    created_at = zero_time;
    resolved_at = resolved_at;
    expires_at = zero_time;
  }

  abbrev pub add_credential :
      SecretId → Result ℕ Credentials → List (Envelope SecretId T) → List (Envelope SecretId T)
  add_credential p (err e) rest = rest
  add_credential p (ok cred) rest = helper_envelope p cred ∷ rest

  abbrev pub add_matched :
      SecretPattern
      → Bytes × Bytes
      → Option SecretId
      → List (Envelope SecretId T)
      → List (Envelope SecretId T)
  add_matched pattern c none rest = rest
  add_matched pattern c (some p) rest =
      if matches_id pattern p then add_credential p (h.get c.0) rest else rest

  -- The loop of `GetSecrets`.
  unfoldable pub credentials_loop :
      SecretPattern → List (Bytes × Bytes) → List (Envelope SecretId T)
  credentials_loop pattern [] = []
  credentials_loop pattern (c ∷ credentials) =
      add_matched pattern c (identify c) (credentials_loop pattern credentials)

  abbrev pub some_found :
      List (Envelope SecretId T) → Result HelperError (List (Envelope SecretId T))
  some_found [] = err not_found
  some_found (e ∷ result) = ok (e ∷ result)

  abbrev pub from_list :
      SecretPattern
      → Result ℕ (List (Bytes × Bytes))
      → Result HelperError (List (Envelope SecretId T))
  from_list pattern (err e) = err (list_error e)
  from_list pattern (ok credentials) = some_found (credentials_loop pattern credentials)

  -- `GetSecrets`
  unfoldable pub get_helper_secrets :
      SecretPattern → Result HelperError (List (Envelope SecretId T))
  get_helper_secrets pattern = from_list pattern h.list

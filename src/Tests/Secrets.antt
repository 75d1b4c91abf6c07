-- ===== src/Tests/Secrets.antt =====
-- Runs and instances for x/secrets; the inputs are those of identifiers_test.go and pattern_test.go.
use secrets_engine.Prelude.{
  ◌≡◌, refl, ◌≢◌, ◌↔◌, ◌⊎◌, inl, true, false, ◌&&◌, List, [], ◌∷◌, ◌++◌, All, some, ok, err, arith,
}
use secrets_engine.Secrets.Expand.{
  candidates, replace_candidate, replace_one, expand_id, expand_pattern,
}
use secrets_engine.Secrets.Expand.Pieces.{OneGlob}
use secrets_engine.Secrets.Expand.Selects.{
  expand_pattern_narrows, expand_id-ok, expand_id_lem, globs_of,
}
use secrets_engine.Secrets.Identifier.{slash, valid_identifier, split, parse_id, is_valid_rune}
use secrets_engine.Secrets.Identifier.Grammar.{
  IsIdentifier, IsComponent, valid_identifier_iff, parse_id_lem,
}
use secrets_engine.Secrets.Match.{match_parts, try_skips, matches_id, includes, filter_pattern}
use secrets_engine.Secrets.Match.Includes.{includes_sound, includes-star, filter_pattern_meet}
use secrets_engine.Secrets.Match.Relation.{Matches, match_parts_iff}
use secrets_engine.Secrets.Pattern.{
  star, double_star, valid_pattern, parse_pattern, invalid_pattern,
}
use secrets_engine.Secrets.Pattern.Grammar.{IsPattern, valid_pattern_iff, parse_pattern_lem}
use secrets_engine.Text.{Bytes, codes, equal}
use secrets_engine.Text.Split.{join}

accepts_colon : valid_identifier (codes "127.0.0.1:8080") ≡ true
unfolding valid_identifier
accepts_colon = refl

refuses_double_slash : valid_identifier (codes "my//secret") ≡ false
unfolding valid_identifier
refuses_double_slash = refl

-- é in UTF-8
refuses_accent : valid_identifier (codes "caf" ++ (0xC3 ∷ 0xA9 ∷ [])) ≡ false
unfolding valid_identifier
refuses_accent = refl

pattern_tests :
    (valid_pattern (codes "foo/**") ≡ true)
    × (valid_pattern (codes "foo/***") ≡ false)
    × (valid_pattern (codes "foo*") ≡ false)
unfolding valid_pattern
pattern_tests = (refl, refl, refl)

match_tests :
    (matches_id (codes "*/**/*") (codes "foo/bar/baz") ≡ true)
    × (matches_id (codes "foo/*") (codes "foo/bar/baz") ≡ false)
    × (matches_id (codes "foo/**/baz") (codes "foo/baz") ≡ true)
    × (matches_id (codes "foo/**/baz") (codes "foo/bar/baz/qux") ≡ false)
unfolding matches_id match_parts try_skips equal split
match_tests = (refl, refl, refl, refl)

includes_tests :
    (includes (codes "docker/*/mcp/*") (codes "docker/proj1/**") ≡ false)
    × (includes (codes "docker/proj1/**") (codes "docker/*/mcp/*") ≡ true)
    × (includes (codes "docker/**") (codes "docker/**/mcp/**") ≡ true)
unfolding includes match_parts try_skips equal split
includes_tests = (refl, refl, refl)

filter_test : filter_pattern (codes "bar/**") (codes "bar") ≡ some (codes "bar")
unfolding filter_pattern includes match_parts try_skips equal split
filter_test = refl

abbrev realm : Bytes
realm = codes "docker/mcp/**"

abbrev sub_realm : Bytes
sub_realm = codes "docker/mcp/oauth/**"

abbrev login : Bytes
login = codes "docker/mcp/oauth/bob"

split-realm : split realm ≡ codes "docker" ∷ codes "mcp" ∷ double_star ∷ []
unfolding split
split-realm = refl

split-sub_realm : split sub_realm ≡ codes "docker" ∷ codes "mcp" ∷ codes "oauth" ∷ double_star ∷ []
unfolding split
split-sub_realm = refl

no_star-realm : All (λ c. c ≢ star) (split realm)
no_star-realm =
    rw split-realm ((λ e. ground arith), ((λ e. ground arith), ((λ e. ground arith), tt)))

no_star-sub_realm : All (λ c. c ≢ star) (split sub_realm)
no_star-sub_realm =
    rw split-sub_realm
      ((λ e. ground arith), ((λ e. ground arith), ((λ e. ground arith), ((λ e. ground arith), tt))))

includes-realm : includes realm sub_realm ≡ true
unfolding includes match_parts try_skips equal split
includes-realm = refl

sub_realm-login : matches_id sub_realm login ≡ true
unfolding matches_id match_parts try_skips equal split
sub_realm-login = refl

filter_realm : filter_pattern realm sub_realm ≡ some sub_realm
unfolding filter_pattern includes match_parts try_skips equal split
filter_realm = refl

realm-IsPattern : IsPattern realm
unfolding valid_pattern
realm-IsPattern = (valid_pattern_iff realm).0 refl

sub_realm-IsPattern : IsPattern sub_realm
unfolding valid_pattern
sub_realm-IsPattern = (valid_pattern_iff sub_realm).0 refl

bob-IsIdentifier : IsIdentifier (codes "oauth/bob")
unfolding valid_identifier
bob-IsIdentifier = (valid_identifier_iff (codes "oauth/bob")).0 refl

expand_realm : expand_id realm (codes "oauth/bob") ≡ ok login
unfolding expand_id replace_one replace_candidate candidates split equal join
expand_realm = refl

expand_sub : expand_pattern realm (codes "oauth/**") ≡ ok sub_realm
unfolding expand_pattern replace_one replace_candidate candidates split equal join
expand_sub = refl

oauth-IsPattern : IsPattern (codes "oauth/**")
unfolding valid_pattern
oauth-IsPattern = (valid_pattern_iff (codes "oauth/**")).0 refl

foo-IsComponent : IsComponent (codes "foo")
unfolding is_valid_rune
foo-IsComponent = ((λ e. cc), (refl, (refl, (refl, tt))))

bar-IsComponent : IsComponent (codes "bar")
unfolding is_valid_rune
bar-IsComponent = ((λ e. cc), (refl, (refl, (refl, tt))))

parse_id_lem_example :
    ((parse_id (codes "my/secret") ≡ ok (codes "my/secret"))
      × IsIdentifier (codes "my/secret")
      × (join slash (split (codes "my/secret")) ≡ codes "my/secret"))
    ⊎ ((parse_id (codes "my/secret") ≡ err (record { rejected = codes "my/secret" }))
        × ¬ IsIdentifier (codes "my/secret"))
parse_id_lem_example = parse_id_lem (codes "my/secret")

parse_pattern_lem_example :
    ((parse_pattern realm ≡ ok realm) × IsPattern realm × (join slash (split realm) ≡ realm))
    ⊎ ((parse_pattern realm ≡ err invalid_pattern) × ¬ IsPattern realm)
parse_pattern_lem_example = parse_pattern_lem realm

abbrev glob_parts : List Bytes
glob_parts = codes "foo" ∷ double_star ∷ codes "baz" ∷ []

abbrev path_parts : List Bytes
path_parts = codes "foo" ∷ codes "bar" ∷ codes "baz" ∷ []

match_parts_iff_example : (match_parts glob_parts path_parts ≡ true) ↔ Matches glob_parts path_parts
match_parts_iff_example = match_parts_iff glob_parts path_parts

includes_sound_example : matches_id realm login ≡ true
includes_sound_example =
    includes_sound realm sub_realm no_star-sub_realm (inl no_star-realm) includes-realm login
      sub_realm-login

includes-star_example :
    (includes (codes "foo") star ≡ true)
    × (matches_id star (codes "bar") ≡ true)
    × (matches_id (codes "foo") (codes "bar") ≡ false)
includes-star_example =
    includes-star (codes "foo") (codes "bar") foo-IsComponent bar-IsComponent (λ e. ground arith)

filter_pattern_meet_example :
    matches_id sub_realm login ≡ (matches_id realm login && matches_id sub_realm login)
filter_pattern_meet_example =
    filter_pattern_meet realm sub_realm sub_realm no_star-realm no_star-sub_realm filter_realm login

expand_id-ok_example :
    (matches_id realm login ≡ true) × (IsIdentifier login ↔ All (λ c. c ≢ star) (split realm))
expand_id-ok_example =
    expand_id-ok realm (codes "oauth/bob") login realm-IsPattern bob-IsIdentifier expand_realm

expand_id_lem_example :
    ((globs_of (split realm) ≡ 1)
      × ((g : OneGlob (split realm)) × (expand_id realm login
            ≡ ok (join slash (g.before ++ (login ∷ g.after))))))
    ⊎ ((globs_of (split realm) ≢ 1)
        × (expand_id realm login
            ≡ err (record { original = realm; globs = globs_of (split realm) })))
expand_id_lem_example = expand_id_lem realm login

expand_pattern_narrows_example : matches_id realm login ≡ true
expand_pattern_narrows_example =
    expand_pattern_narrows realm (codes "oauth/**") sub_realm realm-IsPattern oauth-IsPattern
      expand_sub login sub_realm-login

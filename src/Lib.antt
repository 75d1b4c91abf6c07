-- ===== src/Lib.antt =====
-- A model of the secrets engine's libraries, with proofs about it.
--
-- The program. Applications ask the engine for secrets by identifier or by pattern. The package
-- x/secrets defines both and the matching between them; every store filters by it and every plugin
-- declares what it serves by it. The package store defines what a store of secrets does, and
-- store/keychain implements it over the keychain of the platform.
--
-- The files.
-- - Prelude and Text: names and lemmas that the other modules share. A Go string is the list of its
--   bytes; Text.Split has `strings.Split`, `strings.Join` and `strings.Trim` at one byte, Text.Runes
--   the UTF-8 decoding that a `range` loop over a string performs.
-- - Maps: Go's maps as functions. A loop over a map takes the list of keys that it visits as an
--   argument, and the theorems hold for every such list, since the language leaves the order open.
-- - Secrets.Identifier: x/secrets/identifiers.go. `valid_identifier` is validIdentifier,
--   `identifier_loop` its loop, `is_valid_rune` isValidRune, `split` split, `parse_id` ParseID.
--   Identifier.Grammar has the grammar of identifiers.
-- - Secrets.Pattern: x/secrets/pattern.go. `valid_pattern` is validPattern, `pattern_loop` its loop,
--   `is_valid_component_matcher` isValidComponentMatcher, `parse_pattern` ParsePattern.
--   Pattern.Grammar has the grammar of patterns.
-- - Secrets.Match: `match_parts` is match, `try_skips` its inner loop, `matches_id` the two methods
--   Match, `includes` Includes, `filter_pattern` Filter. Match.Relation has the relation that match
--   decides, Match.Includes what an inclusion test implies.
-- - Secrets.Expand: `candidates` and `replace_candidate` are the two halves of replace1, `expand_id` and
--   `expand_pattern` the methods ExpandID and ExpandPattern.
-- - Store: the interfaces Secret and Store of store/store.go, as records of functions; Store.Contract
--   says what an implementation promises. Store.Mock is store/mocks/mock_store.go, Store.TestStore
--   plugins/pass/teststore/teststore.go.
-- - Keychain.Metadata: store/keychain/keychain.go. `safely_set_metadata`, `safely_clean_metadata` and
--   `safely_set_id` are the functions of those names; `prefix_keys` and `strip_keys` are their loops.
-- - Keychain.Windows: store/keychain/keychain_windows.go. Windows.Chunks has chunkBlob, Windows.Store the
--   methods Save, Upsert, Get and Delete with the functions they call, under those names in snake case;
--   `write_secret` is the second half of Save. The package wincred, the UTF-16 codec and the type of
--   secrets are the fields of the record `KeychainStore`; Windows.Manager states the documented
--   behaviour of the credential manager: target names are compared without regard to case, by a function
--   `fold` that is a parameter, and a credential is written only within the limits on its blob, its names
--   and its attributes.
-- - Resolver: the envelopes of x/secrets/secrets.go and x/api/resolver/resolver.go; `service_get_secrets`
--   is the handler's GetSecrets, `client_get_secrets` the client's. Messages are records, and the
--   conversions of timestamps are a parameter.
-- - Realms: the patterns of x/realms/docker.go.
-- - PassPlugin: plugins/pass/plugin.go and plugins/pass/store/store.go; `get_secrets` is GetSecrets, over
--   any store of the interface in Store.
-- - Injector: x/injector/parser.go; `parse_x_secret_label` is parseXSecretLabel and
--   `secret_map_from_labels` SecretMapFromLabels. `filepath.ToSlash` is a parameter, since it depends on
--   the platform.
-- - Posixage: store/posixage. Posixage.Files is os.Root, directories of files with operations that may
--   fail; Posixage.SecretFile is internal/secretfile/secret.go (`persist`, `restore_secret`,
--   `restore_metadata`), Posixage.Keys internal/secretfile/keys.go, Posixage.Prompt prompt.go and
--   Posixage.Store store.go, with the methods under their names in snake case. The packages age and
--   encoding/json are the records `Age` and `Json`, and the callbacks their answers. The order in which a
--   directory is listed, or the groups of keys are visited, is an argument. Keys are trimmed of ASCII white
--   space; a negative work factor is refused like 0, and the model has numbers from 0 on.
-- - Release: x/release. Release.Version and Release.Repo are the levels, the versions and the type RepoData
--   of helper/release.go, Release.Bump its BumpModule and BumpIterative; Release.Project is command.go:
--   getModBase, the loops over requirements, the type projectFS and the command. A set of modules is a list,
--   and the order in which a loop visits it in each round is a parameter. Git, the files and the packages
--   modfile, semver and filepath are the fields of the records `Env` and `System`.
-- - Commands: plugins/pass/commands, over any store of the interface in Store. Commands.Set is set.go,
--   Commands.Rm rm.go and Commands.Run the functions mergeEnv, resolveEnv and resolveRef of run.go, all
--   under their names in snake case. The decoder for JSON, what the standard input gives, the reader of env
--   files and the resolver are parameters.
-- - Flock: store/posixage/internal/flock, as a step relation on the phases of the processes that call
--   tryLock. `open_file`, `verify`, `recover_stat` and `recover_remove` are what openFile, the end of
--   acquireOnce and the two halves of recoverStaleLock do to the state, `heartbeat` a tick of that function;
--   each is one step, and the steps of the processes interleave in any way. Time is in seconds.
-- - Client: client/client.go and x/api/name.go, version.go. `apply_option` is the function that an option is,
--   `new_client` New up to the http client, `list_plugins` ListPlugins from the answer of the service on. The
--   dial functions, the platform's path of the daemon and semver.IsValid are arguments.
-- - CredentialHelper: plugins/credentialhelper/store.go, `default_key_rewriter` is DefaultKeyRewriter and
--   `get_helper_secrets` GetSecrets. What the helper and net.SplitHostPort answer are fields of `Helper`; the
--   list is in the order in which the loop meets the map. The fuel of `replace_schemes` is the length of the
--   text, since each round takes a byte at least.
-- - Tests: runs at concrete inputs, and an instance of each theorem.
--
-- Fuel. `Text.Runes.runes` takes the length of the text as fuel; each rune takes one byte at least.
-- `chunk_blob` takes the length of the blob, and each chunk has a byte at least; `itoa` takes a number over
-- its argument, and each round divides it by ten. The loop of deleteChunks has no bound of its own:
-- `delete_chunks` takes fuel and returns `none` if that is used up, and it is enough if it exceeds the
-- number of chunks. `bump_iterative` gives its loop one more than the length of the queue, from which each
-- round takes a module. All other functions recur on their arguments.
--
-- Not modelled: generated protobuf and connect code, the vendored packages, command line programs, and
-- the parts named in the manifest as not modelled.
pub mod Prelude
pub mod Text
pub mod Maps
pub mod Secrets
pub mod Store
pub mod Keychain
pub mod Resolver
pub mod Realms
pub mod PassPlugin
pub mod Injector
pub mod Posixage
pub mod Release
pub mod Commands
pub mod Flock
pub mod Client
pub mod CredentialHelper
mod Tests

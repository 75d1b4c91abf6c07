-- ===== src/Tests/Windows.antt =====
-- Runs and instances for the keychain store on Windows, over a credential manager that is a map.
use secrets_engine.Keychain.Metadata.{safely_set_id, safely_set_metadata}
use secrets_engine.Keychain.Windows.{
  Credential, KeychainStore, Wincred, element_not_found, credential_not_found, item_label,
  item_chunk_label, map_to_windows_attributes,
}
use secrets_engine.Keychain.Windows.Chunks.{chunk_blob, chunk_blob_lem, concat, FullChunks}
use secrets_engine.Keychain.Windows.Deletion.{HasChunks, delete_lem, delete_clobbers}
use secrets_engine.Keychain.Windows.Manager.{
  IsManager, IsFolded, FoldsCase, IsLabel, IsWithinLimits,
}
use secrets_engine.Keychain.Windows.RoundTrip.{get-save}
use secrets_engine.Keychain.Windows.Store.{save, get, delete, primary_credential, item_attributes}
use secrets_engine.Maps.{Map, put, remove, empty, is_some, elem, IsKeys}
use secrets_engine.Prelude.{
  ℕ, ◌+◌, leb, ◌&&◌, All, ap, ap₂, inl, inr, ◌≡◌, refl, List, [], ◌∷◌, ◌++◌, none, some, ok, err,
  arith, if◌then◌else◌,
}
use secrets_engine.Secrets.Identifier.{parse_id}
use secrets_engine.Store.{SecretType}
use secrets_engine.Store.Contract.{found_or}
use secrets_engine.Tests.Keychain.{
  color, metadata, group, service, item, metadata-IsKeys, metadata-NoClash, item-IsKeys, item_lem,
}
use secrets_engine.Text.{Bytes, codes, equal, equal_iff}
use secrets_engine.Text.Utf8.{ascii-IsUtf8}
use secrets_engine.Keychain.Windows.Writing.{counted}
use secrets_engine.Text.Decimal.{itoa, atoi, pos, negsuc}

abbrev State : Type 0
State = Map Credential

-- Small letters for the capital ones of ASCII.
abbrev lower_byte : ℕ → ℕ
lower_byte c = if leb 65 c && leb c 90 then c + 32 else c

abbrev lower : Bytes → Bytes
lower [] = []
lower (c ∷ s) = lower_byte c ∷ lower s

lower_byte-IsFolded : (c : ℕ) → IsFolded c → lower_byte c ≡ c
lower_byte-IsFolded c (inl h) = ground arith
lower_byte-IsFolded c (inr h) = ground arith

lower-IsFolded : (t : Bytes) → All IsFolded t → lower t ≡ t
lower-IsFolded [] h = refl
lower-IsFolded (c ∷ t) h = ap₂ ◌∷◌ (lower_byte-IsFolded c h.0) (lower-IsFolded t h.1)

lower-FoldsCase : FoldsCase lower
lower-FoldsCase [] t h = lower-IsFolded t h
lower-FoldsCase (c ∷ p) t h = ap (◌∷◌ (lower_byte c)) (lower-FoldsCase p t h)

abbrev map_wincred : Wincred State
map_wincred = record {
  get_generic_credential = λ t s. found_or element_not_found (s (lower t));
  delete_credential =
      λ t s. (if is_some (s (lower t)) then ok tt else err element_not_found, remove (lower t) s);
  write_credential = λ c s. (ok tt, put (lower c.target_name) c s);
}

map_wincred-IsManager : IsManager map_wincred lower (λ s. s) (λ s. Unit {0})
map_wincred-IsManager = record {
  folds = lower-FoldsCase;
  get_view = λ t s h n. refl;
  delete_view = λ t s h n. (refl, tt, λ j. refl);
  write_view = λ c s h b l. (refl, tt, λ j. refl);
}

abbrev widen : Bytes → Bytes
widen [] = []
widen (c ∷ s) = c ∷ 0 ∷ widen s

abbrev narrow : Bytes → Bytes
narrow [] = []
narrow (c ∷ []) = []
narrow (c ∷ d ∷ s) = c ∷ narrow s

abbrev noted_secret : SecretType
noted_secret = record {
  Value = Bytes × Map Bytes;
  marshal = λ v. ok v.0;
  unmarshal = λ b v. ok (b, v.1);
  metadata = λ v. v.1;
  set_metadata = λ m v. ok (v.0, m);
}

abbrev windows_store : KeychainStore State
windows_store = record {
  wincred = map_wincred;
  codec = record { encode = λ b. ok (widen b); decode = λ b. ok (narrow b) };
  secret = noted_secret;
  factory = λ i. ([], empty);
  service_group = group;
  service_name = service;
}

abbrev main_id : Bytes
main_id = codes "db/main"

abbrev item_keys : List Bytes
item_keys = codes "id" ∷ codes "service:name" ∷ codes "x_color" ∷ codes "service:group" ∷ []

all_item-IsKeys : IsKeys item item_keys
all_item-IsKeys = rw item_lem (record {
  visits = λ j. ground (
    arith,
    equal_iff j (codes "x_color"),
    equal_iff (codes "x_color") j,
    equal_iff j (codes "id"),
    equal_iff (codes "id") j,
    equal_iff j (codes "service:name"),
    equal_iff (codes "service:name") j,
    equal_iff j (codes "service:group"),
    equal_iff (codes "service:group") j,
    equal_iff color j,
  );
  once = unfold equal in refl;
})

main-IsLabel : IsLabel (item_label windows_store main_id)
main-IsLabel = (omega arith, ascii-IsUtf8 (item_label windows_store main_id) (ground arith))

main_fits : IsWithinLimits (
    primary_credential windows_store main_id [] item_keys (
      counted
        (widen (codes "pw"))
        (item_attributes windows_store (color ∷ []) main_id (codes "pw", metadata))))
unfolding map_to_windows_attributes safely_set_id safely_set_metadata equal
main_fits = (
  (omega arith, main-IsLabel.1),
  (omega arith, ascii-IsUtf8 main_id (ground arith)),
  omega arith,
  (
    (omega arith, (omega arith, ascii-IsUtf8 (codes "id") (ground arith)), omega arith),
    (
      (omega arith, (omega arith, ascii-IsUtf8 (codes "service:name") (ground arith)), omega arith),
      (
        (omega arith, (omega arith, ascii-IsUtf8 (codes "x_color") (ground arith)), omega arith),
        (
          (
            omega arith,
            (omega arith, ascii-IsUtf8 (codes "service:group") (ground arith)),
            omega arith,
          ),
          tt,
        ),
      ),
    ),
  ),
)

get-save_example :
    (s' : State) × (save windows_store 1 (color ∷ []) item_keys main_id (codes "pw", metadata) empty
      ≡ some (ok tt, s'))
    × (get windows_store (codes "x_color" ∷ []) main_id s' ≡ ok (codes "pw", metadata))
get-save_example =
    get-save windows_store lower (λ s. s) (λ s. Unit {0}) map_wincred-IsManager main_id
      (codes "pw", metadata) (color ∷ []) metadata-IsKeys metadata-NoClash (unfold equal in refl) 1
      0 empty (codes "pw") (widen (codes "pw")) item_keys (codes "x_color" ∷ []) ([], metadata)
      (codes "pw", metadata) tt main-IsLabel main_fits (omega arith) refl (omega arith) refl refl
      (omega arith) all_item-IsKeys item-IsKeys refl refl refl

chunk_blob_lem_example :
    (concat (chunk_blob (codes "abcde") 2) ≡ codes "abcde")
    × FullChunks 2 (chunk_blob (codes "abcde") 2)
chunk_blob_lem_example = chunk_blob_lem (codes "abcde") 2 (omega arith)

chunk_blob_run : chunk_blob (codes "abcde") 2 ≡ codes "ab" ∷ codes "cd" ∷ codes "e" ∷ []
unfolding chunk_blob
chunk_blob_run = refl

atoi_run :
    (atoi (codes "+12") ≡ some (pos 12))
    × (atoi (codes "-3") ≡ some (negsuc 2))
    × (atoi (codes "1x") ≡ none)
    × (itoa 2560 ≡ codes "2560")
unfolding atoi itoa
atoi_run = (refl, refl, refl, refl)

-- the identifier whose credential bears the name of a chunk
abbrev sub_id : Bytes
sub_id = codes "db/main:chunk:0"

sub_id_valid : parse_id sub_id ≡ ok sub_id
unfolding parse_id
sub_id_valid = refl

abbrev sub_credential : Credential
sub_credential = record {
  target_name = item_label windows_store sub_id;
  user_name = sub_id;
  credential_blob = codes "other";
  attributes = [];
}

abbrev two_secrets : State
two_secrets = put (lower (item_label windows_store sub_id)) sub_credential empty

two_secrets-HasChunks : HasChunks windows_store lower main_id two_secrets 0 1
unfolding itoa equal
two_secrets-HasChunks = (refl, refl)

delete_lem_example :
    (s' : State) × (delete windows_store 2 main_id two_secrets ≡ some (ok tt, s'))
    × (Unit {0}
        × ((j : Bytes)
            → s' j ≡ (
                if elem j (
                  lower (item_label windows_store main_id)
                  ∷ lower (item_chunk_label windows_store main_id 0)
                  ∷ [])
                then none
                else two_secrets j)))
delete_lem_example =
    delete_lem windows_store lower (λ s. s) (λ s. Unit {0}) map_wincred-IsManager main_id 2 1
      two_secrets tt main-IsLabel (omega arith) two_secrets-HasChunks (omega arith)

delete_clobbers_example :
    (s' : State) × (delete windows_store 2 main_id two_secrets ≡ some (ok tt, s'))
    × ((keys : List Bytes)
        → get windows_store keys (main_id ++ (codes ":chunk:" ++ itoa 0)) s'
          ≡ err credential_not_found)
delete_clobbers_example =
    delete_clobbers windows_store lower (λ s. s) (λ s. Unit {0}) map_wincred-IsManager main_id 2 1
      two_secrets tt main-IsLabel (omega arith) two_secrets-HasChunks (omega arith)

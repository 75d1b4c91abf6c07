-- ===== src/Posixage/Prompt.antt =====
-- store/posixage/prompt.go: the callbacks that give the keys.
use secrets_engine.Maps.{Map, empty, put}
use secrets_engine.Posixage.{
  KeyType, password_key_type, age_key_type, ssh_key_type, StoreError, prompt_error, empty_key,
}
use secrets_engine.Prelude.{
  ℕ, Bool, ◌&&◌, ◌||◌, List, [], ◌∷◌, ◌++◌, Option, none, some, Result, ok, err, ◌>>=◌, leb, ◌==◌,
  if◌then◌else◌, is_nil,
}
use secrets_engine.Text.{Bytes}

-- `PromptFunc`: what the callback answers. It is called once in an operation.
abbrev pub PromptFunc : Type 0
PromptFunc = Result ℕ Bytes

-- The types of callbacks that can be registered.
pub data PromptCaller : Type 0 where
  encryption_password encryption_age_x25519 encryption_ssh : PromptFunc → PromptCaller
  decryption_password decryption_age_x25519 decryption_ssh : PromptFunc → PromptCaller

abbrev pub prompt_result : PromptFunc → Result StoreError Bytes
prompt_result (err e) = err (prompt_error e)
prompt_result (ok key) = ok key

-- `call`
unfoldable pub call : PromptCaller → Result StoreError Bytes
call (encryption_password f) = prompt_result f
call (encryption_age_x25519 f) = prompt_result f
call (encryption_ssh f) = prompt_result f
call (decryption_password f) = prompt_result f
call (decryption_age_x25519 f) = prompt_result f
call (decryption_ssh f) = prompt_result f

-- `getPromptCallerKeyType`
unfoldable pub get_prompt_caller_key_type : PromptCaller → KeyType
get_prompt_caller_key_type (encryption_password f) = password_key_type
get_prompt_caller_key_type (encryption_age_x25519 f) = age_key_type
get_prompt_caller_key_type (encryption_ssh f) = ssh_key_type
get_prompt_caller_key_type (decryption_password f) = password_key_type
get_prompt_caller_key_type (decryption_age_x25519 f) = age_key_type
get_prompt_caller_key_type (decryption_ssh f) = ssh_key_type

-- The ASCII white space that `bytes.TrimSpace` removes at both ends of a key.
abbrev pub is_space : ℕ → Bool
is_space c = (leb 9 c && leb c 13) || c == 32

trim_space_left : Bytes → Bytes
trim_space_left [] = []
trim_space_left (c ∷ s) = let rest = trim_space_left s in if is_space c then rest else c ∷ s

trim_space_right : Bytes → Bytes
trim_space_right [] = []
trim_space_right (c ∷ s) =
    let rest = trim_space_right s in if is_space c && is_nil rest then [] else c ∷ rest

unfoldable pub trim_space : Bytes → Bytes
unfolding trim_space_left trim_space_right
trim_space s = trim_space_right (trim_space_left s)

abbrev pub keys_of : Option (List Bytes) → List Bytes
keys_of none = []
keys_of (some keys) = keys

-- The groups with a key appended to one of them.
abbrev pub add_key : KeyType → Bytes → Map (List Bytes) → Result StoreError (Map (List Bytes))
add_key group_type raw m =
    if is_nil raw
    then err empty_key
    else ok (put group_type (keys_of (m group_type) ++ (raw ∷ [])) m)

-- The loop of `promptForEncryptionKeys`, from the groups so far.
unfoldable pub prompt_loop :
    List PromptCaller → Map (List Bytes) → Result StoreError (Map (List Bytes))
prompt_loop [] m = ok m
prompt_loop (f ∷ funcs) m = call f >>= (λ raw.
    add_key (get_prompt_caller_key_type f) (trim_space raw) m >>= (λ m'. prompt_loop funcs m'))

-- `promptForEncryptionKeys`
unfoldable pub prompt_for_encryption_keys : List PromptCaller → Result StoreError (Map (List Bytes))
unfolding prompt_loop
prompt_for_encryption_keys funcs = prompt_loop funcs empty

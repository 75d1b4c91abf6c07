-- ===== src/Posixage/Keys.antt =====
-- store/posixage/internal/secretfile/keys.go: recipients and identities.
use secrets_engine.Posixage.{
  KeyType, password_key_type, age_key_type, ssh_key_type, StoreError, age_error, unsupported_type,
  work_factor_out_of_range, Age,
}
use secrets_engine.Prelude.{
  ℕ, List, [], ◌∷◌, ◌||◌, Result, ok, err, ◌>>=◌, ltb, ◌==◌, if◌then◌else◌,
}
use secrets_engine.Text.{Bytes, equal}

-- `MaxScryptWorkFactor`
abbrev pub max_scrypt_work_factor : ℕ
max_scrypt_work_factor = 22

module _ (age : Age) where
  abbrev pub age_result : {A : Type 0} → Result ℕ A → Result StoreError A
  age_result (err e) = err (age_error e)
  age_result (ok a) = ok a

  -- The case of a password in `getRecipient`, once the recipient is made.
  abbrev pub with_work_factor : ℕ → age.Recipient → Result StoreError age.Recipient
  with_work_factor work_factor recipient =
      if work_factor == 0
      then ok recipient
      else if ltb work_factor 1 || ltb max_scrypt_work_factor work_factor
      then err (work_factor_out_of_range work_factor)
      else ok (age.set_work_factor work_factor recipient)

  -- `getRecipient`
  unfoldable pub get_recipient : KeyType → Bytes → ℕ → Result StoreError age.Recipient
  get_recipient k encryption_key work_factor =
      if equal k password_key_type
      then (age_result (age.new_scrypt_recipient encryption_key) >>= with_work_factor work_factor)
      else if equal k age_key_type
      then age_result (age.parse_x25519_recipient encryption_key)
      else if equal k ssh_key_type
      then age_result (age.parse_ssh_recipient encryption_key)
      else err (unsupported_type k)

  -- `GetRecipients`
  unfoldable pub get_recipients : KeyType → List Bytes → ℕ → Result StoreError (List age.Recipient)
  get_recipients k [] work_factor = ok []
  get_recipients k (encryption_key ∷ encryption_keys) work_factor =
      get_recipient k encryption_key work_factor >>= (λ recipient.
        get_recipients k encryption_keys work_factor
        >>= (λ recipients. ok (recipient ∷ recipients)))

  -- `GetIdentity`
  unfoldable pub get_identity : KeyType → Bytes → Result StoreError age.Identity
  get_identity k decryption_key =
      if equal k password_key_type
      then age_result (age.new_scrypt_identity decryption_key)
      else if equal k age_key_type
      then age_result (age.parse_x25519_identity decryption_key)
      else if equal k ssh_key_type
      then age_result (age.parse_ssh_identity decryption_key)
      else err (unsupported_type k)

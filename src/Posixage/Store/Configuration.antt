-- ===== src/Posixage/Store/Configuration.antt =====
-- store/posixage/store.go: what a configuration that `New` accepts is like.
use secrets_engine.Posixage.{password_key_type, StoreError, Age}
use secrets_engine.Posixage.Keys.{
  age_result, with_work_factor, get_recipient, max_scrypt_work_factor,
}
use secrets_engine.Posixage.Store.{
  Config, Options, with_scrypt_work_factor, with_encryption_callback_func,
  with_decryption_callback_func, apply_option, apply_options, check_config, new_config,
}
use secrets_engine.Prelude.{
  ℕ, ◌≡◌, refl, ◌||◌, ◌&&◌, true, false, List, [], ◌∷◌, Result, ok, err, ◌>>=◌, ltb, leb, ◌==◌,
  if◌then◌else◌, is_nil, arith, Bool-cases, inl, inr,
}
use secrets_engine.Text.{Bytes, equal}

-- The work factor is 0, which stands for that of the package age, or from 1 to 22.
abbrev pub HasWorkFactor : ℕ → Type 0
HasWorkFactor n = (n == 0 || (leb 1 n && leb n max_scrypt_work_factor)) ≡ true

abbrev IsBounded : Result StoreError Config → Type 0
IsBounded (err e) = Unit
IsBounded (ok c) = HasWorkFactor c.scrypt_work_factor

apply_option-IsBounded :
    (opt : Options) (c : Config)
    → HasWorkFactor c.scrypt_work_factor
    → IsBounded (apply_option opt c)
unfolding apply_option
apply_option-IsBounded (with_scrypt_work_factor log_n) c h =
    elim (Bool-cases (ltb log_n 1 || ltb max_scrypt_work_factor log_n)) [
      | inl e ↦ rw e tt
      | inr e ↦ rw e (ground arith)
    ]
apply_option-IsBounded (with_encryption_callback_func callback) c h = h
apply_option-IsBounded (with_decryption_callback_func callback) c h = h

bind-IsBounded :
    (r : Result StoreError Config) (next : Config → Result StoreError Config)
    → IsBounded r
    → ((c : Config) → HasWorkFactor c.scrypt_work_factor → IsBounded (next c))
    → IsBounded (r >>= next)
bind-IsBounded (err e) next h k = tt
bind-IsBounded (ok c) next h k = k c h

apply_options-IsBounded :
    (opts : List Options) (c : Config)
    → HasWorkFactor c.scrypt_work_factor
    → IsBounded (apply_options opts c)
unfolding apply_options
apply_options-IsBounded [] c h = h
apply_options-IsBounded (opt ∷ opts) c h =
    bind-IsBounded (apply_option opt c) (apply_options opts) (apply_option-IsBounded opt c h)
      (apply_options-IsBounded opts)

-- What `New` accepts.
abbrev pub IsUsable : Config → Type 0
IsUsable c =
    HasWorkFactor c.scrypt_work_factor
    × (is_nil c.registered_encryption_funcs ≡ false)
    × (is_nil c.registered_decryption_func ≡ false)

abbrev Accepted : Result StoreError Config → Type 0
Accepted (err e) = Unit
Accepted (ok c) = IsUsable c

check_config-Accepted :
    (c : Config) → HasWorkFactor c.scrypt_work_factor → Accepted (check_config c)
check_config-Accepted c h = elim (Bool-cases (is_nil c.registered_encryption_funcs)) [
  | inl e ↦ rw e tt
  | inr e ↦ elim (Bool-cases (is_nil c.registered_decryption_func)) [
    | inl d ↦ rw (e, d) tt
    | inr d ↦ rw (e, d) (h, e, d)
  ]
]

new_config-Accepted : (opts : List Options) → Accepted (new_config opts)
unfolding new_config
new_config-Accepted opts =
    checked (apply_options opts start) (apply_options-IsBounded opts start refl)
  where
    start : Config
    start = record {
      registered_decryption_func = [];
      registered_encryption_funcs = [];
      scrypt_work_factor = 0;
    }

    checked : (r : Result StoreError Config) → IsBounded r → Accepted (r >>= check_config)
    checked (err e) k = tt
    checked (ok c) k = check_config-Accepted c k

with_work_factor-in_range :
    (age : Age) (n : ℕ) (recipient : age.Recipient)
    → HasWorkFactor n
    → with_work_factor age n recipient
      ≡ ok (if n == 0 then recipient else age.set_work_factor n recipient)
with_work_factor-in_range age n recipient h = ground arith

-- Let `New` accept the options. Then there is a callback of either kind, the work factor is 0 or from 1
-- to 22, and `getRecipient` never refuses it: it sets it on the recipient for a password unless it is 0,
-- and returns no error but that of the package age.
pub new_config-get_recipient :
    (age : Age) (opts : List Options) (c : Config) (key : Bytes)
    → new_config opts ≡ ok c
    → IsUsable c
      × (get_recipient age password_key_type key c.scrypt_work_factor ≡ (
          age_result age (age.new_scrypt_recipient key) >>= (λ recipient. ok (
            if c.scrypt_work_factor == 0
            then recipient
            else age.set_work_factor c.scrypt_work_factor recipient))))
unfolding get_recipient equal
new_config-get_recipient age opts c key e =
    let usable = rw e at (new_config-Accepted opts) in
    (usable, made (age.new_scrypt_recipient key) usable.0)
  where
    made :
        (r : Result ℕ age.Recipient)
        → HasWorkFactor c.scrypt_work_factor
        → (age_result age r >>= with_work_factor age c.scrypt_work_factor) ≡ (
            age_result age r >>= (λ recipient. ok (
              if c.scrypt_work_factor == 0
              then recipient
              else age.set_work_factor c.scrypt_work_factor recipient)))
    made (err k) h = refl
    made (ok recipient) h = with_work_factor-in_range age c.scrypt_work_factor recipient h

-- ===== src/Keychain/Windows/Manager.antt =====
-- The documented behaviour of the Windows Credential Manager, as store/keychain/keychain_windows.go
-- relies on it, and the target names that the store gives to its credentials.
use mathlib.Core.List.{append_assoc}
use secrets_engine.Keychain.Windows.{
  Credential, CredentialAttribute, element_not_found, Wincred, KeychainStore, max_blob_size,
  item_label, item_chunk_label,
}
use secrets_engine.Maps.{Map, put, remove, is_some}
use secrets_engine.Prelude.{
  ℕ, ◌≤◌, ◌≡◌, sym, ap, ◌∙◌, ◌≢◌, ◌⊎◌, inl, inr, All, All-append, All-map, [], ◌∷◌, ◌++◌, ok, err,
  arith, if◌then◌else◌, length, length-append,
}
use secrets_engine.Secrets.Identifier.{SecretId}
use secrets_engine.Store.Contract.{found_or}
use secrets_engine.Text.{Bytes, codes}
use secrets_engine.Text.Utf8.{IsUtf8, IsUtf8-append, ascii-IsUtf8}
use secrets_engine.Text.Decimal.{itoa, itoa_inj, IsDigit, itoa-IsDigit, length-itoa}

-- A byte of ASCII that is no upper-case letter.
abbrev pub IsFolded : ℕ → Type 0
IsFolded c = (c ≤ 64) ⊎ ((91 ≤ c) × (c ≤ 127))

-- Target names are compared without regard to case: two of them are the same if `fold` gives the same for
-- both. It goes character by character and makes letters small, so it leaves folded ASCII at the end alone.
abbrev pub FoldsCase : (Bytes → Bytes) → Type 0
FoldsCase fold = (p t : Bytes) → All IsFolded t → fold (p ++ t) ≡ fold p ++ t

-- A text of at most so many bytes in UTF-8, none of them zero.
abbrev pub IsText : ℕ → Bytes → Type 0
IsText bound s = (length s ≤ bound) × IsUtf8 s

-- A target name within the documented limit.
abbrev pub IsTargetName : Bytes → Type 0
IsTargetName = IsText 32767

abbrev pub AttributeFits : CredentialAttribute → Type 0
AttributeFits a = (1 ≤ length a.keyword) × IsText 256 a.keyword × (length a.value ≤ 256)

-- The limits that are documented for a `CREDENTIAL`, in bytes, besides that of the blob: on the target name,
-- the user name, the number of the attributes, and their keywords and values.
abbrev pub IsWithinLimits : Credential → Type 0
IsWithinLimits c =
    IsTargetName c.target_name
    × IsText 513 c.user_name
    × (length c.attributes ≤ 64)
    × All AttributeFits c.attributes

-- The credential manager as a map from folded target names to generic credentials, which `view` reads from
-- a state. A healthy state fails no call, but for a credential over a limit of the system.
pub record IsManager {S : Type 0} (wincred : Wincred S) (fold : Bytes → Bytes)
    (view : S → Map Credential) (IsHealthy : S → Type 0) : Type 0 where
  pub folds : FoldsCase fold
  pub get_view :
      (t : Bytes) (s : S)
      → IsHealthy s
      → IsTargetName t
      → wincred.get_generic_credential t s ≡ found_or element_not_found (view s (fold t))
  pub delete_view :
      (t : Bytes) (s : S)
      → IsHealthy s
      → IsTargetName t
      → ((wincred.delete_credential t s).0
          ≡ (if is_some (view s (fold t)) then ok tt else err element_not_found))
        × IsHealthy (wincred.delete_credential t s).1
        × ((j : Bytes) → view (wincred.delete_credential t s).1 j ≡ remove (fold t) (view s) j)
  pub write_view :
      (c : Credential) (s : S)
      → IsHealthy s
      → length c.credential_blob ≤ max_blob_size
      → IsWithinLimits c
      → ((wincred.write_credential c s).0 ≡ ok tt)
        × IsHealthy (wincred.write_credential c s).1
        × ((j : Bytes)
            → view (wincred.write_credential c s).1 j ≡ put (fold c.target_name) c (view s) j)

append_cancel : (p s t : Bytes) → p ++ s ≡ p ++ t → s ≡ t
append_cancel [] s t e = e
append_cancel (x ∷ p) s t e = append_cancel p s t (cc e)

module _ {S : Type 0} (k : KeychainStore S) where
  -- The identifier whose primary credential has the name of a chunk.
  pub item_label_chunk :
      (i : SecretId) (n : ℕ)
      → item_label k (i ++ (codes ":chunk:" ++ itoa n)) ≡ item_chunk_label k i n
  item_label_chunk i n = simp append_assoc

chunk_suffix-IsFolded : (n : ℕ) → All IsFolded (codes ":chunk:" ++ itoa n)
chunk_suffix-IsFolded n =
    All-append IsFolded (codes ":chunk:") (itoa n)
      (
        inl (omega arith),
        (
          inr (omega arith, omega arith),
          (
            inr (omega arith, omega arith),
            (
              inr (omega arith, omega arith),
              (
                inr (omega arith, omega arith),
                (inr (omega arith, omega arith), (inl (omega arith), tt)),
              ),
            ),
          ),
        ),
      )
      (All-map IsDigit IsFolded (λ c d. inl (omega arith)) (itoa n) (itoa-IsDigit n))

-- The label of a secret leaves room for the suffix of a chunk.
abbrev pub IsLabel : Bytes → Type 0
IsLabel = IsText 32000

pub IsLabel-IsTargetName : (label : Bytes) → IsLabel label → IsTargetName label
IsLabel-IsTargetName label h = (omega (arith, h.0), h.1)

pub chunk-IsTargetName :
    {S : Type 0} (k : KeychainStore S) (i : SecretId) (n : ℕ)
    → IsLabel (item_label k i)
    → n ≤ 9223372036854775807
    → IsTargetName (item_chunk_label k i n)
chunk-IsTargetName k i n h b = (
  omega (arith, h.0, length-itoa n b, length-append (item_label k i) (codes ":chunk:" ++ itoa n)),
  IsUtf8-append (item_label k i) (codes ":chunk:" ++ itoa n) h.1 (
      IsUtf8-append (codes ":chunk:") (itoa n) (ascii-IsUtf8 (codes ":chunk:") (ground arith)) (
        ascii-IsUtf8 (itoa n) (
          All-map IsDigit (λ c. (1 ≤ c) × (c ≤ 0x7F)) (λ c d. (omega arith, omega arith)) (itoa n)
            (itoa-IsDigit n)))),
)

module _ {S : Type 0} (k : KeychainStore S) (fold : Bytes → Bytes) where
  -- The folded target name of a secret's primary credential.
  abbrev pub primary_name : SecretId → Bytes
  primary_name i = fold (item_label k i)

  -- The folded target name of a chunk.
  abbrev pub chunk_name : SecretId → ℕ → Bytes
  chunk_name i n = fold (item_chunk_label k i n)

  chunk_name_lem :
      FoldsCase fold
      → (i : SecretId) (n : ℕ) → chunk_name i n ≡ primary_name i ++ (codes ":chunk:" ++ itoa n)
  chunk_name_lem folds i n =
      folds (item_label k i) (codes ":chunk:" ++ itoa n) (chunk_suffix-IsFolded n)

  pub chunk_name_inj :
      FoldsCase fold → (i : SecretId) (m n : ℕ) → chunk_name i m ≡ chunk_name i n → m ≡ n
  chunk_name_inj folds i m n e = itoa_inj m n (
      append_cancel (codes ":chunk:") _ _ (
        append_cancel (primary_name i) _ _
          (sym (chunk_name_lem folds i m) ∙ e ∙ chunk_name_lem folds i n)))

  pub primary_name-ne-chunk_name :
      FoldsCase fold → (i : SecretId) (n : ℕ) → primary_name i ≢ chunk_name i n
  primary_name-ne-chunk_name folds i n e = omega (
    arith,
    ap length (e ∙ chunk_name_lem folds i n),
    length-append (primary_name i) (codes ":chunk:" ++ itoa n),
  )

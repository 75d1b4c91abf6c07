-- ===== src/Keychain/Windows/Chunks.antt =====
-- store/keychain/keychain_windows.go: a blob in pieces of a bounded size.
use secrets_engine.Prelude.{
  ℕ, zero, suc, ◌+◌, ◌≤◌, min, ◌≡◌, refl, ap, ◌∙◌, List, [], ◌∷◌, ◌++◌, arith, length, take, drop,
  take-append-drop, length-drop, length-take,
}
use secrets_engine.Text.{Bytes}

chunk_fuel : ℕ → Bytes → ℕ → List Bytes
chunk_fuel zero blob size = []
chunk_fuel (suc f) [] size = []
chunk_fuel (suc f) (b ∷ blob) size =
    let n = min size (length (b ∷ blob)) in
    take n (b ∷ blob) ∷ chunk_fuel f (drop n (b ∷ blob)) size

-- `chunkBlob`; each round takes a byte at least, if the size is not 0.
unfoldable pub chunk_blob : Bytes → ℕ → List Bytes
unfolding chunk_fuel
chunk_blob blob size = chunk_fuel (length blob) blob size

abbrev pub concat : List Bytes → Bytes
concat [] = []
concat (c ∷ cs) = c ++ concat cs

concat-chunk_fuel :
    (f : ℕ) (blob : Bytes) (size : ℕ)
    → 1 ≤ size
    → length blob ≤ f
    → concat (chunk_fuel f blob size) ≡ blob
unfolding chunk_fuel
concat-chunk_fuel zero [] size p h = refl
concat-chunk_fuel zero (b ∷ blob) size p h = absurd (omega arith)
concat-chunk_fuel (suc f) [] size p h = refl
concat-chunk_fuel (suc f) (b ∷ blob) size p h =
    let n = min size (length (b ∷ blob)) in
    ap (λ (t : Bytes). take n (b ∷ blob) ++ t)
      (concat-chunk_fuel f (drop n (b ∷ blob)) size p (omega (arith, length-drop n (b ∷ blob))))
    ∙ take-append-drop n (b ∷ blob)

-- All chunks but the last have exactly the size, and the last has between one byte and the size.
abbrev pub FullChunks : ℕ → List Bytes → Type 0
FullChunks size [] = Unit
FullChunks size (c ∷ []) = (1 ≤ length c) × (length c ≤ size)
FullChunks size (c ∷ d ∷ cs) = (length c ≡ size) × FullChunks size (d ∷ cs)

FullChunks-cons :
    (size : ℕ) (c rest : Bytes) (f : ℕ)
    → 1 ≤ size
    → length c ≡ min size (length c + length rest)
    → 1 ≤ length c
    → FullChunks size (chunk_fuel f rest size)
    → FullChunks size (c ∷ chunk_fuel f rest size)
unfolding chunk_fuel
FullChunks-cons size c rest zero p e q h = (q, omega arith)
FullChunks-cons size c [] (suc f) p e q h = (q, omega arith)
FullChunks-cons size c (b ∷ rest) (suc f) p e q h = (omega arith, h)

chunk_fuel-FullChunks :
    (f : ℕ) (blob : Bytes) (size : ℕ) → 1 ≤ size → FullChunks size (chunk_fuel f blob size)
unfolding chunk_fuel
chunk_fuel-FullChunks zero blob size p = tt
chunk_fuel-FullChunks (suc f) [] size p = tt
chunk_fuel-FullChunks (suc f) (b ∷ blob) size p =
    let n = min size (length (b ∷ blob)) in
    FullChunks-cons size (take n (b ∷ blob)) (drop n (b ∷ blob)) f p
      (omega (arith, length-take n (b ∷ blob), length-drop n (b ∷ blob)))
      (omega (arith, length-take n (b ∷ blob))) (chunk_fuel-FullChunks f (drop n (b ∷ blob)) size p)

-- For a size that is not 0, the chunks of a blob joined are the blob; each chunk but the last has
-- exactly the size, and the last has between one byte and the size.
pub chunk_blob_lem :
    (blob : Bytes) (size : ℕ)
    → 1 ≤ size
    → (concat (chunk_blob blob size) ≡ blob) × FullChunks size (chunk_blob blob size)
unfolding chunk_blob
chunk_blob_lem blob size p = (
  concat-chunk_fuel (length blob) blob size p (omega arith),
  chunk_fuel-FullChunks (length blob) blob size p,
)

length-chunk_fuel : (f : ℕ) (blob : Bytes) (size : ℕ) → length (chunk_fuel f blob size) ≤ f
unfolding chunk_fuel
length-chunk_fuel zero blob size = omega arith
length-chunk_fuel (suc f) [] size = omega arith
length-chunk_fuel (suc f) (b ∷ blob) size = omega (arith, length-chunk_fuel f _ size)

-- There are no more chunks than bytes.
pub length-chunk_blob : (blob : Bytes) (size : ℕ) → length (chunk_blob blob size) ≤ length blob
unfolding chunk_blob
length-chunk_blob blob size = length-chunk_fuel (length blob) blob size

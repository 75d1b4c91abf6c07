-- ===== src/Release/Project/Requirements.antt =====
-- x/release/command.go: the requirement whose version `BumpModInFile` changes.
use secrets_engine.Prelude.{
  ◌≡◌, ◌⊎◌, refl, true, false, List, [], ◌∷◌, ◌++◌, Bool-cases, inl, inr, All,
}
use secrets_engine.Release.Project.{Requirement, bump_requirements}
use secrets_engine.Text.{Bytes}
use secrets_engine.Text.Search.{has_prefix, has_prefix-append}

-- A requirement that the loop passes over.
abbrev pub IsOther : Bytes → Requirement → Type 0
IsOther m r = (r.indirect ≡ true) ⊎ (has_prefix m r.path ≡ false)

-- The loop changes the version of the first direct requirement whose path begins with the module's path,
-- whatever follows there, so also when the path goes on and is that of another module. It changes no
-- other requirement.
pub bump_requirements_first :
    (m v rest : Bytes) (before : List Requirement) (r : Requirement) (after : List Requirement)
    → All (IsOther m) before
    → r.indirect ≡ false
    → r.path ≡ m ++ rest
    → bump_requirements m v (before ++ (r ∷ after))
      ≡ (true, before ++ (record r { version = v } ∷ after))
unfolding bump_requirements
bump_requirements_first m v rest [] r after h d e = rw (d, e, has_prefix-append m rest) refl
bump_requirements_first m v rest (b ∷ before) r after h d e = elim h.0 [
  | inl i ↦ rw (i, bump_requirements_first m v rest before r after h.1 d e) refl
  | inr n ↦ elim (Bool-cases b.indirect) [
    | inl i ↦ rw (i, bump_requirements_first m v rest before r after h.1 d e) refl
    | inr i ↦ rw (i, n, bump_requirements_first m v rest before r after h.1 d e) refl
  ]
]

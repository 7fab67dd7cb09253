-- ===== src/Prelude/Numbered.antt =====
-- The entries of a `Map` whose keys are numbers.
use wardx.Prelude.{eqb, if◌then◌else◌, ℕ, ◌≡◌, refl, Option, none, some, List, [], ◌∷◌, arith}

module _ {ℓ} {A : Type ℓ} where
  unfoldable pub find_at : ℕ → List (ℕ × A) → Option A
  find_at key [] = none
  find_at key ((k, a) ∷ entries) = if eqb k key then some a else find_at key entries

  unfoldable pub put_at : ℕ → A → List (ℕ × A) → List (ℕ × A)
  put_at key a [] = (key, a) ∷ []
  put_at key a ((k, b) ∷ entries) =
      if eqb k key then (k, a) ∷ entries else (k, b) ∷ put_at key a entries

  pub find_at-put_at :
      (key j : ℕ) (a : A) (entries : List (ℕ × A))
      → find_at j (put_at key a entries) ≡ (if eqb key j then some a else find_at j entries)
  unfolding find_at put_at
  find_at-put_at key j a [] = refl
  find_at-put_at key j a ((k, b) ∷ entries) = ground (arith, find_at-put_at key j a entries)

  -- `delete`
  unfoldable pub remove_at : ℕ → List (ℕ × A) → List (ℕ × A)
  remove_at key [] = []
  remove_at key ((k, a) ∷ entries) =
      let rest = remove_at key entries in if eqb k key then rest else (k, a) ∷ rest

  pub find_at-remove_at :
      (key : ℕ) (entries : List (ℕ × A)) → find_at key (remove_at key entries) ≡ none
  unfolding find_at remove_at
  find_at-remove_at key [] = refl
  find_at-remove_at key ((k, a) ∷ entries) = ground (arith, find_at-remove_at key entries)

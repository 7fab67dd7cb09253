-- ===== src/Prelude/Entries.antt =====
-- The entries of a `Map` whose keys are texts.
use wardx.Prelude.{
  if◌then◌else◌, Bool-cases, some-injective, length, ◌+◌, String, ◌≡◌, refl, subst, inl, inr, Bool,
  false, ◌||◌, Option, none, some, List, [], ◌∷◌, arith, ◌==◌, eq_iff,
}

-- `has` of a `Set` of texts, and `includes` of an array of them.
abbrev pub contains : List String → String → Bool
contains [] s = false
contains (x ∷ xs) s = (x == s) || contains xs s

module _ {ℓ} {A : Type ℓ} where
  -- `get`
  unfoldable pub find : String → List (String × A) → Option A
  find key [] = none
  find key ((k, a) ∷ entries) = if k == key then some a else find key entries

  -- `set`: a key that is there keeps its place.
  unfoldable pub put : String → A → List (String × A) → List (String × A)
  put key a [] = (key, a) ∷ []
  put key a ((k, b) ∷ entries) = if k == key then (k, a) ∷ entries else (k, b) ∷ put key a entries

  -- Each entry but those before it has another key.
  abbrev pub Misses : String → List (String × A) → Type 0
  Misses key [] = Unit {0}
  Misses key ((k, a) ∷ entries) = ((k == key) ≡ false) × Misses key entries

  abbrev pub Distinct : List (String × A) → Type 0
  Distinct [] = Unit {0}
  Distinct ((k, a) ∷ entries) = Misses k entries × Distinct entries

  pub find-put :
      (key j : String) (a : A) (entries : List (String × A))
      → find j (put key a entries) ≡ (if key == j then some a else find j entries)
  unfolding find put
  find-put key j a [] = refl
  find-put key j a ((k, b) ∷ entries) =
      ground (arith, eq_iff k key, eq_iff k j, eq_iff key j, find-put key j a entries)

  pub Misses-put :
      (key j : String) (a : A) (entries : List (String × A))
      → (key == j) ≡ false
      → Misses j entries
      → Misses j (put key a entries)
  unfolding put
  Misses-put key j a [] e m = (e, tt)
  Misses-put key j a ((k, b) ∷ entries) e m = ground (arith, Misses-put key j a entries)

  pub put-Distinct :
      (key : String) (a : A) (entries : List (String × A))
      → Distinct entries
      → Distinct (put key a entries)
  unfolding put
  put-Distinct key a [] d = (tt, tt)
  put-Distinct key a ((k, b) ∷ entries) d =
      ground
        (arith, eq_iff k key, eq_iff key k, put-Distinct key a entries, Misses-put key k a entries)

  -- A key that is not there makes one entry more.
  pub length-put :
      (key : String) (a : A) (entries : List (String × A))
      → length (put key a entries)
        ≡ elim (find key entries) [ none ↦ length entries + 1 | some b ↦ length entries ]
  unfolding find put
  length-put key a [] = omega arith
  length-put key a ((k, b) ∷ entries) = ground (arith, length-put key a entries)

  pub length-put_new :
      (key : String) (a : A) (entries : List (String × A))
      → find key entries ≡ none
      → length (put key a entries) ≡ length entries + 1
  length-put_new key a entries e = rw e at (length-put key a entries)

  pub length-put_old :
      (key : String) (a b : A) (entries : List (String × A))
      → find key entries ≡ some b
      → length (put key a entries) ≡ length entries
  length-put_old key a b entries e = rw e at (length-put key a entries)

  pub put-same :
      (key : String) (a : A) (entries : List (String × A))
      → find key entries ≡ some a
      → put key a entries ≡ entries
  unfolding find put
  put-same key a [] h = absurd (cc h)
  put-same key a ((k, b) ∷ entries) h = ground (arith, put-same key a entries)

  abbrev pub AllValues : (A → Type 0) → List (String × A) → Type 0
  AllValues P [] = Unit {0}
  AllValues P ((k, a) ∷ entries) = P a × AllValues P entries

  pub AllValues-put :
      (P : A → Type 0) (key : String) (a : A) (entries : List (String × A))
      → P a
      → AllValues P entries
      → AllValues P (put key a entries)
  unfolding put
  AllValues-put P key a [] p h = (p, tt)
  AllValues-put P key a ((k, b) ∷ entries) p h = elim (Bool-cases (k == key)) [
    | inl here ↦ rw here (p, h.1)
    | inr other ↦ rw other (h.0, AllValues-put P key a entries p h.1)
  ]

  pub AllValues-find :
      (P : A → Type 0) (key : String) (a : A) (entries : List (String × A))
      → find key entries ≡ some a
      → AllValues P entries
      → P a
  unfolding find
  AllValues-find P key a [] e h = absurd (cc e)
  AllValues-find P key a ((k, b) ∷ entries) e h = elim (Bool-cases (k == key)) [
    | inl here ↦ subst P (some-injective (rw here at e)) h.0
    | inr other ↦ AllValues-find P key a entries (rw other at e) h.1
  ]

  pub AllValues-imp :
      (P Q : A → Type 0) (entries : List (String × A))
      → ((a : A) → P a → Q a)
      → AllValues P entries
      → AllValues Q entries
  AllValues-imp P Q [] f h = tt
  AllValues-imp P Q ((k, a) ∷ entries) f h = (f a h.0, AllValues-imp P Q entries f h.1)

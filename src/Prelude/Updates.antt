-- ===== src/Prelude/Updates.antt =====
-- The entries of a `Map` that are written over those of another.
use wardx.Prelude.{
  if◌then◌else◌, Bool-cases, String, ◌≡◌, refl, sym, ap, ◌∙◌, subst, inl, inr, false, Option, none,
  some, List, [], ◌∷◌, arith, ◌==◌, eq_iff, eq_refl,
}
use wardx.Prelude.Entries.{find, put, Misses, Distinct, find-put}

-- `a ?? b`
abbrev pub or_else {ℓ} : {A : Type ℓ} → Option A → Option A → Option A
or_else none other = other
or_else (some a) other = some a

module _ {ℓ} {A : Type ℓ} where
  -- `for (const [key, value] of updates) entries.set(key, value)`
  unfoldable pub put_all : List (String × A) → List (String × A) → List (String × A)
  put_all [] entries = entries
  put_all ((key, a) ∷ updates) entries = put_all updates (put key a entries)

  put_again :
      (key : String) (a b : A) (entries : List (String × A))
      → put key a (put key b entries) ≡ put key a entries
  unfolding put
  put_again key a b [] = ground (arith, eq_refl key)
  put_again key a b ((k, c) ∷ entries) = ground (arith, eq_refl key, put_again key a b entries)

  put_swap :
      (key j : String) (a b c : A) (entries : List (String × A))
      → find key entries ≡ some c
      → (key == j) ≡ false
      → put key a (put j b entries) ≡ put j b (put key a entries)
  unfolding find put
  put_swap key j a b c [] h e = absurd (cc h)
  put_swap key j a b c ((k, d) ∷ entries) h e =
      ground (arith, eq_iff k key, eq_iff k j, eq_iff key j, put_swap key j a b c entries)

  find-Misses :
      (key : String) (entries : List (String × A)) → Misses key entries → find key entries ≡ none
  unfolding find
  find-Misses key [] m = refl
  find-Misses key ((k, a) ∷ entries) m = ground (arith, find-Misses key entries m.1)

  put_all-over :
      (key : String) (a b : A) (updates entries : List (String × A))
      → find key entries ≡ some b
      → Misses key updates
      → put_all updates (put key a entries) ≡ put key a (put_all updates entries)
  unfolding put_all
  put_all-over key a b [] entries h m = refl
  put_all-over key a b ((j, c) ∷ updates) entries h m =
      ap (λ e. put_all updates e)
        (sym (put_swap key j a c b entries h (ground (arith, m.0, eq_iff j key, eq_iff key j))))
      ∙ put_all-over key a b updates (put j c entries)
          (ground (arith, find-put j key c entries, h, m.0)) m.1

  over_first :
      (key k : String) (a b : A) (updates entries : List (String × A))
      → key ≡ k
      → Misses k updates
      → put_all updates (put k a entries) ≡ put key a (put_all updates (put k b entries))
  over_first key k a b updates entries same m =
      ap (λ e. put_all updates e) (sym (put_again k a b entries))
      ∙ (put_all-over k a b updates (put k b entries)
            (ground (arith, find-put k k b entries, eq_refl k)) m
          ∙ ap (λ j. put j a (put_all updates (put k b entries))) (sym same))

  pub put_all-put :
      (key : String) (a : A) (updates entries : List (String × A))
      → Distinct updates
      → put_all (put key a updates) entries ≡ put key a (put_all updates entries)
  unfolding put_all put
  put_all-put key a [] entries d = refl
  put_all-put key a ((k, b) ∷ updates) entries d = elim (Bool-cases (k == key)) [
    | inl here ↦ rw here (over_first key k a b updates entries (sym ((eq_iff k key).0 here)) d.0)
    | inr other ↦ rw other (put_all-put key a updates (put k b entries) d.1)
  ]

  pub find-put_all :
      (key : String) (updates entries : List (String × A))
      → Distinct updates
      → find key (put_all updates entries) ≡ or_else (find key updates) (find key entries)
  unfolding put_all find
  find-put_all key [] entries d = refl
  find-put_all key ((k, a) ∷ updates) entries d =
      find-put_all key updates (put k a entries) d.1
      ∙ (ap (λ o. or_else (find key updates) o) (find-put k key a entries) ∙ first)
    where
      first :
          or_else (find key updates) (if k == key then some a else find key entries)
          ≡ or_else (if k == key then some a else find key updates) (find key entries)
      first = elim (Bool-cases (k == key)) [
        | inl here ↦
            rw
              (
                here,
                find-Misses key updates (subst (λ j. Misses j updates) ((eq_iff k key).0 here) d.0),
              )
              refl
        | inr other ↦ rw other refl
      ]

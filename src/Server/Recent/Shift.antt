-- ===== src/Server/Recent/Shift.antt =====
-- `while (list.length > max) list.shift();`
use mathlib.Core.List.{reverse, reverse-append}
use wardx.Prelude.{
  ltb, if◌then◌else◌, tests, Bool-cases, length, take, drop, length-append, length-drop, take_all,
  ℕ, zero, suc, ◌-◌, ◌≤◌, max, ◌≡◌, refl, sym, ap, ◌∙◌, inl, inr, List, [], ◌∷◌, ◌++◌, arith,
}

module _ {ℓ} {A : Type ℓ} where
  pub shift_to : ℕ → List A → List A
  shift_to max [] = []
  shift_to max (x ∷ xs) =
      let rest = shift_to max xs in if ltb max (length (x ∷ xs)) then rest else x ∷ xs

  drop-nil : (n : ℕ) → drop {A = A} n [] ≡ []
  drop-nil zero = refl
  drop-nil (suc n) = refl

  -- What is left are the last `max` elements.
  pub shift_to-eq_drop : (max : ℕ) (xs : List A) → shift_to max xs ≡ drop (length xs - max) xs
  unfolding shift_to
  shift_to-eq_drop max [] = sym (drop-nil (0 - max))
  shift_to-eq_drop max (x ∷ xs) = elim (Bool-cases (ltb max (length (x ∷ xs)))) [
    | inl long ↦ rw long (
        shift_to-eq_drop max xs
        ∙ ap (λ n. drop n (x ∷ xs)) {x = suc (length xs - max)} {y = length (x ∷ xs) - max}
            (omega (tests, long)))
    | inr short ↦
        rw short
          (ap (λ n. drop n (x ∷ xs)) {x = 0} {y = length (x ∷ xs) - max} (omega (tests, short)))
  ]

  pub length-shift_to : (max : ℕ) (xs : List A) → length (shift_to max xs) ≤ max
  length-shift_to max xs = omega (
    arith,
    ap (λ (l : List A). length l) (shift_to-eq_drop max xs),
    length-drop (length xs - max) xs,
  )

  pub shift_to-short : (max : ℕ) (xs : List A) → length xs ≤ max → shift_to max xs ≡ xs
  unfolding shift_to
  shift_to-short max [] h = refl
  shift_to-short max (x ∷ xs) h = ground arith

  pub shift_to-append :
      (max : ℕ) (xs ys : List A) → shift_to max (shift_to max xs ++ ys) ≡ shift_to max (xs ++ ys)
  unfolding shift_to
  shift_to-append max [] ys = refl
  shift_to-append max (x ∷ xs) ys = elim (Bool-cases (ltb max (length (x ∷ xs)))) [
    | inl long ↦ ground (arith, long, shift_to-append max xs ys, length-append xs ys)
    | inr short ↦ rw short
  ]

  length-reverse : (xs : List A) → length (reverse xs) ≡ length xs
  length-reverse [] = refl
  length-reverse (x ∷ xs) =
      ap (λ (l : List A). length l) (reverse-append (x ∷ []) xs)
      ∙ omega (arith, length-append (reverse xs) (x ∷ []), length-reverse xs)

  take-append : (n : ℕ) (xs ys : List A) → n ≤ length xs → take n (xs ++ ys) ≡ take n xs
  take-append zero xs ys h = refl
  take-append (suc n) [] ys h = absurd (omega (arith, h))
  take-append (suc n) (x ∷ xs) ys h = ap (λ l. x ∷ l) (take-append n xs ys (omega (arith, h)))

  -- Read from the end, the first `max` elements are left.
  pub reverse-shift_to : (max : ℕ) (xs : List A) → reverse (shift_to max xs) ≡ take max (reverse xs)
  unfolding shift_to
  reverse-shift_to max [] = sym (take_all max [] (omega arith))
  reverse-shift_to max (x ∷ xs) = elim (Bool-cases (ltb max (length (x ∷ xs)))) [
    | inl long ↦ rw long (
        reverse-shift_to max xs
        ∙ sym (
            ap (take max) (reverse-append (x ∷ []) xs)
            ∙ take-append max (reverse xs) (x ∷ []) (omega (tests, long, length-reverse xs))))
    | inr short ↦
        rw short
          (sym (take_all max (reverse (x ∷ xs)) (omega (tests, short, length-reverse (x ∷ xs)))))
  ]

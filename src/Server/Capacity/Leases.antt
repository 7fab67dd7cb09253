-- ===== src/Server/Capacity/Leases.antt =====
-- The leases that a gate has handed out, in order: for each the flag `left` or `released` that its
-- closure captures. A lease is known by its place.
use wardx.Prelude.{
  get_elem?, set, ℕ, zero, suc, ◌+◌, ◌≡◌, refl, Bool, true, false, some, List, [], ◌∷◌, ◌++◌, arith,
}

-- How many are not given back.
abbrev pub count_open : List Bool → ℕ
count_open [] = 0
count_open (true ∷ leases) = count_open leases
count_open (false ∷ leases) = suc (count_open leases)

pub count_open-append_new :
    (leases : List Bool) → count_open (leases ++ false ∷ []) ≡ count_open leases + 1
count_open-append_new [] = omega arith
count_open-append_new (true ∷ leases) = omega (arith, count_open-append_new leases)
count_open-append_new (false ∷ leases) = omega (arith, count_open-append_new leases)

pub count_open-set :
    (leases : List Bool) (i : ℕ)
    → get_elem? leases i ≡ some false
    → count_open (set leases i true) + 1 ≡ count_open leases
count_open-set [] i h = absurd (cc h)
count_open-set (true ∷ leases) zero h = absurd (cc h)
count_open-set (false ∷ leases) zero h = omega arith
count_open-set (true ∷ leases) (suc i) h = omega (arith, count_open-set leases i h)
count_open-set (false ∷ leases) (suc i) h = omega (arith, count_open-set leases i h)

-- A lease that is given back stays so, whatever leases are added or given back.
pub get_elem?-append_open :
    (leases : List Bool) (i : ℕ)
    → get_elem? leases i ≡ some true
    → get_elem? (leases ++ false ∷ []) i ≡ some true
get_elem?-append_open [] i h = absurd (cc h)
get_elem?-append_open (b ∷ leases) zero h = h
get_elem?-append_open (b ∷ leases) (suc i) h = get_elem?-append_open leases i h

pub get_elem?-set_lease :
    (leases : List Bool) (i j : ℕ)
    → get_elem? leases i ≡ some true
    → get_elem? (set leases j true) i ≡ some true
get_elem?-set_lease [] i j h = h
get_elem?-set_lease (b ∷ leases) zero zero h = refl
get_elem?-set_lease (b ∷ leases) zero (suc j) h = h
get_elem?-set_lease (b ∷ leases) (suc i) zero h = h
get_elem?-set_lease (b ∷ leases) (suc i) (suc j) h = get_elem?-set_lease leases i j h

pub get_elem?-set_own :
    (leases : List Bool) (i : ℕ)
    → get_elem? leases i ≡ some false
    → get_elem? (set leases i true) i ≡ some true
get_elem?-set_own [] i h = absurd (cc h)
get_elem?-set_own (b ∷ leases) zero h = refl
get_elem?-set_own (b ∷ leases) (suc i) h = get_elem?-set_own leases i h

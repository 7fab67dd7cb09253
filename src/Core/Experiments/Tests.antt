-- ===== src/Core/Experiments/Tests.antt =====
-- One experiment with one variant, which everyone gets.
use wardx.Prelude.{length, ℕ, ◌≤◌, ◌≡◌, refl, true, [], ◌∷◌, arith}
use wardx.Prelude.Sample.{sample_js}
use wardx.Core.Experiments.{Experiment, Resolver, resolve_list, fnv1a32}
use wardx.Core.Experiments.Again.{Again, ask, resolve_list-Again}
use wardx.Core.Experiments.Bounded.{resolve_list-IsBounded}

abbrev experiment : Experiment sample_js ℕ
experiment = record {
  id = "colour";
  enabled = true;
  salt = "s";
  allocation = 10;
  goal_metric = "sales";
  variants = record { key = "blue"; weight = 1; values = ("button", 2) ∷ [] } ∷ [];
}

abbrev empty : Resolver
empty = record { max_subjects = 1; state_by_subject = [] }

-- `a`, from the start.
fnv1a32_a : fnv1a32 0x811c9dc5 (97 ∷ []) ≡ 0xe40c292c
unfolding fnv1a32
fnv1a32_a = refl

resolve_list-Again_example :
    Again sample_js ℕ
      (λ s. 97 ∷ [])
      (λ s. s)
      (λ e. "f")
      "button"
      1
      "ann"
      (experiment ∷ [])
      (ask sample_js ℕ (λ s. 97 ∷ []) (λ s. s) (λ e. "f") "button" 1 "ann" (experiment ∷ []) empty)
resolve_list-Again_example =
    resolve_list-Again sample_js ℕ (λ s. 97 ∷ []) (λ s. s) (λ e. "f") "button" 1 "ann"
      (experiment ∷ []) empty

resolve_list-IsBounded_example :
    length
      (resolve_list sample_js ℕ
        (λ s. 97 ∷ [])
        (λ s. s)
        (λ e. "f")
        "button"
        1
        "ann"
        (experiment ∷ [])
        empty).2.state_by_subject
    ≤ 1
resolve_list-IsBounded_example =
    resolve_list-IsBounded sample_js ℕ (λ s. 97 ∷ []) (λ s. s) (λ e. "f") "button" 1 "ann"
      (experiment ∷ []) empty (omega arith) (omega arith)

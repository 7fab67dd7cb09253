-- ===== src/Server/Rules/First.antt =====
-- Which rule of packages/server/src/config/rules.js gives a client its value.
use wardx.Prelude.{
  Bool-cases, some-injective, get_elem?, ℕ, zero, suc, ◌<◌, String, ◌≡◌, refl, ap, ◌∙◌, subst, inl,
  inr, true, false, none, some, List, [], ◌∷◌, arith, ◌==◌, eq_iff,
}
use wardx.Prelude.Js.{Js}
use wardx.Prelude.Json.{Json, Fields, end, field, own}
use wardx.Server.Rules.{Rule, all_match, resolve_rules, rules_for, resolve_config_rules}

module _ (js : Js) where
  open js use {Number}

  -- The rules at these places do not match the client.
  abbrev pub NoneMatches : (ℕ → Type 0) → List (Rule Number) → Fields Number → Type 0
  NoneMatches At rules client =
      (i : ℕ) (rule : Rule Number)
      → At i
      → get_elem? rules i ≡ some rule
      → all_match js rule.conditions client ≡ false

  -- The value is that of a matching rule with none before it that matches, or the base.
  pub data IsFirst (rules : List (Rule Number)) (client : Fields Number) (base : Json Number)
      : Json Number → Type 0 where
    by_rule :
        (i : ℕ) (rule : Rule Number)
        → get_elem? rules i ≡ some rule
        → all_match js rule.conditions client ≡ true
        → NoneMatches (λ j. j < i) rules client
        → IsFirst rules client base rule.value
    by_base : NoneMatches (λ j. Unit {0}) rules client → IsFirst rules client base base

  NoneMatches-cons :
      (i : ℕ) (rule : Rule Number) (rules : List (Rule Number)) (client : Fields Number)
      → all_match js rule.conditions client ≡ false
      → NoneMatches (λ j. j < i) rules client
      → NoneMatches (λ j. j < suc i) (rule ∷ rules) client
  NoneMatches-cons i rule rules client h m zero r l e =
      subst (λ x. all_match js x.conditions client ≡ false) (some-injective e) h
  NoneMatches-cons i rule rules client h m (suc j) r l e = m j r (omega arith) e

  later :
      (rule : Rule Number) (rules : List (Rule Number)) (client : Fields Number)
      → (base value : Json Number) → all_match js rule.conditions client ≡ false
      → IsFirst rules client base value
      → IsFirst (rule ∷ rules) client base value
  later rule rules client base value h (by_rule i r e m before) =
      by_rule (suc i) r e m (NoneMatches-cons i rule rules client h before)
  later rule rules client base value h (by_base m) = by_base (all h m)
    where
      all :
          all_match js rule.conditions client ≡ false
          → NoneMatches (λ j. Unit {0}) rules client
          → NoneMatches (λ j. Unit {0}) (rule ∷ rules) client
      all h m zero r l e =
          subst (λ x. all_match js x.conditions client ≡ false) (some-injective e) h
      all h m (suc j) r l e = m j r tt e

  resolve_rules-IsFirst :
      (rules : List (Rule Number)) (client : Fields Number) (base : Json Number)
      → IsFirst rules client base (resolve_rules js rules client base)
  unfolding resolve_rules
  resolve_rules-IsFirst [] client base = by_base (λ i rule l e. absurd (cc e))
  resolve_rules-IsFirst (rule ∷ rules) client base =
      elim (Bool-cases (all_match js rule.conditions client)) [
        | inl good ↦ rw good (by_rule 0 rule refl good (λ i r l e. absurd (omega (arith, l))))
        | inr bad ↦
            rw bad (later rule rules client base _ bad (resolve_rules-IsFirst rules client base))
      ]

  own-resolve_config_rules :
      (key : String) (values : Fields Number) (key_rules : List (String × List (Rule Number)))
      → (client : Fields Number)
      → own key (resolve_config_rules js values key_rules client) ≡ elim (own key values) [
        | none ↦ none
        | some base ↦ some (resolve_rules js (rules_for js key key_rules) client base)
      ]
  unfolding resolve_config_rules
  own-resolve_config_rules key end key_rules client = refl
  own-resolve_config_rules key (field k base values) key_rules client =
      elim (Bool-cases (k == key)) [
        | inl here ↦ rw here (
            ap (λ j. some (resolve_rules js (rules_for js j key_rules) client base))
              ((eq_iff k key).0 here))
        | inr other ↦ rw other (own-resolve_config_rules key values key_rules client)
      ]

  -- A key that has a value has one for the client: that of the first of its rules all of whose
  -- conditions match the client, or the value itself if there is no such rule.
  pub resolve_config_rules-IsFirst :
      (key : String) (values : Fields Number) (key_rules : List (String × List (Rule Number)))
      → (client : Fields Number) (base : Json Number) → own key values ≡ some base
      → (value : Json Number) × (own key (resolve_config_rules js values key_rules client)
          ≡ some value)
        × IsFirst (rules_for js key key_rules) client base value
  resolve_config_rules-IsFirst key values key_rules client base h = (
    resolve_rules js (rules_for js key key_rules) client base,
    own-resolve_config_rules key values key_rules client ∙ rw h refl,
    resolve_rules-IsFirst (rules_for js key key_rules) client base,
  )

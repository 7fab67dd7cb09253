-- ===== src/Server/Recent/Clients/Order.antt =====
-- The clients are kept in the order in which they were last seen.
use mathlib.Core.List.{reverse, reverse-append}
use wardx.Prelude.{
  Bool-cases, length, take, ℕ, ◌≤◌, String, ◌≡◌, refl, sym, ap, ◌∙◌, inl, inr, false, List, [], ◌∷◌,
  ◌++◌, append-nil, arith, ◌==◌,
}
use wardx.Server.Recent.Shift.{reverse-shift_to, length-shift_to}
use wardx.Server.Recent.Clients.{Client, Seen, RecentClients, remove, touch, list_clients}

remove-append :
    (id : String) (xs ys : List Seen) → remove id (xs ++ ys) ≡ remove id xs ++ remove id ys
unfolding remove
remove-append id [] ys = refl
remove-append id (x ∷ xs) ys = ground (arith, remove-append id xs ys)

reverse-remove : (id : String) (xs : List Seen) → reverse (remove id xs) ≡ remove id (reverse xs)
unfolding remove
reverse-remove id [] = refl
reverse-remove id (x ∷ xs) = elim (Bool-cases (x.client.instance_id == id)) [
  | inl same ↦ rw same (
      reverse-remove id xs
      ∙ sym (
          ap (remove id) (reverse-append (x ∷ []) xs)
          ∙ remove-append id (reverse xs) (x ∷ [])
          ∙ rw same (append-nil (remove id (reverse xs)))))
  | inr other ↦ rw other (
      reverse-append (x ∷ []) (remove id xs)
      ∙ ap (λ l. l ++ x ∷ []) (reverse-remove id xs)
      ∙ sym (
          ap (remove id) (reverse-append (x ∷ []) xs)
          ∙ remove-append id (reverse xs) (x ∷ [])
          ∙ rw other))
]

-- No client but those of other ids.
abbrev pub OthersOnly : String → List Seen → Type 0
OthersOnly id [] = Unit {0}
OthersOnly id (e ∷ entries) = ((e.client.instance_id == id) ≡ false) × OthersOnly id entries

remove-OthersOnly : (id : String) (xs : List Seen) → OthersOnly id (remove id xs)
unfolding remove
remove-OthersOnly id [] = tt
remove-OthersOnly id (x ∷ xs) = elim (Bool-cases (x.client.instance_id == id)) [
  | inl same ↦ rw same (remove-OthersOnly id xs)
  | inr other ↦ rw other (other, remove-OthersOnly id xs)
]

-- What `list` returns after `touch`: the client that was seen stands first, with the time; behind it the
-- others of before in their order, less any older entry of its id; and the first `max` of all these.
pub list_clients-touch :
    (now : ℕ) (c : Client) (s : RecentClients)
    → (list_clients (touch now c s)
        ≡ take s.max
            (record { client = c; last_seen = now } ∷ remove c.instance_id (list_clients s)))
      × OthersOnly c.instance_id (remove c.instance_id (list_clients s))
      × (length (touch now c s).by_id ≤ s.max)
unfolding touch list_clients
list_clients-touch now c s = (
  reverse-shift_to s.max
        (remove c.instance_id s.by_id ++ record { client = c; last_seen = now } ∷ [])
      ∙ ap (take s.max) (
          reverse-append (remove c.instance_id s.by_id)
            (record { client = c; last_seen = now } ∷ [])
          ∙ ap (λ l. record { client = c; last_seen = now } ∷ l)
              (reverse-remove c.instance_id s.by_id)),
  remove-OthersOnly c.instance_id (reverse s.by_id),
  length-shift_to s.max _,
)

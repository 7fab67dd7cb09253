-- ===== src/Core/Buffers/EventBuffer.antt =====
-- packages/core/src/buffers/EventBuffer.js: events are kept in order, and a full buffer drops what
-- comes.
mod Tests
use wardx.Prelude.{
  ltb, leb, if◌then◌else◌, tests, Bool-cases, length, take, length-append, take_all,
  take-append_left, Result, ok, ◌>>=◌, ◌>>◌, guard, ℕ, ◌+◌, ◌-◌, ◌≤◌, max, String, ◌≡◌, refl, ap,
  ◌∙◌, subst, inl, inr, Bool, true, false, not, Option, List, [], ◌∷◌, ◌++◌, append-nil,
  append_assoc, arith, ◌==◌,
}

module _ {ℓ} (A : Type ℓ) where
  -- `[Date.now(), name, attrs ?? null]`
  pub record Event : Type ℓ where
    pub time : ℕ
    pub name : String
    pub attrs : Option A

  pub record EventBuffer : Type ℓ where
    pub max : ℕ
    pub buf : List (Event)

  -- The constructor.
  pub create : ℕ → Result EventBuffer
  create max = do
    guard (not (ltb max 1)) "maxBufferedEvents must be >= 1"
    ok (record { max = max; buf = [] })

module _ {ℓ} {A : Type ℓ} where
  -- The Boolean is what the method returns: the event was kept.
  pub push : ℕ → String → Option A → EventBuffer A → Result (Bool × EventBuffer A)
  push now name attrs b = do
    guard (not (name == "")) "event name must be a non-empty string"
    if leb b.max (length b.buf)
        then ok (false, b)
        else ok (
          true,
          record b { buf = b.buf ++ record { time = now; name = name; attrs = attrs } ∷ [] },
        )

  -- What is sealed, and the emptied buffer.
  pub swap : EventBuffer A → List (Event A) × EventBuffer A
  swap b = (b.buf, record b { buf = [] })

  -- The calls of one window in order, with how many events were dropped.
  pub push_all : List (Event A) → EventBuffer A → Result (ℕ × EventBuffer A)
  unfolding push
  push_all [] b = ok (0, b)
  push_all (e ∷ es) b = do
    (kept, b') ← push e.time e.name e.attrs b
    (n, b'') ← push_all es b'
    ok ((if kept then n else n + 1), b'')

  abbrev pub AreNamed : List (Event A) → Type 0
  AreNamed [] = Unit
  AreNamed (e ∷ es) = ((e.name == "") ≡ false) × AreNamed es

  push_all-take :
      (es : List (Event A)) (b : EventBuffer A)
      → length b.buf ≤ b.max
      → AreNamed es
      → push_all es b
        ≡ ok (length b.buf + length es - b.max, record b { buf = take b.max (b.buf ++ es) })
  unfolding push_all
  push_all-take [] b h named =
      rw (append-nil, take_all b.max b.buf h) (ap (λ n. ok (n, b)) (omega arith))
  push_all-take (e ∷ es) b h named = elim (Bool-cases (leb b.max (length b.buf))) [
    | inl full ↦
        let e1 : length b.buf ≡ b.max = omega (tests, full) in
        rw (named.0, full, push_all-take es b h named.1)
          (rw (take-append_left b.max b.buf es e1, take-append_left b.max b.buf (e ∷ es) e1)
            (ap (λ n. ok (n, b)) (omega arith)))
    | inr room ↦
        rw
          (
            named.0,
            room,
            push_all-take es (record b { buf = b.buf ++ e ∷ [] })
                (omega (tests, room, length-append b.buf (e ∷ []))) named.1,
            append_assoc,
          )
          (ap (λ n. ok (n, record b { buf = take b.max (b.buf ++ e ∷ es) }))
            (omega (arith, length-append b.buf (e ∷ []))))
  ]

  buf-create :
      (max : ℕ) (b : EventBuffer A) → create A max ≡ ok b → record { max = max; buf = [] } ≡ b
  unfolding create
  buf-create max b h = ground arith

  -- A new buffer that is given any number of named events keeps the first `max` of them in order,
  -- reports a drop for each of the others, and is as new after its events are sealed.
  pub push_all-swap :
      (max : ℕ) (es : List (Event A)) (b : EventBuffer A)
      → create A max ≡ ok b
      → AreNamed es
      → (b' : EventBuffer A) × (push_all es b ≡ ok (length es - max, b'))
        × (swap b' ≡ (take max es, b))
  unfolding swap
  push_all-swap max es b h named =
      subst
        (λ (c : EventBuffer A).
          (b' : EventBuffer A) × (push_all es c ≡ ok (length es - max, b'))
          × (swap b' ≡ (take max es, c)))
        (buf-create max b h)
        (
          record { max = max; buf = take max es },
          push_all-take es (record { max = max; buf = [] }) (omega arith) named
              ∙ ap (λ n. ok (n, record { max = max; buf = take max es })) (omega arith),
          refl,
        )

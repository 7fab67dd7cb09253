-- ===== src/Server/Journal/Calls/Chain.antt =====
-- The retained changes of a snapshot are an unbroken run of versions up to the current one.
use wardx.Prelude.{
  ltb, Bool-cases, length, take, drop, length-drop, length-append, min, some, ℕ, zero, suc, ◌+◌,
  ◌-◌, ◌≤◌, String, ◌≡◌, refl, sym, ap, ◌∙◌, subst, inl, inr, false, List, [], ◌∷◌, ◌++◌, arith,
  ◌==◌, eq_iff,
}
use wardx.Prelude.Json.{Json}
use wardx.Server.Journal.{Entry, Snapshot}
use wardx.Server.Journal.Repository.{newest, last_entry}
use wardx.Server.Journal.Calls.{retained_changes, has_id}

module _ {N : Type 0} where
  -- Each change goes from one version to the next, from version `a` to version `b`.
  abbrev pub Runs : ℕ → List (Entry N) → ℕ → Type 0
  Runs a [] b = a ≡ b
  Runs a (e ∷ es) b = (e.previous_version ≡ a) × (e.new_version ≡ a + 1) × Runs (a + 1) es b

  abbrev pub AreDistinct : List (Entry N) → Type 0
  AreDistinct [] = Unit
  AreDistinct (e ∷ es) = (has_id es e.id ≡ false) × AreDistinct es

  pub record IsChain (capacity : ℕ) (s : Snapshot N) : Type 0 where
    pub oldest : ℕ
    pub runs : Runs oldest s.changes s.version
    pub within : length s.changes ≤ capacity
    pub distinct : AreDistinct s.changes

  Runs-append :
      (a b : ℕ) (es : List (Entry N)) (e : Entry N)
      → Runs a es b
      → e.previous_version ≡ b
      → e.new_version ≡ b + 1
      → Runs a (es ++ e ∷ []) (b + 1)
  Runs-append a b [] e r p q = (p ∙ sym r, q ∙ ap (λ n. n + 1) (sym r), ap (λ n. n + 1) r)
  Runs-append a b (f ∷ es) e r p q = (r.0, r.1, Runs-append (a + 1) b es e r.2 p q)

  Runs-drop :
      (n a b : ℕ) (es : List (Entry N)) → n ≤ length es → Runs a es b → Runs (a + n) (drop n es) b
  Runs-drop zero a b es h r = subst (λ m. Runs m es b) (omega arith) r
  Runs-drop (suc n) a b [] h r = absurd (omega arith)
  Runs-drop (suc n) a b (e ∷ es) h r =
      subst (λ m. Runs m (drop n es) b) (omega arith) (Runs-drop n (a + 1) b es (omega arith) r.2)

  has_id-append :
      (es : List (Entry N)) (e : Entry N) (id : String)
      → has_id es id ≡ false
      → (e.id == id) ≡ false
      → has_id (es ++ e ∷ []) id ≡ false
  unfolding has_id
  has_id-append [] e id h p = rw p
  has_id-append (f ∷ es) e id h p = ground (arith, has_id-append es e id)

  AreDistinct-append :
      (es : List (Entry N)) (e : Entry N)
      → AreDistinct es
      → has_id es e.id ≡ false
      → AreDistinct (es ++ e ∷ [])
  unfolding has_id
  AreDistinct-append [] e d h = (refl, tt)
  AreDistinct-append (f ∷ es) e d h = (
    has_id-append es e f.id d.0 (ground (arith, eq_iff e.id f.id, eq_iff f.id e.id, h)),
    AreDistinct-append es e d.1 (ground (arith, h)),
  )

  AreDistinct-drop : (n : ℕ) (es : List (Entry N)) → AreDistinct es → AreDistinct (drop n es)
  AreDistinct-drop zero es d = d
  AreDistinct-drop (suc n) [] d = tt
  AreDistinct-drop (suc n) (e ∷ es) d = AreDistinct-drop n es d.1

  -- `rows` are those of before with `e` behind them, less the oldest, so that `capacity` are left.
  pub record Records (capacity : ℕ) (before : List (Entry N)) (e : Entry N) (rows : List (Entry N))
      : Type 0 where
    pub dropped : List (Entry N)
    pub split : dropped ++ rows ≡ before ++ e ∷ []
    pub kept : length rows ≡ min capacity (suc (length before))

  take-drop : (n : ℕ) (es : List (Entry N)) → take n es ++ drop n es ≡ es
  take-drop zero es = refl
  take-drop (suc n) [] = refl
  take-drop (suc n) (e ∷ es) = ap (λ rows. e ∷ rows) (take-drop n es)

  pub newest-Records :
      (capacity : ℕ) (before : List (Entry N)) (e : Entry N)
      → Records capacity before e (newest capacity (before ++ e ∷ []))
  unfolding newest
  newest-Records capacity before e = record {
    dropped = take (length (before ++ e ∷ []) - capacity) (before ++ e ∷ []);
    split = take-drop (length (before ++ e ∷ []) - capacity) (before ++ e ∷ []);
    kept = omega (
      arith,
      length-drop (length (before ++ e ∷ []) - capacity) (before ++ e ∷ []),
      length-append before (e ∷ []),
    );
  }

  pub newest_all :
      (capacity : ℕ) (es : List (Entry N)) → length es ≤ capacity → newest capacity es ≡ es
  unfolding newest
  newest_all capacity es h =
      ap (λ n. drop n es) (let none_over : length es - capacity ≡ 0 = omega (arith, h) in none_over)

  -- What is stored is a snapshot again.
  pub newest-IsChain :
      (capacity : ℕ) (s : Snapshot N) (state : Json N) (e : Entry N)
      → IsChain capacity s
      → e.previous_version ≡ s.version
      → e.new_version ≡ s.version + 1
      → has_id s.changes e.id ≡ false
      → IsChain capacity (record {
        version = s.version + 1;
        state = state;
        changes = newest capacity (s.changes ++ e ∷ []);
      })
  unfolding newest
  newest-IsChain capacity s state e c p q fresh = record {
    oldest = c.oldest + (length (s.changes ++ e ∷ []) - capacity);
    runs =
        Runs-drop _ c.oldest (s.version + 1) (s.changes ++ e ∷ []) (omega arith)
          (Runs-append c.oldest s.version s.changes e c.runs p q);
    within =
        omega (arith, length-drop (length (s.changes ++ e ∷ []) - capacity) (s.changes ++ e ∷ []));
    distinct =
        AreDistinct-drop _ (s.changes ++ e ∷ []) (AreDistinct-append s.changes e c.distinct fresh);
  }

  -- The last of the retained changes is the new one.
  last_entry-snoc : (es : List (Entry N)) (e : Entry N) → last_entry (es ++ e ∷ []) ≡ some e
  unfolding last_entry
  last_entry-snoc [] e = refl
  last_entry-snoc (f ∷ []) e = refl
  last_entry-snoc (f ∷ g ∷ es) e = last_entry-snoc (g ∷ es) e

  last_entry-drop :
      (n : ℕ) (es : List (Entry N)) (e : Entry N)
      → n ≤ length es
      → last_entry (drop n (es ++ e ∷ [])) ≡ some e
  last_entry-drop zero es e h = last_entry-snoc es e
  last_entry-drop (suc n) [] e h = absurd (omega (arith, h))
  last_entry-drop (suc n) (f ∷ es) e h = last_entry-drop n es e (omega (arith, h))

  pub last_entry-retained_changes :
      (capacity : ℕ) (es : List (Entry N)) (e : Entry N)
      → 1 ≤ capacity
      → last_entry (retained_changes es e capacity) ≡ some e
  unfolding retained_changes
  last_entry-retained_changes capacity es e h =
      elim (Bool-cases (ltb capacity (length (es ++ e ∷ [])))) [
        | inl long ↦ rw long (
            last_entry-drop (length (es ++ e ∷ []) - capacity) es e
              (omega (arith, h, length-append es (e ∷ []))))
        | inr short ↦ rw short (last_entry-snoc es e)
      ]

-- ===== src/Sql.antt =====
-- What the stores use of SQLite: a table is the list of its rows in insertion order, and a
-- statement on it works on the rows that its WHERE clause selects. `key` is the primary key.
use fxfill_enterprise_bankin.Common.{
  ℕ, ◌+◌, String, ◌≡◌, refl, ◌∙◌, Bool, true, false, ◌&&◌, Option, none, some, List, [], ◌∷◌, ◌++◌,
  arith, ◌==◌, eq_iff, if◌then◌else◌, any,
}

module _ {ℓ} {Row : Type ℓ} where
  -- UPDATE ... SET set WHERE cond
  unfoldable pub update_all : (Row → Bool) → (Row → Row) → List Row → List Row
  update_all cond set [] = []
  update_all cond set (r ∷ rs) = (if cond r then set r else r) ∷ update_all cond set rs

  -- The rowcount of that statement.
  unfoldable pub rowcount_all : (Row → Bool) → List Row → ℕ
  rowcount_all cond [] = 0
  rowcount_all cond (r ∷ rs) = (if cond r then 1 else 0) + rowcount_all cond rs

  -- What a conditional update makes of the row at its key.
  abbrev pub touched : (Row → Bool) → (Row → Row) → Option Row → Option Row
  touched cond set none = none
  touched cond set (some r) = some (if cond r then set r else r)

  -- The rowcount of a conditional update by key.
  abbrev pub hits : (Row → Bool) → Option Row → ℕ
  hits cond none = 0
  hits cond (some r) = if cond r then 1 else 0

  -- SELECT * WHERE cond
  unfoldable pub select : (Row → Bool) → List Row → List Row
  select cond [] = []
  select cond (r ∷ rs) = let rest = select cond rs in if cond r then r ∷ rest else rest

  -- The first row of that answer, if there is one.
  unfoldable pub first : (Row → Bool) → List Row → Option Row
  first cond [] = none
  first cond (r ∷ rs) = if cond r then some r else first cond rs

  -- A row if it passes a test.
  abbrev pub passing : (Row → Bool) → Option Row → Option Row
  passing cond none = none
  passing cond (some r) = if cond r then some r else none

  -- INSERT, which fails when a UNIQUE column of a stored row clashes with the new one.
  unfoldable pub insert : (Row → Row → Bool) → Row → List Row → Option (List Row)
  insert clash row rs = if any (clash row) rs then none else some (rs ++ row ∷ [])

  -- An UPDATE that selects no row leaves the table as it was.
  pub update_all_none :
      (cond : Row → Bool) (set : Row → Row) (rs : List Row)
      → rowcount_all cond rs ≡ 0
      → update_all cond set rs ≡ rs
  unfolding update_all rowcount_all
  update_all_none cond set [] h = refl
  update_all_none cond set (r ∷ rs) h = ground (arith, update_all_none cond set rs)

module _ {ℓ} {Row : Type ℓ} (key : Row → String) where
  -- SELECT * WHERE key = k, and the first row of the answer
  unfoldable pub find : String → List Row → Option Row
  find k [] = none
  find k (r ∷ rs) = if key r == k then some r else find k rs

  -- UPDATE ... SET set WHERE key = k AND cond
  unfoldable pub update : String → (Row → Bool) → (Row → Row) → List Row → List Row
  unfolding update_all
  update k cond set = update_all (λ r. key r == k && cond r) set

  unfoldable pub rowcount : String → (Row → Bool) → List Row → ℕ
  unfolding rowcount_all
  rowcount k cond = rowcount_all (λ r. key r == k && cond r)

  -- INSERT OR IGNORE, where the primary key is the only UNIQUE column
  unfoldable pub insert_or_ignore : Row → List Row → List Row
  insert_or_ignore row rs = elim (find (key row) rs) [ none ↦ rs ++ row ∷ [] | some _ ↦ rs ]

  -- The PRIMARY KEY constraint.
  abbrev pub IsUnique : List Row → Type ℓ
  IsUnique [] = Unit
  IsUnique (r ∷ rs) = (find (key r) rs ≡ none) × IsUnique rs

  pub key-find : (k : String) (rs : List Row) (r : Row) → find k rs ≡ some r → key r ≡ k
  unfolding find
  key-find k [] r h = cc
  key-find k (r' ∷ rs) r h = ground (arith, eq_iff (key r') k, key-find k rs r)

  find_append :
      (k : String) (rs : List Row) (row : Row)
      → find k (rs ++ row ∷ [])
        ≡ elim (find k rs) [ none ↦ if key row == k then some row else none | some r ↦ some r ]
  unfolding find
  find_append k [] row = refl
  find_append k (r ∷ rs) row = ground (arith, find_append k rs row)

  pub find-insert_or_ignore :
      (k : String) (row : Row) (rs : List Row)
      → find k (insert_or_ignore row rs)
        ≡ (if key row == k then some (elim (find k rs) [ none ↦ row | some r ↦ r ]) else find k rs)
  unfolding insert_or_ignore
  find-insert_or_ignore k row rs = ground (arith, find_append k rs row, eq_iff (key row) k)

  -- A row that was inserted is found at its key, and every other key finds what it found.
  pub find-insert :
      (clash : Row → Row → Bool) (k : String) (row : Row) (rs rs' : List Row)
      → insert clash row rs ≡ some rs'
      → find (key row) rs ≡ none
      → find k rs' ≡ (if key row == k then some row else find k rs)
  unfolding insert
  find-insert clash k row rs rs' h fresh = ground (arith, find_append k rs row, eq_iff (key row) k)

  module _ (set : Row → Row) (same : (r : Row) → key (set r) ≡ key r) where
    pub find-update :
        (k j : String) (cond : Row → Bool) (rs : List Row)
        → find j (update k cond set rs)
          ≡ (if k == j then touched cond set (find j rs) else find j rs)
    unfolding find update
    find-update k j cond [] = ground arith
    find-update k j cond (r ∷ rs) = ground (
      arith,
      eq_iff (key r) k,
      eq_iff (key r) j,
      eq_iff k j,
      eq_iff (key (set r)) j,
      same r,
      find-update k j cond rs,
    )

    pub find-update_all :
        (k : String) (cond : Row → Bool) (rs : List Row)
        → find k (update_all cond set rs) ≡ touched cond set (find k rs)
    unfolding find update_all
    find-update_all k cond [] = refl
    find-update_all k cond (r ∷ rs) = ground (arith, same r, find-update_all k cond rs)

    pub update_all-IsUnique :
        (cond : Row → Bool) (rs : List Row) → IsUnique rs → IsUnique (update_all cond set rs)
    unfolding update_all
    update_all-IsUnique cond [] u = tt
    update_all-IsUnique cond (r ∷ rs) u =
        ground (arith, same r, find-update_all (key r) cond rs, update_all-IsUnique cond rs u.1)

    pub update-IsUnique :
        (k : String) (cond : Row → Bool) (rs : List Row)
        → IsUnique rs
        → IsUnique (update k cond set rs)
    unfolding update
    update-IsUnique k cond [] u = tt
    update-IsUnique k cond (r ∷ rs) u =
        ground (arith, same r, find-update k (key r) cond rs, update-IsUnique k cond rs u.1)

  rowcount-none :
      (k : String) (cond : Row → Bool) (rs : List Row) → find k rs ≡ none → rowcount k cond rs ≡ 0
  unfolding find rowcount
  rowcount-none k cond [] h = refl
  rowcount-none k cond (r ∷ rs) h = ground (arith, rowcount-none k cond rs)

  -- With a primary key, a conditional update by key counts the one row that it finds.
  pub rowcount-eq-hits :
      (k : String) (cond : Row → Bool) (rs : List Row)
      → IsUnique rs
      → rowcount k cond rs ≡ hits cond (find k rs)
  unfolding find rowcount
  rowcount-eq-hits k cond [] u = refl
  rowcount-eq-hits k cond (r ∷ rs) u =
      ground (arith, eq_iff (key r) k, rowcount-none k cond rs, rowcount-eq-hits k cond rs u.1)

  append-IsUnique :
      (row : Row) (rs : List Row)
      → find (key row) rs ≡ none
      → IsUnique rs
      → IsUnique (rs ++ row ∷ [])
  unfolding find
  append-IsUnique row [] fresh u = (refl, tt)
  append-IsUnique row (r ∷ rs) fresh u = ground (
    arith,
    find_append (key r) rs row,
    eq_iff (key r) (key row),
    eq_iff (key row) (key r),
    append-IsUnique row rs,
  )

  -- With a primary key, a conditional update whose row fails the test changes nothing.
  pub update_none :
      (set : Row → Row) (k : String) (cond : Row → Bool) (rs : List Row)
      → IsUnique rs
      → hits cond (find k rs) ≡ 0
      → update k cond set rs ≡ rs
  unfolding update rowcount
  update_none set k cond rs u h =
      update_all_none (λ r. key r == k && cond r) set rs (rowcount-eq-hits k cond rs u ∙ h)

  first-none :
      (k : String) (cond : Row → Bool) (rs : List Row)
      → find k rs ≡ none
      → first (λ r. key r == k && cond r) rs ≡ none
  unfolding find first
  first-none k cond [] h = refl
  first-none k cond (r ∷ rs) h = ground (arith, first-none k cond rs)

  -- With a primary key, a query by key and a test answers the row of that key if it passes.
  pub first-eq-passing :
      (k : String) (cond : Row → Bool) (rs : List Row)
      → IsUnique rs
      → first (λ r. key r == k && cond r) rs ≡ passing cond (find k rs)
  unfolding find first
  first-eq-passing k cond [] u = refl
  first-eq-passing k cond (r ∷ rs) u =
      ground (arith, eq_iff (key r) k, first-none k cond rs, first-eq-passing k cond rs u.1)

  pub insert_or_ignore-IsUnique :
      (row : Row) (rs : List Row) → IsUnique rs → IsUnique (insert_or_ignore row rs)
  unfolding insert_or_ignore
  insert_or_ignore-IsUnique row rs u = ground (arith, append-IsUnique row rs)

  pub insert-IsUnique :
      (clash : Row → Row → Bool) (row : Row) (rs rs' : List Row)
      → insert clash row rs ≡ some rs'
      → find (key row) rs ≡ none
      → IsUnique rs
      → IsUnique rs'
  unfolding insert
  insert-IsUnique clash row rs rs' h fresh u = ground (arith, append-IsUnique row rs)

  any_fresh :
      (clash : Row → Bool) (k : String)
      → ((r : Row) → key r ≡ k → clash r ≡ true)
      → (rs : List Row) → any clash rs ≡ false
      → find k rs ≡ none
  unfolding find
  any_fresh clash k covers [] h = refl
  any_fresh clash k covers (r ∷ rs) h =
      ground (arith, eq_iff (key r) k, covers r, any_fresh clash k covers rs)

  -- A row that shares the key is a clash, so a row that was inserted had a fresh key.
  pub insert_fresh :
      (clash : Row → Row → Bool)
      → ((row r : Row) → key r ≡ key row → clash row r ≡ true)
      → (row : Row) (rs rs' : List Row) → insert clash row rs ≡ some rs'
      → find (key row) rs ≡ none
  unfolding insert
  insert_fresh clash covers row rs rs' h =
      ground (arith, any_fresh (clash row) (key row) (covers row) rs)

-- ===== src/ChangeLog/Coverage.antt =====
-- What the sweep of backend/src/services/changeLogService.js reaches: every row is in the log.
use renuzi_ops_platform.Prelude.{
  ℕ, ◌≡◌, refl, sym, ap, ◌∙◌, ◌⊎◌, inl, inr, Bool, true, false, ◌||◌, none, some, List, [], ◌∷◌,
  ◌++◌, ◌==◌, first_row, update_rows, arith, All, All-map, All-both, All-update_rows_to, Bool-cases,
}
use mathlib.Core.Path.{subst}
use renuzi_ops_platform.Constants.{Dataset}
use renuzi_ops_platform.Schema.{Row, Body, Change}
use renuzi_ops_platform.Database.{Db, table}
use renuzi_ops_platform.Guards.{owned}
use renuzi_ops_platform.ChangeLog.{bump_version}

-- Some element has the property.
abbrev pub Any : {A : Type 0} → (A → Type 0) → List A → Type 0
Any P [] = ⊥
Any P (x ∷ xs) = P x ⊎ Any P xs

-- A change that holds the current version of a row.
abbrev pub Logs : (ds : Dataset) → Row (Body ds) → Change → Type 0
Logs ds r c =
    (c.business_key ≡ r.business_key)
    × (c.entity_type ≡ ds)
    × (c.entity_key ≡ r.key)
    × (c.version_no ≡ r.version_no)

-- The row belongs to no business, or the log has its current version.
abbrev pub IsCovered : (ds : Dataset) → List Change → Row (Body ds) → Type 0
IsCovered ds log r = (r.business_key ≡ 0) ⊎ Any (Logs ds r) log

unfoldable pub has_key : {B : Type 0} → ℕ → List (Row B) → Bool
has_key k [] = false
has_key k (r ∷ rows) = (r.key == k) || has_key k rows

-- The key is the primary key.
abbrev pub HasUniqueKeys : {B : Type 0} → List (Row B) → Type 0
HasUniqueKeys [] = Unit
HasUniqueKeys (r ∷ rows) = (has_key r.key rows ≡ false) × HasUniqueKeys rows

abbrev pub IsPending : {B : Type 0} → List (ℕ × ℕ) → Row B → Type 0
IsPending todo r = Any (λ (e : ℕ × ℕ). (e.0 ≡ r.business_key) × (e.1 ≡ r.key)) todo

Any-append : {A : Type 0} (P : A → Type 0) (xs ys : List A) → Any P xs → Any P (xs ++ ys)
Any-append P [] ys h = absurd h
Any-append P (x ∷ xs) ys (inl h) = inl h
Any-append P (x ∷ xs) ys (inr h) = inr (Any-append P xs ys h)

Any-last : {A : Type 0} (P : A → Type 0) (xs : List A) (y : A) → P y → Any P (xs ++ y ∷ [])
Any-last P [] y h = inl h
Any-last P (x ∷ xs) y h = inr (Any-last P xs y h)

module _ {B : Type 0} (b k : ℕ) where
  not-owned : (rows : List (Row B)) → has_key k rows ≡ false → All (λ r. owned b k r ≡ false) rows
  unfolding has_key
  not-owned [] h = tt
  not-owned (r ∷ rows) h = (ground arith, not-owned rows (ground arith))

  none-owned :
      (rows : List (Row B))
      → first_row (owned b k) rows ≡ none
      → All (λ r. owned b k r ≡ false) rows
  unfolding first_row
  none-owned [] h = tt
  none-owned (r ∷ rows) h = elim (Bool-cases (owned b k r)) [
    | inl e ↦ ground arith
    | inr e ↦ (e, none-owned rows (ground arith))
  ]

  -- With unique keys the first row that is found is the only one.
  owned_unique :
      (rows : List (Row B)) (f : Row B)
      → HasUniqueKeys rows
      → first_row (owned b k) rows ≡ some f
      → All (λ r. owned b k r ≡ true → r ≡ f) rows
  unfolding first_row
  owned_unique [] f u h = tt
  owned_unique (r ∷ rows) f u h = elim (Bool-cases (owned b k r)) [
    | inl e ↦
        let key : r.key ≡ k = ground arith in
        let others = not-owned rows (ap (λ j. has_key j rows) (sym key) ∙ u.0) in
        (λ _. ground arith, All-map _ _ rows (λ x no_owner e'. cc) others)
    | inr e ↦ (λ e'. cc, owned_unique rows f u.1 (ground arith))
  ]

  has_key-bump :
      (j : ℕ) (rows : List (Row B))
      → has_key j (update_rows (owned b k) bump_version rows) ≡ has_key j rows
  unfolding has_key update_rows
  has_key-bump j [] = refl
  has_key-bump j (r ∷ rows) = ground (arith, has_key-bump j rows)

  HasUniqueKeys-bump :
      (rows : List (Row B))
      → HasUniqueKeys rows
      → HasUniqueKeys (update_rows (owned b k) bump_version rows)
  unfolding update_rows
  HasUniqueKeys-bump [] u = tt
  HasUniqueKeys-bump (r ∷ rows) u = elim (Bool-cases (owned b k r)) [
    | inl e ↦ rw e (has_key-bump r.key rows ∙ u.0, HasUniqueKeys-bump rows u.1)
    | inr e ↦ rw e (has_key-bump r.key rows ∙ u.0, HasUniqueKeys-bump rows u.1)
  ]

-- Every row is covered, or its entity is still to be recorded.
abbrev pub CoveredIn : (ds : Dataset) → List (ℕ × ℕ) → List (Row (Body ds)) → List Change → Type 0
CoveredIn ds todo rows log =
    HasUniqueKeys rows × All (λ r. IsCovered ds log r ⊎ IsPending todo r) rows

abbrev pub CoveredBut : Dataset → List (ℕ × ℕ) → Db → Type 0
CoveredBut ds todo db = CoveredIn ds todo (table ds db) db.change_log

module _ (ds : Dataset) where
  IsCovered-append :
      (log : List Change) (c : Change) (r : Row (Body ds))
      → IsCovered ds log r
      → IsCovered ds (log ++ c ∷ []) r
  IsCovered-append log c r (inl h) = inl h
  IsCovered-append log c r (inr h) = inr (Any-append (Logs ds r) log (c ∷ []) h)

  -- One more change covers no row less.
  pub CoveredIn-append :
      (todo : List (ℕ × ℕ)) (rows : List (Row (Body ds))) (log : List Change) (c : Change)
      → CoveredIn ds todo rows log
      → CoveredIn ds todo rows (log ++ c ∷ [])
  CoveredIn-append todo rows log c (u, h) = (u, All-map _ _ rows grow h)
    where
      grow :
          (r : Row (Body ds))
          → IsCovered ds log r ⊎ IsPending todo r
          → IsCovered ds (log ++ c ∷ []) r ⊎ IsPending todo r
      grow r (inl h) = inl (IsCovered-append log c r h)
      grow r (inr h) = inr h

  pub CoveredIn-more :
      (e : ℕ × ℕ) (todo : List (ℕ × ℕ)) (rows : List (Row (Body ds))) (log : List Change)
      → CoveredIn ds todo rows log
      → CoveredIn ds (e ∷ todo) rows log
  CoveredIn-more e todo rows log (u, h) = (u, All-map _ _ rows more h)
    where
      more :
          (r : Row (Body ds))
          → IsCovered ds log r ⊎ IsPending todo r
          → IsCovered ds log r ⊎ IsPending (e ∷ todo) r
      more r (inl h) = inl h
      more r (inr h) = inr (inr h)

  module _ (b k : ℕ) (todo : List (ℕ × ℕ)) where
    -- A row that is not the entity's own is not waiting for the entity.
    settled :
        (log : List Change) (r : Row (Body ds))
        → owned b k r ≡ false
        → IsCovered ds log r ⊎ IsPending ((b, k) ∷ todo) r
        → IsCovered ds log r ⊎ IsPending todo r
    settled log r e (inl h) = inl h
    settled log r e (inr (inl h)) = ground (arith, h)
    settled log r e (inr (inr h)) = inr h

    pub CoveredIn-bump :
        (rows : List (Row (Body ds))) (log : List Change) (f : Row (Body ds)) (c : Change)
        → first_row (owned b k) rows ≡ some f
        → Logs ds (bump_version f) c
        → CoveredIn ds ((b, k) ∷ todo) rows log
        → CoveredIn ds todo (update_rows (owned b k) bump_version rows) (log ++ c ∷ [])
    CoveredIn-bump rows log f c found l (u, h) = (
      HasUniqueKeys-bump b k rows u,
      All-update_rows_to _ _ (owned b k) bump_version rows hit miss
          (All-both _ _ rows h (owned_unique b k rows f u found)),
    )
      where
        hit :
            (x : Row (Body ds))
            → owned b k x ≡ true
            → (IsCovered ds log x ⊎ IsPending ((b, k) ∷ todo) x) × (owned b k x ≡ true → x ≡ f)
            → IsCovered ds (log ++ c ∷ []) (bump_version x) ⊎ IsPending todo (bump_version x)
        hit x e (h, only) =
            inl (inr (Any-last _ log c (subst (λ y. Logs ds (bump_version y) c) (sym (only e)) l)))

        miss :
            (x : Row (Body ds))
            → owned b k x ≡ false
            → (IsCovered ds log x ⊎ IsPending ((b, k) ∷ todo) x) × (owned b k x ≡ true → x ≡ f)
            → IsCovered ds (log ++ c ∷ []) x ⊎ IsPending todo x
        miss x e (h, only) = miss_kept (settled log x e h)
          where
            miss_kept :
                IsCovered ds log x ⊎ IsPending todo x
                → IsCovered ds (log ++ c ∷ []) x ⊎ IsPending todo x
            miss_kept (inl h) = inl (IsCovered-append log c x h)
            miss_kept (inr h) = inr h

    -- An entity without a row is no loss.
    pub CoveredIn-skip :
        (rows : List (Row (Body ds))) (log : List Change)
        → first_row (owned b k) rows ≡ none
        → CoveredIn ds ((b, k) ∷ todo) rows log
        → CoveredIn ds todo rows log
    CoveredIn-skip rows log gone (u, h) = (
      u,
      All-map _ _ rows (λ r p. settled log r p.1 p.0)
          (All-both _ _ rows h (none-owned b k rows gone)),
    )

-- ===== src/Pull/Resume.antt =====
-- A device that pulls page after page misses nothing and gets nothing twice.
use renuzi_ops_platform.Prelude.{
  ℕ, zero, suc, ◌+◌, ◌≤◌, ◌<◌, ◌≡◌, refl, sym, ap, ◌∙◌, Bool, true, false, ◌&&◌, List, [], ◌∷◌,
  ◌++◌, ltb, take, where_rows, arith, Bool-cases, inl, inr,
}
use renuzi_ops_platform.Constants.{Dataset}
use renuzi_ops_platform.Schema.{Change}
use renuzi_ops_platform.ChangeLog.{in_scope}
use renuzi_ops_platform.Pull.Changes.{after_cursor, delta_rows, next_cursor}

-- The change keys rise, all of them above the first number.
abbrev pub RisesFrom : ℕ → List Change → Type 0
RisesFrom k [] = Unit
RisesFrom k (c ∷ cs) = (k < c.change_key) × RisesFrom c.change_key cs

pub RisesFrom-weaken : (j k : ℕ) (log : List Change) → j ≤ k → RisesFrom k log → RisesFrom j log
RisesFrom-weaken j k [] h r = tt
RisesFrom-weaken j k (c ∷ log) h r = (omega arith, r.1)

RisesFrom-where_rows :
    (p : Change → Bool) (k : ℕ) (log : List Change)
    → RisesFrom k log
    → RisesFrom k (where_rows p log)
unfolding where_rows
RisesFrom-where_rows p k [] r = tt
RisesFrom-where_rows p k (c ∷ log) r = elim (Bool-cases (p c)) [
  | inl e ↦ rw e (r.0, RisesFrom-where_rows p c.change_key log r.1)
  | inr e ↦ rw e (
      RisesFrom-weaken k c.change_key (where_rows p log) (omega arith)
        (RisesFrom-where_rows p c.change_key log r.1))
]

-- The rows after a later cursor are among those after an earlier one.
after_cursor-later :
    (b : ℕ) (ds : Dataset) (j k : ℕ) (log : List Change)
    → j ≤ k
    → after_cursor b ds k log ≡ where_rows (λ c. ltb k c.change_key) (after_cursor b ds j log)
unfolding after_cursor where_rows
after_cursor-later b ds j k [] h = refl
after_cursor-later b ds j k (c ∷ log) h = elim (Bool-cases (in_scope b ds c)) [
  | inr other ↦ rw other (after_cursor-later b ds j k log h)
  | inl own ↦ elim (Bool-cases (ltb k c.change_key)) [
    | inl late ↦
        let early : ltb j c.change_key ≡ true = ground arith in
        rw (own, late, early, late) (ap (λ x. c ∷ x) (after_cursor-later b ds j k log h))
    | inr passed ↦ elim (Bool-cases (ltb j c.change_key)) [
      | inl early ↦ rw (own, passed, early, passed) (after_cursor-later b ds j k log h)
      | inr old ↦ rw (own, passed, old) (after_cursor-later b ds j k log h)
    ]
  ]
]

RisesFrom-after_cursor :
    (b : ℕ) (ds : Dataset) (j k : ℕ) (log : List Change)
    → RisesFrom j log
    → RisesFrom k (after_cursor b ds k log)
unfolding after_cursor where_rows
RisesFrom-after_cursor b ds j k [] r = tt
RisesFrom-after_cursor b ds j k (c ∷ log) r =
    elim (Bool-cases (in_scope b ds c && ltb k c.change_key)) [
      | inl taken ↦ rw taken (
        ground arith,
        RisesFrom-where_rows (λ x. in_scope b ds x && ltb k x.change_key) c.change_key log r.1,
      )
      | inr passed ↦ rw passed (RisesFrom-after_cursor b ds c.change_key k log r.1)
    ]

next_cursor-le : (k : ℕ) (page : List Change) → RisesFrom k page → k ≤ next_cursor k page
next_cursor-le k [] r = omega arith
next_cursor-le k (c ∷ page) r = let later = next_cursor-le c.change_key page r.1 in omega arith

RisesFrom-take : (n k : ℕ) (rows : List Change) → RisesFrom k rows → RisesFrom k (take n rows)
RisesFrom-take zero k rows r = tt
RisesFrom-take (suc n) k [] r = tt
RisesFrom-take (suc n) k (c ∷ rows) r = (r.0, RisesFrom-take n c.change_key rows r.1)

-- Everything is above a number below the first key.
where_rows-all :
    (k : ℕ) (rows : List Change)
    → RisesFrom k rows
    → where_rows (λ c. ltb k c.change_key) rows ≡ rows
unfolding where_rows
where_rows-all k [] r = refl
where_rows-all k (c ∷ rows) r =
    let rest = where_rows-all k rows (RisesFrom-weaken k c.change_key rows (omega arith) r.1) in
    let here : ltb k c.change_key ≡ true = ground arith in rw (here, rest) refl

where_nil : (k : ℕ) → where_rows (λ (c : Change). ltb k c.change_key) [] ≡ []
unfolding where_rows
where_nil k = refl

take_nil : (n : ℕ) → take {A = Change} n [] ≡ []
take_nil zero = refl
take_nil (suc n) = refl

where_passed :
    (k : ℕ) (c : Change) (rows : List Change)
    → ltb k c.change_key ≡ false
    → where_rows (λ x. ltb k x.change_key) (c ∷ rows) ≡ where_rows (λ x. ltb k x.change_key) rows
unfolding where_rows
where_passed k c rows e = rw e refl

-- A page, then a page from its last key on, are one long page.
pages_join :
    (n m k : ℕ) (rows : List Change)
    → RisesFrom k rows
    → take n rows ++ take m (where_rows (λ c. ltb (next_cursor k (take n rows)) c.change_key) rows)
      ≡ take (n + m) rows
pages_join zero m k rows r =
    ap (take m) (where_rows-all k rows r) ∙ ap (λ n. take n rows) {x = m} (omega arith)
pages_join (suc n) m k [] r = ap (take m) (where_nil _) ∙ take_nil m ∙ sym (take_nil (suc n + m))
pages_join (suc n) m k (c ∷ rows) r =
    let last = next_cursor c.change_key (take n rows) in
    let above =
      next_cursor-le c.change_key (take n rows) (RisesFrom-take n c.change_key rows r.1) in
    let passed : ltb last c.change_key ≡ false = ground arith in
    ap (λ x. c ∷ (take n rows ++ take m x)) (where_passed last c rows passed)
    ∙ ap (λ x. c ∷ x) (pages_join n m c.change_key rows r.1)
    ∙ ap (λ x. take x (c ∷ rows)) {x = suc (n + m)} (omega arith)

-- Over a log whose change keys rise, the page of n changes after a cursor, followed by the page
-- of m changes after the cursor that it hands out, is the page of n + m changes.
pub delta_rows-resume :
    (b : ℕ) (ds : Dataset) (n m k : ℕ) (log : List Change)
    → RisesFrom 0 log
    → delta_rows b ds n k log ++ delta_rows b ds m (next_cursor k (delta_rows b ds n k log)) log
      ≡ delta_rows b ds (n + m) k log
delta_rows-resume b ds n m k log r =
    let rows = after_cursor b ds k log in
    let rise = RisesFrom-after_cursor b ds 0 k log r in
    let further = next_cursor-le k (take n rows) (RisesFrom-take n k rows rise) in
    ap (λ x. take n rows ++ take m x)
      (after_cursor-later b ds k (next_cursor k (take n rows)) log further)
    ∙ pages_join n m k rows rise

-- ===== src/Prelude/Lists.antt =====
-- Lists measured by native numbers, and the scans of a table: the rows that match, the first of
-- them, and the update of those that match.
use Prim.Native.Nat.{ℕ, zero, suc, ◌+◌, ◌≤◌, min}
use mathlib.Core.Path.{◌≡◌, refl, ap, subst}
use mathlib.Core.Logic.{inl, inr}
use mathlib.Core.Bool.{Bool, true, false}
use mathlib.Core.List.{List, [], ◌∷◌, ◌++◌}
use mathlib.Core.Option.{Option, none, some}
use native.Mathlib.Omega.{arith}
use renuzi_ops_platform.Prelude.Tests.{if◌then◌else◌, Bool-cases}

-- A predicate on every element, by recursion.
abbrev pub All {ℓ κ} : {A : Type ℓ} → (A → Type κ) → List A → Type κ
All P [] = Unit
All P (x ∷ xs) = P x × All P xs

module _ {ℓ} {A : Type ℓ} where
  abbrev pub length : List A → ℕ
  length [] = 0
  length (x ∷ xs) = suc (length xs)

  abbrev pub take : ℕ → List A → List A
  take zero xs = []
  take (suc n) [] = []
  take (suc n) (x ∷ xs) = x ∷ take n xs

  -- WHERE: the rows that match, in order.
  unfoldable pub where_rows : (A → Bool) → List A → List A
  where_rows p [] = []
  where_rows p (x ∷ xs) = let rest = where_rows p xs in if p x then x ∷ rest else rest

  -- recordset[0]
  unfoldable pub first_row : (A → Bool) → List A → Option A
  first_row p [] = none
  first_row p (x ∷ xs) = let rest = first_row p xs in if p x then some x else rest

  -- UPDATE … SET f WHERE p
  unfoldable pub update_rows : (A → Bool) → (A → A) → List A → List A
  update_rows p f [] = []
  update_rows p f (x ∷ xs) = (if p x then f x else x) ∷ update_rows p f xs

  unfoldable pub count_rows : (A → Bool) → List A → ℕ
  count_rows p [] = 0
  count_rows p (x ∷ xs) = if p x then suc (count_rows p xs) else count_rows p xs

  unfoldable pub last_or : A → List A → A
  last_or d [] = d
  last_or d (x ∷ xs) = last_or x xs

module _ {ℓ} {A : Type ℓ} where
  pub length-append : (xs ys : List A) → length (xs ++ ys) ≡ length xs + length ys
  length-append [] ys = omega arith
  length-append (x ∷ xs) ys = omega (arith, length-append xs ys)

  pub length-take : (n : ℕ) (xs : List A) → length (take n xs) ≡ min n (length xs)
  length-take zero xs = omega arith
  length-take (suc n) [] = omega arith
  length-take (suc n) (x ∷ xs) = omega (arith, length-take n xs)

  pub length-update_rows :
      (p : A → Bool) (f : A → A) (xs : List A) → length (update_rows p f xs) ≡ length xs
  unfolding update_rows
  length-update_rows p f [] = refl
  length-update_rows p f (x ∷ xs) = ap suc (length-update_rows p f xs)

  -- The first row that matches does match.
  pub first_row-matches :
      (p : A → Bool) (xs : List A) {x : A} → first_row p xs ≡ some x → p x ≡ true
  unfolding first_row
  first_row-matches p [] e = cc
  first_row-matches p (y ∷ xs) {x} e = ground (arith, first_row-matches p xs {x = x})

  pub count_rows-append :
      (p : A → Bool) (xs ys : List A) → count_rows p (xs ++ ys) ≡ count_rows p xs + count_rows p ys
  unfolding count_rows
  count_rows-append p [] ys = omega arith
  count_rows-append p (x ∷ xs) ys = ground (arith, count_rows-append p xs ys)

  pub All-append {κ} : (P : A → Type κ) (xs ys : List A) → All P xs → All P ys → All P (xs ++ ys)
  All-append P [] ys hx hy = hy
  All-append P (x ∷ xs) ys hx hy = (hx.0, All-append P xs ys hx.1 hy)

  -- An update keeps what holds of every row, if it keeps it of a row that matches.
  pub All-update_rows {κ} :
      (P : A → Type κ) (p : A → Bool) (f : A → A) (xs : List A)
      → ((x : A) → p x ≡ true → P x → P (f x))
      → All P xs
      → All P (update_rows p f xs)
  unfolding update_rows
  All-update_rows P p f [] keep h = tt
  All-update_rows P p f (x ∷ xs) keep h =
      (All-update_rows-head (p x) refl, All-update_rows P p f xs keep h.1)
    where
      All-update_rows-head : (b : Bool) → p x ≡ b → P (if b then f x else x)
      All-update_rows-head true e = keep x e h.0
      All-update_rows-head false e = h.0

  pub All-first_row {κ} :
      (P : A → Type κ) (p : A → Bool) (xs : List A) {x : A}
      → All P xs
      → first_row p xs ≡ some x
      → P x
  unfolding first_row
  All-first_row P p [] h e = cc
  All-first_row P p (y ∷ xs) {x} h e = elim (Bool-cases (p y)) [
    | inl t ↦ let same : y ≡ x = ground arith in subst P same h.0
    | inr t ↦ All-first_row P p xs h.1 (ground arith)
  ]

  -- The first row that matches, after an update of the rows that match which keeps them matching.
  pub first_row-update_rows :
      (p : A → Bool) (f : A → A) (xs : List A) {x : A}
      → ((y : A) → p (f y) ≡ p y)
      → first_row p xs ≡ some x
      → first_row p (update_rows p f xs) ≡ some (f x)
  unfolding first_row update_rows
  first_row-update_rows p f [] keep e = cc
  first_row-update_rows p f (y ∷ xs) {x} keep e = elim (Bool-cases (p y)) [
    | inl t ↦ ground (arith, keep y)
    | inr t ↦ ground (arith, first_row-update_rows p f xs {x = x} keep)
  ]

  -- The scan by p of an update that does not change what p says, where the update reaches the row.
  pub first_row-update_if :
      (p q : A → Bool) (f : A → A) (xs : List A) {x : A}
      → ((y : A) → p (f y) ≡ p y)
      → first_row p xs ≡ some x
      → q x ≡ true
      → first_row p (update_rows q f xs) ≡ some (f x)
  unfolding first_row update_rows
  first_row-update_if p q f [] keep e hq = cc
  first_row-update_if p q f (y ∷ xs) {x} keep e hq = elim (Bool-cases (p y)) [
    | inl t ↦ ground (arith, keep y)
    | inr t ↦ ground (arith, keep y, first_row-update_if p q f xs {x = x} keep)
  ]

  pub first_row-update_rows-none :
      (p : A → Bool) (f : A → A) (xs : List A) → first_row p xs ≡ none → update_rows p f xs ≡ xs
  unfolding first_row update_rows
  first_row-update_rows-none p f [] e = refl
  first_row-update_rows-none p f (y ∷ xs) e = elim (Bool-cases (p y)) [
    | inl t ↦ ground arith
    | inr t ↦ ground (arith, first_row-update_rows-none p f xs)
  ]

  -- A row that the update does not match is found as before.
  pub first_row-update_rows_other :
      (q p : A → Bool) (f : A → A) (xs : List A)
      → ((y : A) → q (f y) ≡ q y)
      → ((y : A) → p y ≡ true → q y ≡ false)
      → first_row q (update_rows p f xs) ≡ first_row q xs
  unfolding first_row update_rows
  first_row-update_rows_other q p f [] keep apart = refl
  first_row-update_rows_other q p f (y ∷ xs) keep apart = elim (Bool-cases (p y)) [
    | inl t ↦ ground (arith, keep y, apart y, first_row-update_rows_other q p f xs keep apart)
    | inr t ↦ ground (arith, first_row-update_rows_other q p f xs keep apart)
  ]

  pub first_row-append_none :
      (p : A → Bool) (xs ys : List A)
      → first_row p xs ≡ none
      → first_row p (xs ++ ys) ≡ first_row p ys
  unfolding first_row
  first_row-append_none p [] ys e = refl
  first_row-append_none p (x ∷ xs) ys e = ground (arith, first_row-append_none p xs ys)

  pub count_rows-none : (p : A → Bool) (xs : List A) → first_row p xs ≡ none → count_rows p xs ≡ 0
  unfolding first_row count_rows
  count_rows-none p [] e = refl
  count_rows-none p (x ∷ xs) e = ground (arith, count_rows-none p xs)

  pub count_rows-some :
      (p : A → Bool) (xs : List A) {x : A} → first_row p xs ≡ some x → 1 ≤ count_rows p xs
  unfolding first_row count_rows
  count_rows-some p [] e = cc
  count_rows-some p (y ∷ xs) {x} e = ground (arith, count_rows-some p xs {x = x})

  pub first_row-head :
      (p : A → Bool) (x : A) (xs : List A) → p x ≡ true → first_row p (x ∷ xs) ≡ some x
  unfolding first_row
  first_row-head p x xs e = rw e refl

  pub count_rows-one : (p : A → Bool) (x : A) → p x ≡ true → count_rows p (x ∷ []) ≡ 1
  unfolding count_rows
  count_rows-one p x e = rw e refl

  -- An update that carries one predicate to another.
  pub All-update_rows_to {κ} :
      (P Q : A → Type κ) (p : A → Bool) (f : A → A) (xs : List A)
      → ((x : A) → p x ≡ true → P x → Q (f x))
      → ((x : A) → p x ≡ false → P x → Q x)
      → All P xs
      → All Q (update_rows p f xs)
  unfolding update_rows
  All-update_rows_to P Q p f [] hit miss h = tt
  All-update_rows_to P Q p f (x ∷ xs) hit miss h =
      (All-update_rows_to-head (p x) refl, All-update_rows_to P Q p f xs hit miss h.1)
    where
      All-update_rows_to-head : (b : Bool) → p x ≡ b → Q (if b then f x else x)
      All-update_rows_to-head true e = hit x e h.0
      All-update_rows_to-head false e = miss x e h.0

  pub All-both {κ} :
      (P Q : A → Type κ) (xs : List A) → All P xs → All Q xs → All (λ x. P x × Q x) xs
  All-both P Q [] h k = tt
  All-both P Q (x ∷ xs) h k = ((h.0, k.0), All-both P Q xs h.1 k.1)

  pub All-map {κ} : (P Q : A → Type κ) (xs : List A) → ((x : A) → P x → Q x) → All P xs → All Q xs
  All-map P Q [] f h = tt
  All-map P Q (x ∷ xs) f h = (f x h.0, All-map P Q xs f h.1)

  pub take_all : (n : ℕ) (xs : List A) → length xs ≤ n → take n xs ≡ xs
  take_all zero [] h = refl
  take_all zero (x ∷ xs) h = absurd (omega arith)
  take_all (suc n) [] h = refl
  take_all (suc n) (x ∷ xs) h = ap (λ t. x ∷ t) (take_all n xs (omega arith))

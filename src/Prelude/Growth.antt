-- ===== src/Prelude/Growth.antt =====
-- A table that only moves on: no row is lost, every row is related to what it was, rows are added
-- at the end.
use mathlib.Core.Path.{◌≡◌, refl}
use mathlib.Core.Bool.{Bool, true, false}
use mathlib.Core.List.{List, [], ◌∷◌, ◌++◌}
use renuzi_ops_platform.Prelude.Tests.{if◌then◌else◌}
use renuzi_ops_platform.Prelude.Lists.{update_rows}

abbrev pub Extends : {A : Type 0} → (A → A → Type 0) → List A → List A → Type 0
Extends Moves [] ys = Unit
Extends Moves (x ∷ xs) [] = ⊥
Extends Moves (x ∷ xs) (y ∷ ys) = Moves x y × Extends Moves xs ys

pub record IsPreorder {A : Type 0} (Moves : A → A → Type 0) : Type 0 where
  pub same : (x : A) → Moves x x
  pub follows : {x y z : A} → Moves x y → Moves y z → Moves x z

module _ {A : Type 0} {Moves : A → A → Type 0} (P : IsPreorder Moves) where
  pub Extends-refl : (xs : List A) → Extends Moves xs xs
  Extends-refl [] = tt
  Extends-refl (x ∷ xs) = (P.same x, Extends-refl xs)

  pub Extends-trans :
      (xs ys zs : List A) → Extends Moves xs ys → Extends Moves ys zs → Extends Moves xs zs
  Extends-trans [] ys zs h k = tt
  Extends-trans (x ∷ xs) (y ∷ ys) (z ∷ zs) h k = (P.follows h.0 k.0, Extends-trans xs ys zs h.1 k.1)
  Extends-trans (x ∷ xs) [] zs h k = absurd h
  Extends-trans (x ∷ xs) (y ∷ ys) [] h k = absurd k

  pub Extends-append : (xs ys : List A) → Extends Moves xs (xs ++ ys)
  Extends-append [] ys = tt
  Extends-append (x ∷ xs) ys = (P.same x, Extends-append xs ys)

  moves_if : (b : Bool) (x y : A) → (b ≡ true → Moves x y) → Moves x (if b then y else x)
  moves_if true x y h = h refl
  moves_if false x y h = P.same x

  pub Extends-update_rows :
      (p : A → Bool) (f : A → A) (xs : List A)
      → ((x : A) → p x ≡ true → Moves x (f x))
      → Extends Moves xs (update_rows p f xs)
  unfolding update_rows
  Extends-update_rows p f [] h = tt
  Extends-update_rows p f (x ∷ xs) h = (moves_if (p x) x (f x) (h x), Extends-update_rows p f xs h)

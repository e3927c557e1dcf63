-- ===== src/Pull/Retention.antt =====
-- backend/src/services/syncPullService.js: the test of a cursor against the retention watermark.
use renuzi_ops_platform.Prelude.{
  ℕ, ◌≤◌, ◌<◌, ◌≡◌, refl, sym, ◌∙◌, true, false, Option, none, some, List, [], ◌∷◌, ◌++◌, ltb,
  where_rows, arith, Bool-cases, inl, inr,
}
use mathlib.Core.Path.{subst}
use renuzi_ops_platform.Constants.{Dataset}
use renuzi_ops_platform.Schema.{Change}
use renuzi_ops_platform.ChangeLog.{in_scope, least, oldest_row}
use renuzi_ops_platform.Pull.Changes.{after_cursor, is_stale}
use renuzi_ops_platform.Pull.Resume.{RisesFrom, RisesFrom-weaken}

module _ (b : ℕ) (ds : Dataset) where
  least-above :
      (k j : ℕ) (rest : Option ℕ) → k < j → ((o : ℕ) → rest ≡ some o → k < o) → k < least j rest
  least-above k j none h hr = h
  least-above k j (some o) h hr = let above = hr o refl in ground arith

  module _ (c : Change) (log : List Change) where
    oldest_row-own :
        in_scope b ds c ≡ true
        → oldest_row b ds (c ∷ log) ≡ some (least c.change_key (oldest_row b ds log))
    unfolding oldest_row
    oldest_row-own own = rw own refl

    oldest_row-other : in_scope b ds c ≡ false → oldest_row b ds (c ∷ log) ≡ oldest_row b ds log
    unfolding oldest_row
    oldest_row-other other = rw other refl

  oldest_row-nil : (o : ℕ) → oldest_row b ds [] ≡ some o → ⊥
  unfolding oldest_row
  oldest_row-nil o h = cc

  -- The watermark of a log whose keys rise from k is above k.
  oldest_row-above :
      (k : ℕ) (log : List Change) (o : ℕ) → RisesFrom k log → oldest_row b ds log ≡ some o → k < o
  oldest_row-above k [] o r h = absurd (oldest_row-nil o h)
  oldest_row-above k (c ∷ log) o r h =
      let later : (p : ℕ) → oldest_row b ds log ≡ some p → k < p =
        λ p e. oldest_row-above k log p (RisesFrom-weaken k c.change_key log (omega arith) r.1) e in
      elim (Bool-cases (in_scope b ds c)) [
        | inl own ↦
            let first = oldest_row-own c log own in
            let e : least c.change_key (oldest_row b ds log) ≡ o = cc in
            subst (λ n. k < n) e (least-above k c.change_key (oldest_row b ds log) r.0 later)
        | inr other ↦ later o (sym (oldest_row-other c log other) ∙ h)
      ]

  oldest_row-above_append :
      (k : ℕ) (old kept : List Change) (o : ℕ)
      → RisesFrom k (old ++ kept)
      → oldest_row b ds kept ≡ some o
      → k < o
  oldest_row-above_append k [] kept o r h = oldest_row-above k kept o r h
  oldest_row-above_append k (x ∷ old) kept o r h =
      let further = oldest_row-above_append x.change_key old kept o r.1 h in omega arith

  after_cursor-passed :
      (k : ℕ) (c : Change) (log : List Change)
      → ltb k c.change_key ≡ false
      → after_cursor b ds k (c ∷ log) ≡ after_cursor b ds k log
  unfolding after_cursor where_rows
  after_cursor-passed k c log e = elim (Bool-cases (in_scope b ds c)) [
    | inl own ↦ rw (own, e) refl
    | inr other ↦ rw other refl
  ]

-- Over a log whose change keys rise, of which the first rows have been purged and some row of the
-- dataset is left, a cursor above 0 that is not stale has missed nothing: the rows after it in
-- what is left are the rows after it in the whole log.
pub after_cursor-purged :
    (b : ℕ) (ds : Dataset) (cursor oldest j : ℕ) (old kept : List Change)
    → RisesFrom j (old ++ kept)
    → oldest_row b ds kept ≡ some oldest
    → 0 < cursor
    → is_stale cursor oldest ≡ false
    → after_cursor b ds cursor (old ++ kept) ≡ after_cursor b ds cursor kept
after_cursor-purged b ds cursor oldest j [] kept r h c fresh = refl
after_cursor-purged b ds cursor oldest j (x ∷ old) kept r h c fresh =
    let watermark = oldest_row-above_append b ds x.change_key old kept oldest r.1 h in
    let reached : oldest ≤ cursor = ground arith in
    let passed : ltb cursor x.change_key ≡ false = ground arith in
    after_cursor-passed b ds cursor x (old ++ kept) passed
    ∙ after_cursor-purged b ds cursor oldest x.change_key old kept r.1 h c fresh

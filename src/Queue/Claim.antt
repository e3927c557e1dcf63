-- ===== src/Queue/Claim.antt =====
-- The atomic claim of backend/src/services/syncQueueService.js (claimBatch).
use renuzi_ops_platform.Prelude.{
  ℕ, zero, suc, ◌≤◌, ◌<◌, ◌≡◌, refl, Bool, true, false, ◌||◌, some, List, [], ◌∷◌, arith, ap, ◌∙◌,
  All, length, ◌==◌, Bool-cases, inl, inr,
}
use renuzi_ops_platform.Constants.{processing}
use renuzi_ops_platform.Database.{QueueRow}
use renuzi_ops_platform.Queue.{ClaimOpts, minutes_between, is_claimable, claimed, claim_rows}

unfoldable pub has_id : ℕ → List QueueRow → Bool
has_id k [] = false
has_id k (r ∷ rs) = (r.queue_id == k) || has_id k rs

-- queue_id is the primary key.
abbrev pub HasUniqueIds : List QueueRow → Type 0
HasUniqueIds [] = Unit
HasUniqueIds (r ∷ rs) = (has_id r.queue_id rs ≡ false) × HasUniqueIds rs

-- A claim hands out at most as many rows as the batch size.
pub length-claim_rows :
    (o : ClaimOpts) (now n : ℕ) (rows : List QueueRow) → length (claim_rows o now n rows).0 ≤ n
unfolding claim_rows
length-claim_rows o now zero rows = omega arith
length-claim_rows o now (suc n) [] = omega arith
length-claim_rows o now (suc n) (r ∷ rs) =
    ground (arith, length-claim_rows o now n rs, length-claim_rows o now (suc n) rs)

-- What a claim has handed out.
abbrev pub IsClaimed : ClaimOpts → ℕ → QueueRow → Type 0
IsClaimed o now r =
    (r.sync_status ≡ processing)
    × (r.claimed_by ≡ some o.worker_id)
    × (r.claimed_at ≡ some now)
    × (r.business_key ≡ o.business_key)

-- Every row that a claim hands out is PROCESSING, claimed now by the worker that claims, and of
-- the business it claims for.
pub claim_rows-IsClaimed :
    (o : ClaimOpts) (now n : ℕ) (rows : List QueueRow)
    → All (IsClaimed o now) (claim_rows o now n rows).0
unfolding claim_rows is_claimable
claim_rows-IsClaimed o now zero rows = tt
claim_rows-IsClaimed o now (suc n) [] = tt
claim_rows-IsClaimed o now (suc n) (r ∷ rs) = elim (Bool-cases (is_claimable o now r)) [
  | inl e ↦ rw e (ground (arith, claim_rows-IsClaimed o now n rs))
  | inr e ↦ rw e (claim_rows-IsClaimed o now (suc n) rs)
]

pub has_id-claim_rows :
    (o : ClaimOpts) (now n k : ℕ) (rows : List QueueRow)
    → has_id k (claim_rows o now n rows).1 ≡ has_id k rows
unfolding claim_rows has_id
has_id-claim_rows o now zero k rows = refl
has_id-claim_rows o now (suc n) k [] = refl
has_id-claim_rows o now (suc n) k (r ∷ rs) =
    ground (arith, has_id-claim_rows o now n k rs, has_id-claim_rows o now (suc n) k rs)

-- A claim hands out only rows of the table.
pub claimed_from_table :
    (o : ClaimOpts) (now n k : ℕ) (rows : List QueueRow)
    → has_id k rows ≡ false
    → has_id k (claim_rows o now n rows).0 ≡ false
unfolding claim_rows has_id
claimed_from_table o now zero k rows h = refl
claimed_from_table o now (suc n) k [] h = refl
claimed_from_table o now (suc n) k (r ∷ rs) h =
    ground (arith, claimed_from_table o now n k rs, claimed_from_table o now (suc n) k rs)

-- No row of the first list has an id of the second.
abbrev pub Disjoint : List QueueRow → List QueueRow → Type 0
Disjoint xs ys = All (λ r. has_id r.queue_id ys ≡ false) xs

Disjoint-nil : (xs : List QueueRow) → Disjoint xs []
unfolding has_id
Disjoint-nil [] = tt
Disjoint-nil (x ∷ xs) = (refl, Disjoint-nil xs)

Disjoint-cons :
    (xs ys : List QueueRow) (r : QueueRow)
    → has_id r.queue_id xs ≡ false
    → Disjoint xs ys
    → Disjoint xs (r ∷ ys)
unfolding has_id
Disjoint-cons [] ys r h d = tt
Disjoint-cons (x ∷ xs) ys r h d = (ground arith, Disjoint-cons xs ys r (ground arith) d.1)

-- A row just claimed is not claimable before it counts as stuck.
pub claimed_not_claimable :
    (o o' : ClaimOpts) (now later : ℕ) (r : QueueRow)
    → minutes_between now later < o'.stuck_minutes
    → is_claimable o' later (claimed o now r) ≡ false
unfolding is_claimable
claimed_not_claimable o o' now later r h = ground arith

-- Both lists given by equations, since a claim is stuck under the predicate.
Disjoint-both :
    (xs ys : List QueueRow) {xs' ys' : List QueueRow}
    → xs' ≡ xs
    → ys' ≡ ys
    → Disjoint xs ys
    → Disjoint xs' ys'
Disjoint-both xs ys ex ey d = rw (ex, ey) d

module _ (o : ClaimOpts) (now n : ℕ) (r : QueueRow) (rs : List QueueRow) where
  pub claim_rows_taken :
      is_claimable o now r ≡ true
      → claim_rows o now (suc n) (r ∷ rs)
        ≡ (claimed o now r ∷ (claim_rows o now n rs).0, claimed o now r ∷ (claim_rows o now n rs).1)
  unfolding claim_rows
  claim_rows_taken e = rw e refl

  pub claim_rows_passed :
      is_claimable o now r ≡ false
      → claim_rows o now (suc n) (r ∷ rs)
        ≡ ((claim_rows o now (suc n) rs).0, r ∷ (claim_rows o now (suc n) rs).1)
  unfolding claim_rows
  claim_rows_passed e = rw e refl

claim_rows_none :
    (o : ClaimOpts) (now : ℕ) (rows : List QueueRow) → claim_rows o now zero rows ≡ ([], rows)
unfolding claim_rows
claim_rows_none o now rows = refl

claim_rows_nil : (o : ClaimOpts) (now n : ℕ) → claim_rows o now (suc n) [] ≡ ([], [])
unfolding claim_rows
claim_rows_nil o now n = refl

-- On a queue with unique ids, two claims by any two workers that lie less than the stuck time of
-- the second apart hand out disjoint sets of rows.
pub claim_rows-Disjoint :
    (o o' : ClaimOpts) (now later : ℕ)
    → minutes_between now later < o'.stuck_minutes
    → (n m : ℕ) (rows : List QueueRow) → HasUniqueIds rows
    → Disjoint (claim_rows o now n rows).0 (claim_rows o' later m (claim_rows o now n rows).1).0
claim_rows-Disjoint o o' now later fresh zero m rows u =
    Disjoint-both [] _ (ap (λ p. p.0) (claim_rows_none o now rows)) refl tt
claim_rows-Disjoint o o' now later fresh (suc n) m [] u =
    Disjoint-both [] _ (ap (λ p. p.0) (claim_rows_nil o now n)) refl tt
claim_rows-Disjoint o o' now later fresh (suc n) zero (r ∷ rs) u =
    Disjoint-both _ [] refl (ap (λ p. p.0) (claim_rows_none o' later _)) (Disjoint-nil _)
claim_rows-Disjoint o o' now later fresh (suc n) (suc m) (r ∷ rs) u =
    elim (Bool-cases (is_claimable o now r)) [
      | inl e ↦
          let first = claim_rows_taken o now n r rs e in
          Disjoint-both (claimed o now r ∷ (claim_rows o now n rs).0)
            (claim_rows o' later (suc m) (claim_rows o now n rs).1).0 (ap (λ p. p.0) first)
            (ap (λ p. (claim_rows o' later (suc m) p.1).0) first
              ∙ ap (λ p. p.0)
                  (claim_rows_passed o' later m (claimed o now r) _
                    (claimed_not_claimable o o' now later r fresh)))
            (
              claimed_from_table o' later (suc m) r.queue_id _
                  (has_id-claim_rows o now n r.queue_id rs ∙ u.0),
              claim_rows-Disjoint o o' now later fresh n (suc m) rs u.1,
            )
      | inr e ↦
          let first = claim_rows_passed o now n r rs e in
          let table = (claim_rows o now (suc n) rs).1 in
          elim (Bool-cases (is_claimable o' later r)) [
            | inl e' ↦
                Disjoint-both (claim_rows o now (suc n) rs).0
                  (claimed o' later r ∷ (claim_rows o' later m table).0) (ap (λ p. p.0) first)
                  (ap (λ p. (claim_rows o' later (suc m) p.1).0) first
                    ∙ ap (λ p. p.0) (claim_rows_taken o' later m r table e'))
                  (Disjoint-cons _ _ (claimed o' later r)
                    (claimed_from_table o now (suc n) r.queue_id rs u.0)
                    (claim_rows-Disjoint o o' now later fresh (suc n) m rs u.1))
            | inr e' ↦
                Disjoint-both (claim_rows o now (suc n) rs).0 (claim_rows o' later (suc m) table).0
                  (ap (λ p. p.0) first)
                  (ap (λ p. (claim_rows o' later (suc m) p.1).0) first
                    ∙ ap (λ p. p.0) (claim_rows_passed o' later m r table e'))
                  (claim_rows-Disjoint o o' now later fresh (suc n) (suc m) rs u.1)
          ]
    ]

-- ===== src/Queue/Progress.antt =====
-- How far one run of processQueue of backend/src/services/syncQueueService.js gets with the rows
-- that are due.
use renuzi_ops_platform.Prelude.{
  ℕ, zero, suc, ◌-◌, ◌≤◌, ◌<◌, ◌≡◌, refl, ap, ◌∙◌, Bool, true, false, List, [], ◌∷◌, arith, min,
  length, update_rows, count_rows, Bool-cases, inl, inr,
}
use renuzi_ops_platform.Database.{QueueRow}
use renuzi_ops_platform.Queue.{ClaimOpts, is_claimable, claimed, claim_rows, minutes_between}
use renuzi_ops_platform.Queue.Claim.{claim_rows_taken, claim_rows_passed, claimed_not_claimable}

module _ {A : Type 0} (p : A → Bool) where
  count_hit : (x : A) (xs : List A) → p x ≡ true → count_rows p (x ∷ xs) ≡ suc (count_rows p xs)
  unfolding count_rows
  count_hit x xs e = rw e refl

  count_miss : (x : A) (xs : List A) → p x ≡ false → count_rows p (x ∷ xs) ≡ count_rows p xs
  unfolding count_rows
  count_miss x xs e = rw e refl

  count_nil : count_rows p [] ≡ 0
  unfolding count_rows
  count_nil = refl

  -- An update whose rows do not match counts no row more.
  pub count-update_rows-le :
      (q : A → Bool) (f : A → A) (xs : List A)
      → ((x : A) → p (f x) ≡ false)
      → count_rows p (update_rows q f xs) ≤ count_rows p xs
  unfolding count_rows update_rows
  count-update_rows-le q f [] h = omega arith
  count-update_rows-le q f (x ∷ xs) h = ground (arith, h x, count-update_rows-le q f xs h)

-- Rows that a claim at this time would hand out.
abbrev pub due_rows : ClaimOpts → ℕ → List QueueRow → ℕ
due_rows o now rows = count_rows (is_claimable o now) rows

module _ (o : ClaimOpts) (now : ℕ) (patient : 0 < o.stuck_minutes) where
  -- A claim of n rows leaves n fewer due.
  pub due-claim_rows :
      (n : ℕ) (rows : List QueueRow)
      → due_rows o now (claim_rows o now n rows).1 ≡ due_rows o now rows - n
  due-claim_rows zero rows = unfold claim_rows in omega arith
  due-claim_rows (suc n) [] = unfold claim_rows in omega (arith, count_nil (is_claimable o now))
  due-claim_rows (suc n) (r ∷ rs) = elim (Bool-cases (is_claimable o now r)) [
    | inl e ↦
        let fresh : minutes_between now now < o.stuck_minutes = omega arith in
        let settled = claimed_not_claimable o o now now r fresh in
        ap (λ x. due_rows o now x.1) (claim_rows_taken o now n r rs e)
        ∙ omega (
          arith,
          due-claim_rows n rs,
          count_hit (is_claimable o now) r rs e,
          count_miss (is_claimable o now) (claimed o now r) (claim_rows o now n rs).1 settled,
        )
    | inr e ↦
        ap (λ x. due_rows o now x.1) (claim_rows_passed o now n r rs e)
        ∙ omega (
          arith,
          due-claim_rows (suc n) rs,
          count_miss (is_claimable o now) r rs e,
          count_miss (is_claimable o now) r (claim_rows o now (suc n) rs).1 e,
        )
  ]

  -- It hands out all that is due, up to n.
  pub length-claimed :
      (n : ℕ) (rows : List QueueRow)
      → length (claim_rows o now n rows).0 ≡ min n (due_rows o now rows)
  length-claimed zero rows = unfold claim_rows in omega arith
  length-claimed (suc n) [] = unfold claim_rows in omega (arith, count_nil (is_claimable o now))
  length-claimed (suc n) (r ∷ rs) = elim (Bool-cases (is_claimable o now r)) [
    | inl e ↦
        ap (λ x. length x.0) (claim_rows_taken o now n r rs e)
        ∙ omega (arith, length-claimed n rs, count_hit (is_claimable o now) r rs e)
    | inr e ↦
        ap (λ x. length x.0) (claim_rows_passed o now n r rs e)
        ∙ omega (arith, length-claimed (suc n) rs, count_miss (is_claimable o now) r rs e)
  ]

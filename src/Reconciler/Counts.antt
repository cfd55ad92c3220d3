-- ===== src/Reconciler/Counts.antt =====
-- Counting rows: sorting and limiting a list, and failing a row.
use agent_orchestration_core.Common.{
  ℕ, zero, suc, ◌+◌, ◌≤◌, ◌<◌, ◌≡◌, refl, ◌∙◌, Bool, true, not, ◌&&◌, List, [], ◌∷◌, arith,
  if◌then◌else◌,
}
use agent_orchestration_core.Reconciler.{
  FlowRunRow, is_stale, stale_rows, insert_row, sorted_rows, limit_rows,
}

module _ (p : FlowRunRow → Bool) where
  unfoldable pub count : List FlowRunRow → ℕ
  count [] = 0
  count (r ∷ rows) = (if p r then 1 else 0) + count rows

  count-insert_row :
      (r : FlowRunRow) (rows : List FlowRunRow) → count (insert_row r rows) ≡ count (r ∷ rows)
  unfolding count insert_row
  count-insert_row r [] = refl
  count-insert_row r (q ∷ qs) = ground (arith, count-insert_row r qs)

  pub count-sorted_rows : (rows : List FlowRunRow) → count (sorted_rows rows) ≡ count rows
  unfolding count sorted_rows
  count-sorted_rows [] = refl
  count-sorted_rows (r ∷ rows) =
      count-insert_row r (sorted_rows rows) ∙ omega (arith, count-sorted_rows rows)

  pub count-limit_rows : (n : ℕ) (rows : List FlowRunRow) → count (limit_rows n rows) ≤ count rows
  unfolding count limit_rows
  count-limit_rows zero rows = omega arith
  count-limit_rows (suc n) [] = omega arith
  count-limit_rows (suc n) (r ∷ rows) = omega (arith, count-limit_rows n rows)

  pub count-stale_rows-le :
      (older_than : ℕ) (rows : List FlowRunRow) → count (stale_rows older_than rows) ≤ count rows
  unfolding count stale_rows
  count-stale_rows-le older_than [] = omega arith
  count-stale_rows-le older_than (r ∷ rows) = ground (arith, count-stale_rows-le older_than rows)

pub count-le :
    (p q : FlowRunRow → Bool)
    → ((r : FlowRunRow) → p r ≡ true → q r ≡ true)
    → (rows : List FlowRunRow) → count p rows ≤ count q rows
unfolding count
count-le p q h [] = omega arith
count-le p q h (r ∷ rows) = let here = h r in ground (arith, count-le p q h rows)

-- A batch that is not all that there is has as many rows as the limit.
pub length-limit_rows :
    (p : FlowRunRow → Bool) (n : ℕ) (rows : List FlowRunRow)
    → count (λ r. not (p r)) rows < n
    → 0 < count p rows
    → 0 < count p (limit_rows n rows)
unfolding count limit_rows
length-limit_rows p zero rows h k = absurd (omega arith)
length-limit_rows p (suc n) [] h k = k
length-limit_rows p (suc n) (r ∷ rows) h k = ground (arith, length-limit_rows p n rows)

pub count-stale_rows :
    (p : FlowRunRow → Bool) (older_than : ℕ) (rows : List FlowRunRow)
    → count p (stale_rows older_than rows) ≡ count (λ r. is_stale older_than r && p r) rows
unfolding count stale_rows
count-stale_rows p older_than [] = refl
count-stale_rows p older_than (r ∷ rows) = ground (arith, count-stale_rows p older_than rows)

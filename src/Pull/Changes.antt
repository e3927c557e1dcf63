-- ===== src/Pull/Changes.antt =====
-- backend/src/services/syncPullService.js: pullChanges.
use renuzi_ops_platform.Prelude.{
  ℕ, max, min, ℤ, pos, pos_part, Bool, true, false, ◌&&◌, ◌||◌, Option, none, some, List, [], ◌∷◌,
  ◌++◌, ◌==◌, ltb, if◌then◌else◌, length, take, where_rows,
}
use renuzi_ops_platform.Constants.{Dataset}
use renuzi_ops_platform.Schema.{Change}
use renuzi_ops_platform.Exec.{Exec, pure, query, ◌>>=◌}
use renuzi_ops_platform.Guards.{get_config}
use renuzi_ops_platform.ChangeLog.{in_scope, oldest_change_key}
use renuzi_ops_platform.Pull.Snapshot.{
  Requested, normalize_datasets, Pulled, SnapshotPage, snapshot_dataset,
}

-- change_key > @cursor, ORDER BY change_key: the log holds its rows in the order of their keys.
unfoldable pub after_cursor : ℕ → Dataset → ℕ → List Change → List Change
after_cursor business_key ds cursor log =
    where_rows (λ c. in_scope business_key ds c && ltb cursor c.change_key) log

-- SELECT TOP (@pageSize)
abbrev pub delta_rows : ℕ → Dataset → ℕ → ℕ → List Change → List Change
delta_rows business_key ds page_size cursor log =
    take page_size (after_cursor business_key ds cursor log)

-- The key of the last row of a page, the cursor if it is empty.
abbrev pub next_cursor : ℕ → List Change → ℕ
next_cursor cursor [] = cursor
next_cursor cursor (c ∷ cs) = next_cursor c.change_key cs

abbrev pulled : List Change → List Pulled
pulled [] = []
pulled (c ∷ cs) =
    record {
      entity_type = c.entity_type;
      entity_key = c.entity_key;
      op = c.op;
      version_no = c.version_no;
      change_key = c.change_key;
      payload = c.payload_json;
    }
    ∷ pulled cs

pub record PullOpts : Type 0 where
  pub page_size : Option ℤ
  pub cursor : Dataset → ℕ
  pub snapshot_after_key : Dataset → Option ℕ

pub record PullPage : Type 0 where
  pub changes : List Pulled
  pub next_cursors : List (Dataset × ℕ)
  pub has_more : Bool
  pub reset_required : List Dataset
  pub snapshot_after : List (Dataset × ℕ)

-- Math.max(...keys), the cursor if there are none.
abbrev greatest : ℕ → List Pulled → ℕ
greatest cursor [] = cursor
greatest cursor (p ∷ []) = p.change_key
greatest cursor (p ∷ q ∷ ps) = max p.change_key (greatest cursor (q ∷ ps))

abbrev continued : Dataset → Bool → Option ℕ → List (Dataset × ℕ)
continued ds true (some k) = (ds, k) ∷ []
continued ds _ _ = []

abbrev with_snapshot : Dataset → ℕ → SnapshotPage → PullPage → PullPage
with_snapshot ds cursor s page = record page {
  changes = page.changes ++ s.changes;
  next_cursors =
      page.next_cursors ++ (ds, if s.has_more then 0 else greatest cursor s.changes) ∷ [];
  has_more = page.has_more || s.has_more;
  snapshot_after = page.snapshot_after ++ continued ds s.has_more s.next_last_entity_key;
}

abbrev with_delta : Dataset → ℕ → ℕ → List Change → PullPage → PullPage
with_delta ds page_size cursor rows page = record page {
  changes = page.changes ++ pulled rows;
  next_cursors = page.next_cursors ++ (ds, next_cursor cursor rows) ∷ [];
  has_more = page.has_more || (length rows == page_size);
}

abbrev with_reset : Dataset → PullPage → PullPage
with_reset ds page = record page {
  next_cursors = page.next_cursors ++ (ds, 0) ∷ [];
  reset_required = page.reset_required ++ ds ∷ [];
}

-- Continuity cannot be proven.
abbrev pub is_stale : ℕ → ℕ → Bool
is_stale cursor oldest = ltb 0 cursor && ltb 0 oldest && ltb cursor oldest

unfoldable pub pull_snapshot : ℕ → PullOpts → ℕ → Dataset → PullPage → Exec PullPage
pull_snapshot business_key opts page_size ds page = do
  s ← snapshot_dataset business_key ds page_size (opts.snapshot_after_key ds)
  pure (with_snapshot ds (opts.cursor ds) s page)

unfoldable pub pull_delta : ℕ → PullOpts → ℕ → Dataset → PullPage → Exec PullPage
pull_delta business_key opts page_size ds page = do
  rows ← query (λ db. delta_rows business_key ds page_size (opts.cursor ds) db.change_log)
  pure (with_delta ds page_size (opts.cursor ds) rows page)

-- One round of the loop over the datasets.
unfoldable pub pull_dataset : ℕ → PullOpts → ℕ → Dataset → PullPage → Exec PullPage
pull_dataset business_key opts page_size ds page = do
  oldest ← oldest_change_key business_key ds
  if is_stale (opts.cursor ds) oldest
      then pure (with_reset ds page)
      else if opts.cursor ds == 0
      then pull_snapshot business_key opts page_size ds page
      else pull_delta business_key opts page_size ds page

unfoldable pub pull_datasets : ℕ → PullOpts → ℕ → List Dataset → PullPage → Exec PullPage
pull_datasets business_key opts page_size [] page = pure page
pull_datasets business_key opts page_size (ds ∷ rest) page =
    pull_dataset business_key opts page_size ds page >>= λ p.
    pull_datasets business_key opts page_size rest p

abbrev empty_page : PullPage
empty_page = record {
  changes = [];
  next_cursors = [];
  has_more = false;
  reset_required = [];
  snapshot_after = [];
}

-- `parseInt(opts.pageSize, 10) || defaultPageSize`
abbrev asked_size : Option ℤ → ℕ → ℕ
asked_size none d = d
asked_size (some n) d = if (pos_part n == 0) && is_zero n then d else pos_part n
  where
    is_zero : ℤ → Bool
    is_zero (pos n) = true
    is_zero _ = false

unfoldable pub page_size_of : Option ℤ → ℕ → ℕ
page_size_of asked default_size = min (max (asked_size asked default_size) 1) (max default_size 200)

unfoldable pub pull_changes : ℕ → Requested → PullOpts → Exec PullPage
pull_changes business_key datasets opts = do
  default_size ← get_config "SYNC_PULL_PAGE_SIZE" (pos 200)
  pull_datasets business_key opts (page_size_of opts.page_size (pos_part default_size))
      (normalize_datasets datasets) empty_page

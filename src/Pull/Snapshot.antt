-- ===== src/Pull/Snapshot.antt =====
-- backend/src/services/syncPullService.js: the datasets, the meta probe and the snapshot of a
-- dataset's current rows.
use renuzi_ops_platform.Prelude.{
  ℕ, ◌+◌, max, Bool, true, false, not, ◌&&◌, Option, none, some, List, [], ◌∷◌, ◌==◌, ltb, leb,
  if◌then◌else◌, length, take, where_rows,
}
use renuzi_ops_platform.Constants.{
  ChangeOp, upsert, Dataset, vehicles, routes, customers, products, dispatches, grns,
}
use renuzi_ops_platform.Schema.{Row, Body, Snapshot, Change}
use renuzi_ops_platform.Payload.{sql_error}
use renuzi_ops_platform.Database.{Db, table}
use renuzi_ops_platform.Exec.{Exec, pure, throw, query, ◌>>=◌}
use renuzi_ops_platform.ChangeLog.{Recorded, emit_snapshot, in_scope}

-- The names that a device asks for, split and trimmed; `none` is a name that is no dataset.
pub data Requested : Type 0 where
  all_datasets : Requested
  names : List (Option Dataset) → Requested

abbrev known : List (Option Dataset) → List Dataset
known [] = []
known (none ∷ ds) = known ds
known (some d ∷ ds) = d ∷ known ds

unfoldable pub normalize_datasets : Requested → List Dataset
normalize_datasets all_datasets = vehicles ∷ routes ∷ customers ∷ products ∷ dispatches ∷ grns ∷ []
normalize_datasets (names ds) = known ds

pub record Meta : Type 0 where
  pub dataset : Dataset
  pub max_change_key : ℕ
  pub total_changes : ℕ

-- ISNULL(MAX(change_key), 0) over rows.
abbrev max_key : List Change → ℕ
max_key [] = 0
max_key (c ∷ cs) = max c.change_key (max_key cs)

abbrev meta_of : ℕ → List Change → List Dataset → List Meta
meta_of business_key log [] = []
meta_of business_key log (d ∷ ds) =
    record {
      dataset = d;
      max_change_key = max_key (where_rows (in_scope business_key d) log);
      total_changes = length (where_rows (in_scope business_key d) log);
    }
    ∷ meta_of business_key log ds

unfoldable pub get_pull_meta : ℕ → Requested → Exec (List Meta)
get_pull_meta business_key datasets =
    query (λ db. meta_of business_key db.change_log (normalize_datasets datasets))

-- One change of a page.
pub record Pulled : Type 0 where
  pub entity_type : Dataset
  pub entity_key : ℕ
  pub op : ChangeOp
  pub version_no : ℕ
  pub change_key : ℕ
  pub payload : Option (Snapshot entity_type)

-- is_active, of the tables that have the column.
abbrev is_active_row : (ds : Dataset) → Row (Body ds) → Bool
is_active_row vehicles r = r.body.is_active
is_active_row routes r = r.body.is_active
is_active_row customers r = r.body.is_active
is_active_row products r = r.body.is_active
is_active_row dispatches r = true
is_active_row grns r = true

abbrev has_is_active : Dataset → Bool
has_is_active dispatches = false
has_is_active grns = false
has_is_active _ = true

-- ORDER BY key ASC
insert_by_key : {B : Type 0} → Row B → List (Row B) → List (Row B)
insert_by_key r [] = r ∷ []
insert_by_key r (s ∷ rows) =
    let later = insert_by_key r rows in if leb r.key s.key then r ∷ s ∷ rows else s ∷ later

sort_by_key : {B : Type 0} → List (Row B) → List (Row B)
sort_by_key [] = []
sort_by_key (r ∷ rows) = insert_by_key r (sort_by_key rows)

abbrev is_after : Option ℕ → ℕ → Bool
is_after none k = true
is_after (some last) k = ltb last k

-- The keys of the page, with one row too many if there are more.
unfoldable pub snapshot_keys : ℕ → (ds : Dataset) → ℕ → Option ℕ → Db → List ℕ
unfolding table insert_by_key sort_by_key
snapshot_keys business_key ds page_size last db = row_keys (
    take (page_size + 1) (
      sort_by_key (
        where_rows
          (λ (r : Row (Body ds)).
            (r.business_key == business_key) && is_active_row ds r && is_after last r.key)
          (table ds db))))
  where
    row_keys : List (Row (Body ds)) → List ℕ
    row_keys [] = []
    row_keys (r ∷ rows) = r.key ∷ row_keys rows

abbrev emitted : (ds : Dataset) → ℕ → Recorded ds → Pulled
emitted ds k e = record {
  entity_type = ds;
  entity_key = k;
  op = upsert;
  version_no = e.version_no;
  change_key = e.change_key;
  payload = e.payload_json;
}

unfoldable pub emit_all : ℕ → Dataset → List ℕ → Exec (List Pulled)
emit_all business_key ds [] = pure []
emit_all business_key ds (k ∷ ks) = do
  e ← emit_snapshot ds business_key k
  rest ← emit_all business_key ds ks
  pure (emitted ds k e ∷ rest)

pub record SnapshotPage : Type 0 where
  pub changes : List Pulled
  pub has_more : Bool
  pub next_last_entity_key : Option ℕ

abbrev last_key : Option ℕ → List ℕ → Option ℕ
last_key d [] = d
last_key d (k ∷ ks) = last_key (some k) ks

-- The WHERE names is_active, which fact_dispatch and fact_grn do not have.
unfoldable pub snapshot_dataset : ℕ → Dataset → ℕ → Option ℕ → Exec SnapshotPage
snapshot_dataset business_key ds page_size last =
    if not (has_is_active ds) then throw (sql_error "Invalid column name 'is_active'.") else do
      keys ← query (snapshot_keys business_key ds page_size last)
      changes ← emit_all business_key ds (take page_size keys)
      pure (record {
        changes = changes;
        has_more = ltb page_size (length keys);
        next_last_entity_key = last_key last (take page_size keys);
      })

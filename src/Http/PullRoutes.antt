-- ===== src/Http/PullRoutes.antt =====
-- The routes of backend/src/routes/pull.js. A pull writes: a snapshot page records the rows that it
-- hands out. Cursors and keys are integers; a name outside PULL_DATASETS is `none`.
use renuzi_ops_platform.Prelude.{
  ℕ, ℤ, pos, ltb_ℤ, pos_part, String, Bool, true, false, Option, none, some, List, [], ◌∷◌,
  if◌then◌else◌, or_else,
}
use renuzi_ops_platform.Constants.{Dataset, same_dataset}
use renuzi_ops_platform.Schema.{User}
use renuzi_ops_platform.Exec.{Exec, pure, try_catch, ◌>>=◌}
use renuzi_ops_platform.Pull.Snapshot.{Requested, names, get_pull_meta}
use renuzi_ops_platform.Pull.Changes.{PullOpts, PullPage, pull_changes}
use renuzi_ops_platform.Http.Message.{Response, reply, service_error, respond}

-- The cursor of the body; an absent one has no entries.
pub data CursorArg : Type 0 where
  not_object : CursorArg
  entries : List (Option Dataset × ℕ) → CursorArg

-- snapshotAfterKey of the body; `none` is a key that is no finite number.
pub data AfterArg : Type 0 where
  not_object : AfterArg
  entries : List (Option Dataset × Option ℤ) → AfterArg

pub record PullForm : Type 0 where
  pub cursor : CursorArg
  pub page_size : Option ℤ
  pub datasets : Option Requested
  pub snapshot_after_key : AfterArg

pub record PullAnswer : Type 0 where
  pub response : Response
  pub page : Option PullPage

abbrev pub no_page : String → PullAnswer
no_page message = record { response = reply 400 message; page = none }

abbrev pub is_named : Dataset → Option Dataset → Bool
is_named ds none = false
is_named ds (some d) = same_dataset d ds

-- object[dataset]
abbrev pub entry_of : {A : Type 0} → Dataset → List (Option Dataset × A) → Option A
entry_of ds [] = none
entry_of ds ((name, a) ∷ rest) =
    let later = entry_of ds rest in if is_named ds name then some a else later

abbrev pub keys_of : {A : Type 0} → List (Option Dataset × A) → List (Option Dataset)
keys_of [] = []
keys_of ((name, a) ∷ rest) = name ∷ keys_of rest

abbrev pub is_bad_key : Option ℤ → Bool
is_bad_key none = true
is_bad_key (some n) = ltb_ℤ n (pos 0)

-- The refusal of the first entry that is wrong.
unfoldable pub check_after : List (Option Dataset × Option ℤ) → Option String
check_after [] = none
check_after ((none, key) ∷ rest) = some "Unknown dataset ${dataset} in snapshotAfterKey. Valid: …"
check_after ((some ds, key) ∷ rest) =
    let later = check_after rest in
    if is_bad_key key
    then some
        "snapshotAfterKey.${dataset} must be a non-negative number (the entityKey of the last row of the previous snapshot page)"
    else later

abbrev pub key_of : Option (Option ℤ) → Option ℕ
key_of (some (some n)) = some (pos_part n)
key_of _ = none

-- opts.datasets || Object.keys(cursorMap)
abbrev pub requested_of : Option Requested → List (Option Dataset × ℕ) → Requested
requested_of none cursor = names (keys_of cursor)
requested_of (some r) cursor = r

abbrev pub opts_of :
    Option ℤ → List (Option Dataset × ℕ) → List (Option Dataset × Option ℤ) → PullOpts
opts_of page_size cursor after = record {
  page_size = page_size;
  cursor = λ ds. or_else (entry_of ds cursor) 0;
  snapshot_after_key = λ ds. key_of (entry_of ds after);
}

abbrev pub pulled_message : List Dataset → Bool → String
pulled_message [] has_more =
    if has_more
    then "Pulled ${changes} change(s) (more pages pending)"
    else "Pulled ${changes} change(s)"
pulled_message (d ∷ ds) has_more =
    "Cursor stale for: ${resetRequired}. Re-bootstrap those datasets with cursor 0."

abbrev pub pull_page :
    Option Requested → PullOpts → List (Option Dataset × ℕ) → User → Exec PullAnswer
pull_page datasets opts cursor u =
    try_catch
      (pull_changes u.business_key (requested_of datasets cursor) opts >>= λ p. pure (record {
        response = reply 200 (pulled_message p.reset_required p.has_more);
        page = some p;
      }))
      (λ e. pure (record { response = service_error "Failed to pull changes" e; page = none }))

abbrev pub checked_pull :
    Option String
    → PullForm
    → List (Option Dataset × ℕ)
    → List (Option Dataset × Option ℤ)
    → User
    → Exec PullAnswer
checked_pull (some refusal) p cursor after u = pure (no_page refusal)
checked_pull none p cursor after u =
    pull_page p.datasets (opts_of p.page_size cursor after) cursor u

abbrev pub with_after : AfterArg → PullForm → List (Option Dataset × ℕ) → User → Exec PullAnswer
with_after AfterArg.not_object p cursor u = pure (
    no_page
      "snapshotAfterKey must be an object like { ROUTES: 1205 } - the snapshotAfterKey value returned by the previous page")
with_after (AfterArg.entries after) p cursor u = checked_pull (check_after after) p cursor after u

abbrev pub with_cursor : CursorArg → PullForm → User → Exec PullAnswer
with_cursor CursorArg.not_object p u = pure (
    no_page
      "cursor must be an object like { ROUTES: 123, CUSTOMERS: 456 } (use 0 for a full snapshot)")
with_cursor (CursorArg.entries cursor) p u = with_after p.snapshot_after_key p cursor u

unfoldable pub post_pull : PullForm → User → Exec PullAnswer
post_pull p u = with_cursor p.cursor p u

unfoldable pub get_meta : Requested → User → Exec Response
get_meta datasets u =
    respond (get_pull_meta u.business_key datasets) (λ m. reply 200 "")
      "Failed to fetch pull metadata"

-- ===== src/Pagination/Page.antt =====
-- buildPaginatedResponse of backend/src/utils/pagination.js. A row is anything; how a row becomes a
-- cursor (cursorOf, then encodeCursor) is an argument.
use renuzi_ops_platform.Prelude.{
  ℕ, zero, suc, ◌≤◌, ℤ, pos, leb_ℤ, ◌≡◌, refl, Bool, true, false, ◌&&◌, Option, none, some, List,
  [], ◌∷◌, ltb, length, take, length-take, if◌then◌else◌, is_some, arith, ap, sym, ◌∙◌, take_all,
  Bool-cases, inl, inr,
}
use mathlib.Core.Path.{subst}
use renuzi_ops_platform.Payload.{plain}
use renuzi_ops_platform.Exec.{Result, ok, err}

abbrev more_without_limit : Option Bool → Result Bool
more_without_limit (some b) = ok b
more_without_limit none =
    err (plain "buildPaginatedResponse: hasMore is required when limit is not supplied")

abbrev no_cursor : Result (Option (List ℕ))
no_cursor = err (
    plain
      "buildPaginatedResponse: hasMore is true but no next cursor could be derived - provide cursorOf(row) or nextCursor")

abbrev minted : Result (List ℕ) → Result (Option (List ℕ))
minted (ok token) = ok (some token)
minted (err e) = err e

unfoldable pub total_count : Option ℤ → Result (Option ℤ)
total_count none = ok none
total_count (some n) =
    if leb_ℤ (pos 0) n && leb_ℤ n (pos 9007199254740991)
    then ok (some n)
    else err (plain "buildPaginatedResponse: total must be a non-negative integer count")

module _ {A : Type 0} where
  -- The over-fetch trim: data.slice(0, pageSize), if there is a size above 0.
  unfoldable pub page_rows : ℕ → List A → List A
  page_rows zero data_rows = data_rows
  page_rows (suc n) data_rows =
      if ltb (suc n) (length data_rows) then take (suc n) data_rows else data_rows

  -- hasMore if it is given, else whether more rows came than fit. A limit of 0 is none.
  unfoldable pub has_more_of : ℕ → Option Bool → List A → Result Bool
  has_more_of zero has_more data_rows = more_without_limit has_more
  has_more_of (suc n) (some b) data_rows = ok b
  has_more_of (suc n) none data_rows = ok (ltb (suc n) (length data_rows))

  abbrev last_of : A → List A → A
  last_of x [] = x
  last_of x (y ∷ ys) = last_of y ys

  abbrev mint : Option (A → Result (List ℕ)) → List A → Result (Option (List ℕ))
  mint none rows = no_cursor
  mint (some cursor_of) [] = no_cursor
  mint (some cursor_of) (x ∷ xs) = minted (cursor_of (last_of x xs))

  abbrev given_or_minted :
      Option (List ℕ) → Option (A → Result (List ℕ)) → List A → Result (Option (List ℕ))
  given_or_minted none cursor_of rows = mint cursor_of rows
  given_or_minted (some []) cursor_of rows =
      err (plain "buildPaginatedResponse: nextCursor must be a non-empty pre-encoded cursor string")
  given_or_minted (some (c ∷ cs)) cursor_of rows = ok (some (c ∷ cs))

  -- null on the last page.
  unfoldable pub next_cursor_value :
      Bool → Option (List ℕ) → Option (A → Result (List ℕ)) → List A → Result (Option (List ℕ))
  next_cursor_value false given cursor_of rows = ok none
  next_cursor_value true given cursor_of rows = given_or_minted given cursor_of rows

pub record Page (A : Type 0) : Type 0 where
  pub rows : List A
  pub count : ℕ
  pub has_more : Bool
  pub next_cursor : Option (List ℕ)
  pub total : Option ℤ

pub record PageArgs (A : Type 0) : Type 0 where
  pub data_rows : List A
  pub limit : ℕ
  pub given_has_more : Option Bool
  pub cursor_of : Option (A → Result (List ℕ))
  pub given_cursor : Option (List ℕ)
  pub given_total : Option ℤ

module _ {A : Type 0} where
  abbrev with_total : List A → Bool → Option (List ℕ) → Result (Option ℤ) → Result (Page A)
  with_total rows more cursor (err e) = err e
  with_total rows more cursor (ok total) = ok (record {
    rows = rows;
    count = length rows;
    has_more = more;
    next_cursor = cursor;
    total = total;
  })

  abbrev with_cursor : PageArgs A → List A → Bool → Result (Option (List ℕ)) → Result (Page A)
  with_cursor args rows more (err e) = err e
  with_cursor args rows more (ok cursor) =
      with_total rows more cursor (total_count args.given_total)

  abbrev with_more : PageArgs A → List A → Result Bool → Result (Page A)
  with_more args rows (err e) = err e
  with_more args rows (ok more) =
      with_cursor args rows more (next_cursor_value more args.given_cursor args.cursor_of rows)

  unfoldable pub build_paginated_response : PageArgs A → Result (Page A)
  build_paginated_response args =
      let rows = page_rows args.limit args.data_rows in
      with_more args rows (has_more_of args.limit args.given_has_more args.data_rows)

-- The page of a list that was fetched with one row too many at most.
abbrev pub IsPage : {A : Type 0} → ℕ → List A → Page A → Type 0
IsPage limit data_rows page =
    (page.rows ≡ take limit data_rows)
    × (length page.rows ≤ limit)
    × (page.count ≡ length page.rows)
    × (page.has_more ≡ ltb limit (length data_rows))
    × (is_some page.next_cursor ≡ page.has_more)

minted-is_some : (r : Result (List ℕ)) (c : Option (List ℕ)) → minted r ≡ ok c → is_some c ≡ true
minted-is_some (ok t) c h = let same : some t ≡ c = cc in ap is_some (sym same)
minted-is_some (err e) c h = cc

module _ {A : Type 0} where
  next_cursor-is_some :
      (more : Bool) (given : Option (List ℕ)) (f : Option (A → Result (List ℕ))) (rows : List A)
      (c : Option (List ℕ))
      → next_cursor_value more given f rows ≡ ok c
      → is_some c ≡ more
  unfolding next_cursor_value
  next_cursor-is_some false given f rows c h = let same : none ≡ c = cc in ap is_some (sym same)
  next_cursor-is_some true (some []) f rows c h = cc
  next_cursor-is_some true (some (x ∷ xs)) f rows c h =
      let same : some (x ∷ xs) ≡ c = cc in ap is_some (sym same)
  next_cursor-is_some true none none rows c h = cc
  next_cursor-is_some true none (some f) [] c h = cc
  next_cursor-is_some true none (some f) (x ∷ xs) c h = minted-is_some (f (last_of x xs)) c h

  -- The page that comes out has these rows, flag and cursor.
  HasParts : List A → Bool → Option (List ℕ) → Page A → Type 0
  HasParts rows more cursor page =
      (page.rows ≡ rows)
      × (page.count ≡ length rows)
      × (page.has_more ≡ more)
      × (page.next_cursor ≡ cursor)

  with_total-ok :
      (rows : List A) (more : Bool) (cursor : Option (List ℕ)) (t : Result (Option ℤ))
      (page : Page A)
      → with_total rows more cursor t ≡ ok page
      → HasParts rows more cursor page
  unfolding HasParts
  with_total-ok rows more cursor (err e) page h = cc
  with_total-ok rows more cursor (ok t) page h =
      let same : record {
        rows = rows;
        count = length rows;
        has_more = more;
        next_cursor = cursor;
        total = t;
      }
          ≡ page =
        cc in
      (
        ap (λ p. p.rows) (sym same),
        ap (λ p. p.count) (sym same),
        ap (λ p. p.has_more) (sym same),
        ap (λ p. p.next_cursor) (sym same),
      )

  page_rows-take :
      (n : ℕ) (data_rows : List A) → page_rows (suc n) data_rows ≡ take (suc n) data_rows
  unfolding page_rows
  page_rows-take n data_rows = elim (Bool-cases (ltb (suc n) (length data_rows))) [
    | inl over ↦ rw over refl
    | inr fits ↦ rw fits (sym (take_all (suc n) data_rows (ground arith)))
  ]

  with_cursor-ok :
      (args : PageArgs A) (rows : List A) (more : Bool) (c : Result (Option (List ℕ)))
      (page : Page A)
      → ((x : Option (List ℕ)) → c ≡ ok x → is_some x ≡ more)
      → with_cursor args rows more c ≡ ok page
      → (page.rows ≡ rows)
        × (page.count ≡ length rows)
        × (page.has_more ≡ more)
        × (is_some page.next_cursor ≡ more)
  unfolding HasParts
  with_cursor-ok args rows more (err e) page some_if h = cc
  with_cursor-ok args rows more (ok x) page some_if h =
      let (r, c, m, n) = with_total-ok rows more x (total_count args.given_total) page h in
      (r, c, m, ap is_some n ∙ some_if x refl)

  -- A page that is built for a limit above 0, with no explicit hasMore, holds the first limit rows
  -- and their count, says that there are more just when more rows came than the limit, and has a
  -- next cursor just when there are more.
  pub build_paginated_response-IsPage :
      (args : PageArgs A) (n : ℕ) (page : Page A)
      → args.limit ≡ suc n
      → args.given_has_more ≡ none
      → build_paginated_response args ≡ ok page
      → IsPage (suc n) args.data_rows page
  unfolding build_paginated_response has_more_of
  build_paginated_response-IsPage args n page sized derived h =
      let more = ltb (suc n) (length args.data_rows) in
      let rows = page_rows (suc n) args.data_rows in
      let built : with_cursor args rows more
            (next_cursor_value more args.given_cursor args.cursor_of rows)
          ≡ ok page =
        subst
          (λ l.
            with_more args (page_rows l args.data_rows) (has_more_of l none args.data_rows)
            ≡ ok page)
          sized
          (subst
            (λ m.
              with_more args (page_rows args.limit args.data_rows)
                (has_more_of args.limit m args.data_rows)
              ≡ ok page)
            derived h) in
      let (r, c, m, s) =
        with_cursor-ok args rows more _ page
          (next_cursor-is_some more args.given_cursor args.cursor_of rows) built in
      let whole = r ∙ page_rows-take n args.data_rows in
      let short = length-take (suc n) args.data_rows in
      let counted = ap length whole in (whole, omega arith, c ∙ sym (ap length r), m, s ∙ sym m)

-- ===== src/Pagination/Limit.antt =====
-- validateLimit of backend/src/utils/pagination.js.
use renuzi_ops_platform.Prelude.{
  ℕ, ◌+◌, ◌-◌, ◌*◌, ℤ, pos, ◌-ℤ◌, ◌≤ℤ◌, ltb_ℤ, ◌≡◌, refl, Bool, true, false, ◌&&◌, ◌||◌, Option,
  none, some, List, [], ◌∷◌, ◌==◌, leb, if◌then◌else◌, arith, Bool-cases, inl, inr,
}
use renuzi_ops_platform.Payload.{http}
use renuzi_ops_platform.Exec.{Result, ok, err}

pub record LimitOpts : Type 0 where
  pub min_limit : ℕ
  pub default_limit : ℕ
  pub max_limit : ℕ
  pub clamp_max : Bool

-- PAGINATION_DEFAULTS
abbrev pub pagination_defaults : LimitOpts
pagination_defaults = record {
  min_limit = 1;
  default_limit = 20;
  max_limit = 100;
  clamp_max = true;
}

-- What a client sends: nothing, a text by its code units, an integer, or anything else.
pub data RawLimit : Type 0 where
  absent : RawLimit
  text : List ℕ → RawLimit
  integer : ℤ → RawLimit
  other : RawLimit

-- The white space that trim() takes off.
abbrev pub is_space : ℕ → Bool
is_space c =
    (leb 9 c && leb c 13)
    || (c == 32)
    || (c == 160)
    || (c == 5760)
    || (leb 8192 c && leb c 8202)
    || (c == 8232)
    || (c == 8233)
    || (c == 8239)
    || (c == 8287)
    || (c == 12288)
    || (c == 65279)

unfoldable pub trim_start : List ℕ → List ℕ
trim_start [] = []
trim_start (c ∷ cs) = let rest = trim_start cs in if is_space c then rest else c ∷ cs

-- The text without the white space at its end.
pub trim_end : List ℕ → List ℕ
trim_end [] = []
trim_end (c ∷ cs) = or_nothing c (trim_end cs)
  where
    or_nothing : ℕ → List ℕ → List ℕ
    or_nothing c [] = if is_space c then [] else c ∷ []
    or_nothing c (d ∷ ds) = c ∷ d ∷ ds

abbrev is_digit : ℕ → Bool
is_digit c = leb b'0' c && leb c b'9'

-- \d+ as a number, after the digits whose value is `before`.
pub digits_from : ℕ → List ℕ → Option ℕ
digits_from before [] = some before
digits_from before (c ∷ cs) =
    let rest = digits_from (10 * before + (c - b'0')) cs in if is_digit c then rest else none

abbrev digits : List ℕ → Option ℕ
digits [] = none
digits (c ∷ cs) = digits_from 0 (c ∷ cs)

abbrev signed : Bool → Option ℕ → Option ℤ
signed negative none = none
signed true (some n) = some (pos 0 -ℤ pos n)
signed false (some n) = some (pos n)

-- parseInt of a text that matches /^[+-]?\d+$/, and none for the others.
unfoldable pub parse_integer : List ℕ → Option ℤ
parse_integer [] = none
parse_integer (c ∷ cs) =
    if c == b'-'
    then signed true (digits cs)
    else if c == b'+'
    then signed false (digits cs)
    else signed false (digits (c ∷ cs))

abbrev out_of_range : Result ℤ
out_of_range = err (http 400 "limit must be an integer between ${minLimit} and ${maxLimit}")

-- An integer below the minimum is refused, one above the maximum is cut down to it.
unfoldable pub check_range : LimitOpts → ℤ → Result ℤ
check_range o n =
    if ltb_ℤ n (pos o.min_limit)
    then out_of_range
    else if ltb_ℤ (pos o.max_limit) n
    then (if o.clamp_max then ok (pos o.max_limit) else out_of_range)
    else ok n

abbrev check_parsed : LimitOpts → Option ℤ → Result ℤ
check_parsed o none = out_of_range
check_parsed o (some n) = check_range o n

abbrev check_text : LimitOpts → List ℕ → Result ℤ
check_text o [] = ok (pos o.default_limit)
check_text o (c ∷ cs) = check_parsed o (parse_integer (c ∷ cs))

unfoldable pub validate_limit : LimitOpts → RawLimit → Result ℤ
validate_limit o absent = ok (pos o.default_limit)
validate_limit o (text s) = check_text o (trim_end (trim_start s))
validate_limit o (integer n) = check_range o n
validate_limit o other = out_of_range

-- The size lies in the range, where there is one.
abbrev pub InRange : LimitOpts → Result ℤ → Type 0
InRange o (ok n) = (pos o.min_limit ≤ℤ n) × (n ≤ℤ pos o.max_limit)
InRange o (err e) = e ≡ http 400 "limit must be an integer between ${minLimit} and ${maxLimit}"

check_range-InRange :
    (o : LimitOpts) (n : ℤ) → pos o.min_limit ≤ℤ pos o.max_limit → InRange o (check_range o n)
unfolding check_range
check_range-InRange o n h = elim (Bool-cases (ltb_ℤ n (pos o.min_limit))) [
  | inl low ↦ rw low refl
  | inr fine ↦ elim (Bool-cases (ltb_ℤ (pos o.max_limit) n)) [
    | inl high ↦ elim (Bool-cases o.clamp_max) [
      | inl clamp ↦ rw (fine, high, clamp) (omega arith, omega arith)
      | inr strict ↦ rw (fine, high, strict) refl
    ]
    | inr inside ↦ rw (fine, inside) (ground arith)
  ]
]

check_parsed-InRange :
    (o : LimitOpts) (n : Option ℤ)
    → pos o.min_limit ≤ℤ pos o.max_limit
    → InRange o (check_parsed o n)
check_parsed-InRange o none h = refl
check_parsed-InRange o (some n) h = check_range-InRange o n h

module _ (o : LimitOpts) where
  check_text-InRange :
      (s : List ℕ)
      → pos o.min_limit ≤ℤ pos o.default_limit
      → pos o.default_limit ≤ℤ pos o.max_limit
      → InRange o (check_text o s)
  check_text-InRange [] low high = (low, high)
  check_text-InRange (c ∷ cs) low high =
      check_parsed-InRange o (parse_integer (c ∷ cs)) (omega arith)

  -- Where the default lies in the range, a limit that validateLimit accepts lies in the range
  -- whatever the client sends, and one that it refuses is the HTTP 400.
  pub validate_limit-InRange :
      (raw : RawLimit)
      → pos o.min_limit ≤ℤ pos o.default_limit
      → pos o.default_limit ≤ℤ pos o.max_limit
      → InRange o (validate_limit o raw)
  unfolding validate_limit
  validate_limit-InRange absent low high = (low, high)
  validate_limit-InRange (text s) low high = check_text-InRange (trim_end (trim_start s)) low high
  validate_limit-InRange (integer n) low high = check_range-InRange o n (omega arith)
  validate_limit-InRange other low high = refl

-- ===== src/DocNumbers.antt =====
-- backend/src/services/docNumbers.js: daily document numbers such as GRN-KETU-20260829-001.
use Prim.Native.Char.{code}
use Prim.Native.String.{String}
use renuzi_ops_platform.Prelude.{
  ℕ, zero, suc, ◌+◌, ◌-◌, ◌/◌, ◌%◌, Bool, true, false, ◌&&◌, ◌||◌, List, [], ◌∷◌, ◌++◌, ◌==◌, ltb,
  length, if◌then◌else◌, map, count_rows,
}
use renuzi_ops_platform.Database.{Db}
use renuzi_ops_platform.Exec.{Exec, pure, query, ◌>>=◌}

-- The code points of a text.
abbrev pub codes : String → List ℕ
codes String.[] = []
codes (String.◌∷◌ c s) = code c ∷ codes s

-- The decimal digits of n, most significant first, in front of what is done; the fuel n is enough,
-- since a step divides by 10.
unfoldable pub decimal_from : ℕ → ℕ → List ℕ → List ℕ
decimal_from zero n done = (b'0' + n % 10) ∷ done
decimal_from (suc fuel) n done =
    let more = decimal_from fuel (n / 10) ((b'0' + n % 10) ∷ done) in
    if ltb n 10 then (b'0' + n) ∷ done else more

unfoldable pub decimal : ℕ → List ℕ
unfolding decimal_from
decimal n = decimal_from n n []

abbrev pub zeros : ℕ → List ℕ
zeros zero = []
zeros (suc n) = b'0' ∷ zeros n

-- padStart(3, '0')
unfoldable pub pad_start : List ℕ → List ℕ
pad_start s = zeros (3 - length s) ++ s

-- LIKE: `%` stands for any text, `_` for any one character.
unfoldable pub like : List ℕ → List ℕ → Bool
like [] [] = true
like [] (c ∷ cs) = false
like (p ∷ ps) [] = (p == b'%') && like ps []
like (p ∷ ps) (c ∷ cs) =
    let here = like ps (c ∷ cs) in
    let later = like (p ∷ ps) cs in
    let same = like ps cs in if p == b'%' then here || later else ((p == b'_') || (p == c)) && same

pub data Kind : Type 0 where
  grn dispatch : Kind

abbrev pub prefix : Kind → List ℕ
prefix grn = codes "GRN"
prefix dispatch = codes "DSP"

-- The numbers in the kind's table.
abbrev pub numbers : Kind → Db → List (List ℕ)
numbers grn db = map (λ r. r.body.grn_number) db.grn_table
numbers dispatch db = map (λ r. r.body.dispatch_number) db.dispatch_table

-- `${prefix}-${businessId}-${dateStr}-`
unfoldable pub stem : Kind → List ℕ → ℕ → List ℕ
stem kind business_id date_key =
    prefix kind ++ (b'-' ∷ (business_id ++ (b'-' ∷ (decimal date_key ++ (b'-' ∷ [])))))

unfoldable pub next_doc_number : Kind → List ℕ → ℕ → Exec (List ℕ)
next_doc_number kind business_id date_key = do
  count ←
      query
        (λ db. count_rows (like (stem kind business_id date_key ++ (b'%' ∷ []))) (numbers kind db))
  pure (stem kind business_id date_key ++ pad_start (decimal (count + 1)))

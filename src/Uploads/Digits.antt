-- ===== src/Uploads/Digits.antt =====
-- The digits that a template literal makes of a number, and parseInt of them.
use renuzi_ops_platform.Prelude.{
  ℕ, zero, suc, ◌+◌, ◌*◌, ◌/◌, ◌%◌, ◌≤◌, ◌<◌, ◌≡◌, refl, ap, ◌∙◌, Bool, true, false, not, ◌&&◌,
  List, [], ◌∷◌, some, ltb, ◌==◌, arith, pos, if-holds, ltb→lt, and-parts, and-both,
}
use renuzi_ops_platform.DocNumbers.{decimal_from, decimal}
use renuzi_ops_platform.Pagination.RoundTrip.{no_dot}
use renuzi_ops_platform.Pagination.Limit.{is_space, trim_start}
use renuzi_ops_platform.Uploads.Token.{is_digit, leading_digits, parse_int}

abbrev digits_only : List ℕ → Bool
digits_only [] = true
digits_only (c ∷ cs) = is_digit c && digits_only cs

is_digit-low : (n : ℕ) → n < 10 → is_digit (b'0' + n) ≡ true
is_digit-low n h = ground arith

leading_digits-step :
    (acc n m : ℕ) (done : List ℕ)
    → n < 10
    → acc * 10 + n ≡ m
    → leading_digits acc ((b'0' + n) ∷ done) ≡ leading_digits m done
unfolding leading_digits
leading_digits-step acc n m done h e =
    rw (is_digit-low n h) (ap (λ x. leading_digits x done) (omega (arith, e)))

leading-decimal_from :
    (fuel n : ℕ) (done : List ℕ)
    → n ≤ fuel
    → leading_digits 0 (decimal_from fuel n done) ≡ leading_digits n done
unfolding decimal_from
leading-decimal_from zero n done h =
    leading_digits-step 0 (n % 10) n done (omega arith) (omega (arith, h))
leading-decimal_from (suc fuel) n done h =
    if-holds (λ s. leading_digits 0 s ≡ leading_digits n done) (ltb n 10) _ _
      (λ small. leading_digits-step 0 n n done (ltb→lt n 10 small) (omega arith))
      (λ large.
        leading-decimal_from fuel (n / 10) _ (ground arith)
        ∙ leading_digits-step (n / 10) (n % 10) n done (omega arith) (omega arith))

digits-decimal_from :
    (fuel n : ℕ) (done : List ℕ)
    → digits_only done ≡ true
    → digits_only (decimal_from fuel n done) ≡ true
unfolding decimal_from
digits-decimal_from zero n done h = rw (is_digit-low (n % 10) (omega arith)) h
digits-decimal_from (suc fuel) n done h =
    if-holds (λ s. digits_only s ≡ true) (ltb n 10) _ _
      (λ small. rw (is_digit-low n (ltb→lt n 10 small)) h)
      (λ large. digits-decimal_from fuel (n / 10) _ (rw (is_digit-low (n % 10) (omega arith)) h))

digit_not_space : (c : ℕ) → is_digit c ≡ true → is_space c ≡ false
digit_not_space c h = ground arith

digit_not : (c d : ℕ) → is_digit c ≡ true → is_digit d ≡ false → (c == d) ≡ false
digit_not c d h e = ground arith

pub digits-no_dot : (s : List ℕ) → digits_only s ≡ true → no_dot s ≡ true
digits-no_dot [] h = refl
digits-no_dot (c ∷ cs) h =
    let (hc, hs) = and-parts (is_digit c) (digits_only cs) h in
    and-both (not (c == b'.')) (no_dot cs) (rw (digit_not c b'.' hc refl) refl)
      (digits-no_dot cs hs)

parse_int-digits :
    (c : ℕ) (cs : List ℕ)
    → is_digit c ≡ true
    → parse_int (c ∷ cs) ≡ some (pos (leading_digits 0 (c ∷ cs)))
unfolding parse_int trim_start
parse_int-digits c cs h =
    rw (digit_not_space c h, digit_not c b'-' h refl, digit_not c b'+' h refl, h) refl

parse_int-digits_only :
    (n : ℕ) (s : List ℕ)
    → digits_only s ≡ true
    → leading_digits 0 s ≡ suc n
    → parse_int s ≡ some (pos (leading_digits 0 s))
unfolding leading_digits
parse_int-digits_only n [] h e = absurd (omega (arith, e))
parse_int-digits_only n (c ∷ cs) h e =
    parse_int-digits c cs (and-parts (is_digit c) (digits_only cs) h).0

pub digits-decimal : (n : ℕ) → digits_only (decimal n) ≡ true
unfolding decimal
digits-decimal n = digits-decimal_from n n [] refl

leading-decimal : (n : ℕ) → leading_digits 0 (decimal n) ≡ n
unfolding decimal leading_digits
leading-decimal n = leading-decimal_from n n [] (omega arith)

-- The digits of a number are read as that number.
pub parse_int-decimal : (n : ℕ) → parse_int (decimal n) ≡ some (pos n)
unfolding decimal decimal_from leading_digits
parse_int-decimal zero = parse_int-digits b'0' [] refl
parse_int-decimal (suc n) =
    parse_int-digits_only n (decimal (suc n)) (digits-decimal (suc n)) (leading-decimal (suc n))
    ∙ ap (λ x. some (pos x)) (leading-decimal (suc n))

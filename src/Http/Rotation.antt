-- ===== src/Http/Rotation.antt =====
-- Which requests the forced rotation of backend/src/middleware/auth.js lets through.
use renuzi_ops_platform.Prelude.{
  ℕ, ◌≡◌, refl, sym, ap, true, ◌||◌, List, [], ◌∷◌, ◌++◌, ◌⊎◌, inl, inr, ◌==◌, str_eq, Bool-cases,
  eq_iff, ==_iff, ==-refl, and-parts, and-both, or-parts, or-left, or-right, ◌↔◌,
}
use renuzi_ops_platform.Http.Message.{Request}
use renuzi_ops_platform.Http.Authenticate.{
  same_codes, ends_with, change_password_path, is_password_change,
}

same_codes_refl : (a : List ℕ) → same_codes a a ≡ true
unfolding same_codes
same_codes_refl [] = refl
same_codes_refl (x ∷ a) = and-both (x == x) (same_codes a a) (==-refl x) (same_codes_refl a)

same_codes-eq : (a b : List ℕ) → same_codes a b ≡ true → a ≡ b
unfolding same_codes
same_codes-eq [] [] e = refl
same_codes-eq [] (y ∷ b) e = cc
same_codes-eq (x ∷ a) [] e = cc
same_codes-eq (x ∷ a) (y ∷ b) e =
    let (hx, hs) = and-parts (x == y) (same_codes a b) e in
    let head = (==_iff x y).0 hx in let tail = same_codes-eq a b hs in cc

abbrev pub EndsWith : List ℕ → List ℕ → Type 0
EndsWith suffix s = (front : List ℕ) × (s ≡ front ++ suffix)

suffix_or_longer :
    (suffix s : List ℕ) (c : ℕ) → ends_with suffix s ≡ true → ends_with suffix (c ∷ s) ≡ true
unfolding ends_with
suffix_or_longer suffix s c h = elim (Bool-cases (same_codes suffix (c ∷ s))) [
  | inl e ↦ cc
  | inr e ↦ cc
]

ends_with-append : (front suffix : List ℕ) → ends_with suffix (front ++ suffix) ≡ true
unfolding ends_with
ends_with-append [] [] = same_codes_refl []
ends_with-append [] (c ∷ suffix) = let h = same_codes_refl (c ∷ suffix) in cc
ends_with-append (c ∷ front) suffix =
    suffix_or_longer suffix (front ++ suffix) c (ends_with-append front suffix)

ends_with-EndsWith : (suffix s : List ℕ) → ends_with suffix s ≡ true → EndsWith suffix s
unfolding ends_with
ends_with-EndsWith suffix [] h = ([], sym (same_codes-eq suffix [] h))
ends_with-EndsWith suffix (c ∷ s) h =
    elim (or-parts (same_codes suffix (c ∷ s)) (ends_with suffix s) h) [
      | inl e ↦ ([], sym (same_codes-eq suffix (c ∷ s) e))
      | inr e ↦ let (front, q) = ends_with-EndsWith suffix s e in (c ∷ front, ap (λ t. c ∷ t) q)
    ]

abbrev pub IsRotationUrl : List ℕ → Type 0
IsRotationUrl url =
    EndsWith change_password_path url ⊎ EndsWith (change_password_path ++ b'/' ∷ []) url

url_matches :
    (url : List ℕ)
    → IsRotationUrl url
    → ends_with change_password_path url || ends_with (change_password_path ++ b'/' ∷ []) url ≡ true
url_matches url (inl (front, e)) =
    or-left (ends_with change_password_path url) (ends_with (change_password_path ++ b'/' ∷ []) url)
      (rw e (ends_with-append front change_password_path))
url_matches url (inr (front, e)) =
    or-right (ends_with change_password_path url)
      (ends_with (change_password_path ++ b'/' ∷ []) url)
      (rw e (ends_with-append front (change_password_path ++ b'/' ∷ [])))

url_matched :
    (url : List ℕ)
    → ends_with change_password_path url || ends_with (change_password_path ++ b'/' ∷ []) url ≡ true
    → IsRotationUrl url
url_matched url h = elim (or-parts (ends_with change_password_path url) _ h) [
  | inl e ↦ inl (ends_with-EndsWith change_password_path url e)
  | inr e ↦ inr (ends_with-EndsWith (change_password_path ++ b'/' ∷ []) url e)
]

-- The regular expression of the forced rotation matches just the POST requests whose URL ends
-- with /api/auth/change-password or with that and a slash, whatever stands in front.
pub is_password_change_iff :
    (req : Request)
    → (is_password_change req ≡ true) ↔ ((req.method ≡ "POST") × IsRotationUrl req.original_url)
unfolding is_password_change
is_password_change_iff req = (
  λ h.
      let (m, u) = and-parts (str_eq req.method "POST") _ h in
      ((eq_iff req.method "POST").0 m, url_matched req.original_url u),
  λ (m, u).
      and-both (str_eq req.method "POST") _ ((eq_iff req.method "POST").1 m)
        (url_matches req.original_url u),
)

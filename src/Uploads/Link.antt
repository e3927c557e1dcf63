-- ===== src/Uploads/Link.antt =====
-- The signed links of backend/src/services/uploadService.js: only a link that the server signed, and
-- only until it expires, opens a file.
use renuzi_ops_platform.Prelude.{
  ℕ, ◌+◌, ◌*◌, ◌≤◌, ◌≡◌, refl, sym, ap, ◌∙◌, ℤ, pos, negsuc, ltb_ℤ, true, false, Option, none, some,
  List, [], ◌∷◌, ◌++◌, ◌==◌, arith, if-holds, first_row, append_assoc,
}
use renuzi_ops_platform.DocNumbers.{decimal}
use renuzi_ops_platform.Processors.{same_text}
use renuzi_ops_platform.Pagination.Cursor.{split_dots}
use renuzi_ops_platform.Pagination.Codec.{parts_join, parts_join-split_dots, same_text-true}
use renuzi_ops_platform.Pagination.RoundTrip.{
  no_dot, is_part, part_no_dot, split_dots-no_dot, same_text_refl,
}
use renuzi_ops_platform.Uploads.Store.{local, StoredFile, put_file}
use renuzi_ops_platform.Uploads.Token.{
  token_payload, parse_int, signed_token, checked_expiry, checked_token, verify_signed_token,
  signed_url_token, decoded, resolve_token, sent, read_upload, content_of, get_content,
}
use renuzi_ops_platform.Uploads.Digits.{digits-no_dot, digits-decimal, parse_int-decimal}

split_dots-first :
    (a s : List ℕ) → no_dot a ≡ true → split_dots (a ++ (b'.' ∷ s)) ≡ a ∷ split_dots s
unfolding split_dots
split_dots-first [] s h = refl
split_dots-first (c ∷ a) s h =
    let rest = split_dots-first a s (ground arith) in
    let here : (c == b'.') ≡ false = ground arith in rw (here, rest) refl

module _ (mac : List ℕ → List ℕ) where
  split_dots-signed_token :
      (key : List ℕ) (e : ℕ)
      → no_dot key ≡ true
      → no_dot (mac (token_payload key e)) ≡ true
      → split_dots (signed_token mac key e) ≡ key ∷ decimal e ∷ mac (token_payload key e) ∷ []
  unfolding signed_token
  split_dots-signed_token key e hk hm =
      ap split_dots (append_assoc key (b'.' ∷ decimal e) (b'.' ∷ mac (token_payload key e)))
      ∙ split_dots-first key _ hk
      ∙ ap (λ t. key ∷ t)
          (split_dots-first (decimal e) _ (digits-no_dot (decimal e) (digits-decimal e)))
      ∙ ap (λ t. key ∷ decimal e ∷ t) (split_dots-no_dot _ hm)

  checked_expiry-own :
      (now e : ℕ) (key : List ℕ)
      → now ≤ e
      → checked_expiry mac now key (mac (token_payload key e)) (some (pos e)) ≡ some key
  checked_expiry-own now e key h =
      if-holds (λ r. r ≡ some key) (ltb_ℤ (pos e) (pos now)) _ _ (λ late. absurd (ground arith))
        (λ _. rw (same_text_refl (mac (token_payload key e))) refl)

  verify_signed_token-signed_token :
      (now e : ℕ) (key : List ℕ)
      → no_dot key ≡ true
      → no_dot (mac (token_payload key e)) ≡ true
      → now ≤ e
      → verify_signed_token mac now (signed_token mac key e) ≡ some key
  unfolding verify_signed_token
  verify_signed_token-signed_token now e key hk hm h =
      ap (checked_token mac now) (split_dots-signed_token key e hk hm)
      ∙ ap (checked_expiry mac now key (mac (token_payload key e))) (parse_int-decimal e)
      ∙ checked_expiry-own now e key h

  decoded-key :
      (decode : List ℕ → List ℕ) (key : List ℕ)
      → is_part key ≡ true
      → decoded mac decode (some key) ≡ some (decode key)
  decoded-key decode [] h = cc
  decoded-key decode (c ∷ key) h = refl

  first-put_file :
      (path content : List ℕ) (files : List StoredFile)
      → first_row (λ (f : StoredFile). same_text f.path path) (put_file path content files)
        ≡ some (record { path = path; content = content })
  unfolding first_row
  first-put_file path content files = rw (same_text_refl path) refl

  -- A file that is stored can be read through the link signed for its path until the link expires,
  -- if base64url decodes what it encoded, the encoded path is neither empty nor holds a dot, and
  -- the signature holds no dot.
  pub get_content-signed_url_token :
      (encode decode : List ℕ → List ℕ) (now t ttl c : ℕ) (path content : List ℕ)
      (files : List StoredFile)
      → decode (encode (c ∷ path)) ≡ c ∷ path
      → is_part (encode (c ∷ path)) ≡ true
      → no_dot (mac (token_payload (encode (c ∷ path)) (t + ttl * 1000))) ≡ true
      → now ≤ t + ttl * 1000
      → get_content mac local decode now
          (signed_url_token mac encode t ttl (c ∷ path))
          (put_file (c ∷ path) content files)
        ≡ sent content
  unfolding get_content resolve_token signed_url_token
  get_content-signed_url_token encode decode now t ttl c path content files back part clean h =
      let key = encode (c ∷ path) in
      let found =
        ap (decoded mac decode)
          (verify_signed_token-signed_token now (t + ttl * 1000) key (part_no_dot key part) clean h)
        ∙ decoded-key decode key part
        ∙ ap some back in
      ap (λ o. content_of o (put_file (c ∷ path) content files)) found
      ∙ ap read_upload (first-put_file (c ∷ path) content files)

  -- The token has the key, some digits and the signature of both, and has not expired.
  pub record IsGenuine (now : ℕ) (token key : List ℕ) : Type 0 where
    pub digits : List ℕ
    pub expires_at : ℕ
    pub parts : token ≡ key ++ (b'.' ∷ (digits ++ (b'.' ∷ mac (token_payload key expires_at))))
    pub time : parse_int digits ≡ some (pos expires_at)
    pub fresh : now ≤ expires_at

  checked_expiry-some :
      (now : ℕ) (key given : List ℕ) (o : Option ℤ) (found : List ℕ)
      → checked_expiry mac now key given o ≡ some found
      → (e : ℕ) × (o ≡ some (pos e))
        × (now ≤ e)
        × (given ≡ mac (token_payload key e))
        × (key ≡ found)
  checked_expiry-some now key given none found = λ h. cc
  checked_expiry-some now key given (some (negsuc n)) found = λ h. cc
  checked_expiry-some now key given (some (pos e)) found =
      if-holds
        (λ r.
          r ≡ some found
          → (n : ℕ) × (some (pos e) ≡ some (pos n))
            × (now ≤ n)
            × (given ≡ mac (token_payload key n))
            × (key ≡ found))
        (ltb_ℤ (pos e) (pos now)) _ _ (λ late h. cc)
        (λ fresh.
          if-holds
            (λ r.
              r ≡ some found
              → (n : ℕ) × (some (pos e) ≡ some (pos n))
                × (now ≤ n)
                × (given ≡ mac (token_payload key n))
                × (key ≡ found))
            (same_text given (mac (token_payload key e))) _ _
            (λ same h.
              (e, refl, ground arith, same_text-true given (mac (token_payload key e)) same, cc))
            (λ other h. cc))

  checked_token-IsGenuine :
      (now : ℕ) (token key : List ℕ) (parts : List (List ℕ))
      → parts_join parts ≡ token
      → checked_token mac now parts ≡ some key
      → IsGenuine now token key
  checked_token-IsGenuine now token key [] j h = cc
  checked_token-IsGenuine now token key (a ∷ []) j h = cc
  checked_token-IsGenuine now token key (a ∷ b ∷ []) j h = cc
  checked_token-IsGenuine now token key (a ∷ b ∷ c ∷ []) j h =
      let (e, time, fresh, signed, same) = checked_expiry-some now a c (parse_int b) key h in
      record {
        digits = b;
        expires_at = e;
        parts =
            sym j
            ∙ ap (λ x. a ++ (b'.' ∷ (b ++ (b'.' ∷ x)))) signed
            ∙ ap (λ x. x ++ (b'.' ∷ (b ++ (b'.' ∷ mac (token_payload x e))))) same;
        time = time;
        fresh = fresh;
      }
  checked_token-IsGenuine now token key (a ∷ b ∷ c ∷ d ∷ rest) j h = cc

  -- A link's token that is accepted is a key, the text of an expiry that is not past, and the
  -- signature of the key with that expiry.
  pub verify_signed_token-IsGenuine :
      (now : ℕ) (token key : List ℕ)
      → verify_signed_token mac now token ≡ some key
      → IsGenuine now token key
  unfolding verify_signed_token
  verify_signed_token-IsGenuine now token key h =
      checked_token-IsGenuine now token key (split_dots token) (parts_join-split_dots token) h

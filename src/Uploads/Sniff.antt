-- ===== src/Uploads/Sniff.antt =====
-- backend/src/services/uploadService.js: sniffMime and scanForViruses. A buffer is a list of bytes.
use renuzi_ops_platform.Prelude.{
  ℕ, zero, suc, ◌+◌, ◌%◌, Bool, true, false, ◌&&◌, ◌||◌, Option, none, some, List, [], ◌∷◌, leb,
  length, take, map, if◌then◌else◌,
}
use renuzi_ops_platform.DocNumbers.{codes}
use renuzi_ops_platform.Processors.{same_text}

pub data Mime : Type 0 where
  jpeg png webp pdf : Mime

pub record Signature : Type 0 where
  pub mime : Mime
  pub offset : ℕ
  pub bytes : List ℕ

abbrev pub magic_signatures : List Signature
magic_signatures =
    record { mime = jpeg; offset = 0; bytes = 255 ∷ 216 ∷ 255 ∷ [] }
    ∷ record { mime = png; offset = 0; bytes = 137 ∷ 80 ∷ 78 ∷ 71 ∷ [] }
    ∷ record { mime = pdf; offset = 0; bytes = codes "%PDF" }
    ∷ []

abbrev pub drop : ℕ → List ℕ → List ℕ
drop zero xs = xs
drop (suc n) [] = []
drop (suc n) (x ∷ xs) = drop n xs

-- buffer.subarray(offset, offset + n)
abbrev pub subarray : ℕ → ℕ → List ℕ → List ℕ
subarray offset n buffer = take n (drop offset buffer)

abbrev pub has_signature : List ℕ → Signature → Bool
has_signature buffer sig =
    leb (sig.offset + length sig.bytes) (length buffer)
    && same_text (subarray sig.offset (length sig.bytes) buffer) sig.bytes

-- toString('ascii') drops the high bit.
abbrev pub ascii : List ℕ → List ℕ
ascii bytes = map (λ b. b % 128) bytes

abbrev pub is_webp : List ℕ → Bool
is_webp buffer =
    leb 12 (length buffer)
    && (same_text (ascii (subarray 0 4 buffer)) (codes "RIFF")
        && same_text (ascii (subarray 8 4 buffer)) (codes "WEBP"))

abbrev pub first_signature : List Signature → List ℕ → Option Mime
first_signature [] buffer = if is_webp buffer then some webp else none
first_signature (sig ∷ sigs) buffer =
    let rest = first_signature sigs buffer in
    if has_signature buffer sig then some sig.mime else rest

unfoldable pub sniff_mime : List ℕ → Option Mime
sniff_mime buffer = first_signature magic_signatures buffer

abbrev pub starts_with : List ℕ → List ℕ → Bool
starts_with prefix text = same_text (take (length prefix) text) prefix

-- text.includes(part)
unfoldable pub includes : List ℕ → List ℕ → Bool
includes part [] = starts_with part []
includes part (c ∷ text) = starts_with part (c ∷ text) || includes part text

-- An answer of clamd; `none` is the error of an answer that says neither.
abbrev pub verdict : List ℕ → Option Bool
verdict response =
    if includes (codes "OK") response
    then some true
    else if includes (codes "FOUND") response
    then some false
    else none

abbrev pub heard : Option (List ℕ) → Option Bool
heard none = none
heard (some response) = verdict response

-- `clamd` gives what the scanner answers to the chunk that it is sent, or `none` where the socket
-- fails; without a scanner every buffer is clean. `none` is a rejected promise.
unfoldable pub scan_for_viruses : Option (List ℕ → Option (List ℕ)) → List ℕ → Option Bool
scan_for_viruses none buffer = some true
scan_for_viruses (some clamd) buffer = heard (clamd (take 1048576 buffer))

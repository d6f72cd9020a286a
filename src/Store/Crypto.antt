-- ===== src/Store/Crypto.antt =====
-- Encryption for private-window data: agent/crates/sr-agent/src/store/crypto.rs. AES-256-GCM, the
-- Windows data protection API, the random numbers and serde_json are a parameter.
use Prim.Native.Char.{code}
use session_restore.Common.{
  ℕ, zero, suc, ◌+◌, ◌/◌, ◌%◌, ◌≡◌, String, Bool, Option, none, some, List, [], ◌∷◌, ◌++◌, ◌==◌,
  ℕ_eq, ltb, if◌then◌else◌, length,
}
use session_restore.Exec.{Outcome, ok, err, Error, bad_key, bad_nonce, bad_crypto}

abbrev pub key_len : ℕ
key_len = 32

abbrev pub nonce_len : ℕ
nonce_len = 12

-- What gets encrypted for a private tab (`PrivatePayload` of ingest.rs).
pub record PrivatePayload : Type 0 where
  pub url : String
  pub title : Option String
  pub pinned : Bool
  pub active : Bool
  pub muted : Bool

-- `random draw n` is the n bytes of the draw with that number.
pub record Platform : Type 0 where
  pub random : ℕ → ℕ → List ℕ
  pub protect : List ℕ → List ℕ → Option (List ℕ)
  pub unprotect : List ℕ → List ℕ → Option (List ℕ)
  pub encrypt : List ℕ → List ℕ → List ℕ → List ℕ → Option (List ℕ)
  pub decrypt : List ℕ → List ℕ → List ℕ → List ℕ → Option (List ℕ)
  pub to_json : PrivatePayload → List ℕ
  pub from_json : List ℕ → Option PrivatePayload

-- The documented behaviour of the platform: what was protected or sealed is given back under the
-- same key, nonce and associated data, and a draw has the length that was asked for.
pub record IsPlatform (p : Platform) : Type 0 where
  pub length-random : (draw n : ℕ) → length (p.random draw n) ≡ n
  pub unprotect-protect :
      (raw entropy w : List ℕ) → p.protect raw entropy ≡ some w → p.unprotect w entropy ≡ some raw
  pub decrypt-encrypt :
      (key nonce aad msg c : List ℕ)
      → p.encrypt key nonce aad msg ≡ some c
      → p.decrypt key nonce aad c ≡ some msg

-- `char::encode_utf8`
unfoldable pub char_bytes : ℕ → List ℕ
char_bytes c =
    if ltb c 0x80
    then c ∷ []
    else if ltb c 0x800
    then (192 + c / 64) ∷ (128 + c % 64) ∷ []
    else if ltb c 0x10000
    then (224 + c / 4096) ∷ (128 + c / 64 % 64) ∷ (128 + c % 64) ∷ []
    else (240 + c / 262144) ∷ (128 + c / 4096 % 64) ∷ (128 + c / 64 % 64) ∷ (128 + c % 64) ∷ []

-- `str::as_bytes`
unfoldable pub as_bytes : String → List ℕ
unfolding char_bytes
as_bytes String.[] = []
as_bytes (String.◌∷◌ c s) = char_bytes (code c) ++ as_bytes s

-- The decimal digits of a number below 10 ^ fuel.
unfoldable pub decimal_digits : ℕ → ℕ → List ℕ
decimal_digits zero n = []
decimal_digits (suc fuel) n =
    let more = decimal_digits fuel (n / 10) in
    if ltb n 10 then (48 + n) ∷ [] else more ++ ((48 + n % 10) ∷ [])

-- Row ids are below 2 ^ 63, which has 19 digits.
unfoldable pub decimal : ℕ → List ℕ
unfolding decimal_digits
decimal n = decimal_digits 20 n

unfoldable pub aad : String → ℕ → List ℕ
unfolding decimal as_bytes
aad tab_key key_id = as_bytes tab_key ++ (0 ∷ decimal key_id)

-- A result of the platform, with its failure named.
abbrev pub or_error {ℓ} : {A : Type ℓ} → Error → Option A → Outcome A
or_error e none = err e
or_error e (some a) = ok a

-- `seal`, with the nonce that it draws.
unfoldable pub seal : Platform → List ℕ → List ℕ → List ℕ → List ℕ → Outcome (List ℕ)
seal p dek nonce aad_bytes plaintext = or_error bad_crypto (p.encrypt dek nonce aad_bytes plaintext)

-- `open`
unfoldable pub unseal : Platform → List ℕ → List ℕ → List ℕ → List ℕ → Outcome (List ℕ)
unseal p dek aad_bytes nonce ciphertext =
    if length nonce == nonce_len
    then or_error bad_crypto (p.decrypt dek nonce aad_bytes ciphertext)
    else err bad_nonce

unfoldable pub wrap_key : Platform → List ℕ → List ℕ → Outcome (List ℕ)
wrap_key p dek entropy = or_error bad_key (p.protect dek entropy)

-- `unwrap_key`, with the length check of `Dek::from_bytes`.
unfoldable pub unwrap_key : Platform → List ℕ → List ℕ → Outcome (List ℕ)
unwrap_key p wrapped entropy = elim (p.unprotect wrapped entropy) [
  | none ↦ err bad_key
  | some raw ↦ if length raw == key_len then ok raw else err bad_key
]

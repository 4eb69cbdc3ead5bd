-- ===== src/Encryption.antt =====
-- langgraph/temporal/encryption.py: payloads are encrypted on their way into Temporal's history. The
-- ciphers of the `cryptography` package, whether it is installed, `bytes.fromhex`, `str.encode` and
-- `os.urandom` are arguments; the n-th call of `os.urandom(k)` gives `urandom k n`.
pub mod RoundTrip
use langgraph_temporal.Prelude.{
  ℕ, ◌+◌, String, ◌==◌, Option, none, some, List, [], ◌∷◌, ◌++◌, Bool, ◌<>◌, if◌then◌else◌,
  or_default, eqb,
}
use langgraph_temporal.Prelude.Lists.{length, take, drop}
use langgraph_temporal.Prelude.Dict
use langgraph_temporal.Prelude.Result.{Result, ok, err, value_error, import_error, ◌>>=◌}
use langgraph_temporal.Codec.{Bytes, Payload, Protobuf}

-- `AESGCM(key).encrypt(nonce, data, None)` and `decrypt`, `Fernet(key).encrypt(data)` and `decrypt`.
pub record Ciphers : Type 0 where
  pub aes_encrypt : Bytes → Bytes → Bytes → Bytes
  pub aes_decrypt : Bytes → Bytes → Bytes → Result Bytes
  pub fernet_encrypt : Bytes → Bytes → Bytes
  pub fernet_decrypt : Bytes → Bytes → Result Bytes
  pub installed : Bool
  pub urandom : ℕ → ℕ → Bytes
  pub utf8 : String → Bytes
  pub from_hex : String → Result Bytes

abbrev pub encrypted_name : String
encrypted_name = "binary/encrypted"

abbrev pub metadata_key : String
metadata_key = "encryption-key-id"

abbrev pub fernet_name : String
fernet_name = "binary/fernet-encrypted"

pub record EncryptionCodec : Type 0 where
  pub key : Bytes
  pub key_id : String

-- The key that is given, or that of the environment.
unfoldable pub choose_key : Ciphers → Option Bytes → Option String → Result Bytes
choose_key Y (some key) env = ok key
choose_key Y none (some hex) = Y.from_hex hex
choose_key Y none none = err (value_error "Encryption key required")

unfoldable pub check_key : String → Bytes → Result EncryptionCodec
check_key key_id key =
    if eqb (length key) 32
    then ok (record { key = key; key_id = key_id })
    else err (value_error "Encryption key must be exactly 32 bytes")

-- The constructor, with the environment variable.
unfoldable pub new_codec : Ciphers → Option Bytes → Option String → String → Result EncryptionCodec
unfolding choose_key check_key
new_codec Y key env key_id = choose_key Y key env >>= check_key key_id

-- The n-th random key.
unfoldable pub generate_encryption_key : Ciphers → ℕ → Bytes
generate_encryption_key Y n = Y.urandom 32 n

-- `try: from cryptography import ...`, before what needs it.
unfoldable pub imported : {A : Type 0} → Ciphers → String → Result A → Result A
imported Y purpose r =
    if Y.installed
    then r
    else err (
        import_error (
          "The `cryptography` package is required for " <> purpose
          <> ". Install it with: pip install cryptography"))

module _ (Y : Ciphers) (B : Protobuf) (codec : EncryptionCodec) where
  unfoldable pub encrypt_payload : Payload → ℕ → Result Payload
  unfolding imported
  encrypt_payload p n = imported Y "encryption" (
      ok (record {
        metadata = ("encoding", encrypted_name) ∷ (metadata_key, codec.key_id) ∷ [];
        payload_data = Y.urandom 12 n ++ Y.aes_encrypt codec.key (Y.urandom 12 n) (B.serialize p);
      }))

  -- The nonces are drawn one after the other, from the n-th on.
  unfoldable pub encrypt_all : List Payload → ℕ → Result (List Payload)
  unfolding encrypt_payload
  encrypt_all [] n = ok []
  encrypt_all (p ∷ ps) n = encrypt_payload p n >>= λ q. encrypt_all ps (n + 1) >>= λ qs. ok (q ∷ qs)

  unfoldable pub decrypt_payload : Payload → Result Payload
  unfolding imported
  decrypt_payload p =
      if or_default (Dict.get p.metadata "encoding") "" == encrypted_name
      then imported Y "decryption" (
          Y.aes_decrypt codec.key (take 12 p.payload_data) (drop 12 p.payload_data) >>= λ plaintext.
          B.parse plaintext)
      else ok p

  unfoldable pub decrypt_all : List Payload → Result (List Payload)
  unfolding decrypt_payload
  decrypt_all [] = ok []
  decrypt_all (p ∷ ps) = decrypt_payload p >>= λ q. decrypt_all ps >>= λ qs. ok (q ∷ qs)

-- The key of a Fernet codec: bytes, or a text that is encoded.
pub data FernetKey : Type 0 where
  key_bytes : Bytes → FernetKey
  key_text : String → FernetKey

unfoldable pub fernet_key : Ciphers → FernetKey → Bytes
fernet_key Y (key_bytes key) = key
fernet_key Y (key_text key) = Y.utf8 key

-- `FernetEncryptionCodec`, with its key.
module _ (Y : Ciphers) (B : Protobuf) (key : Bytes) where
  unfoldable pub fernet_encrypt_payload : Payload → Result Payload
  unfolding imported
  fernet_encrypt_payload p = imported Y "Fernet encryption" (
      ok (record {
        metadata = ("encoding", fernet_name) ∷ [];
        payload_data = Y.fernet_encrypt key (B.serialize p);
      }))

  unfoldable pub fernet_decrypt_payload : Payload → Result Payload
  unfolding imported
  fernet_decrypt_payload p =
      if or_default (Dict.get p.metadata "encoding") "" == fernet_name
      then imported Y "Fernet decryption"
          (Y.fernet_decrypt key p.payload_data >>= λ plaintext. B.parse plaintext)
      else ok p

  unfoldable pub fernet_encode : List Payload → Result (List Payload)
  unfolding fernet_encrypt_payload
  fernet_encode [] = ok []
  fernet_encode (p ∷ ps) = fernet_encrypt_payload p >>= λ q. fernet_encode ps >>= λ qs. ok (q ∷ qs)

  unfoldable pub fernet_decode : List Payload → Result (List Payload)
  unfolding fernet_decrypt_payload
  fernet_decode [] = ok []
  fernet_decode (p ∷ ps) = fernet_decrypt_payload p >>= λ q. fernet_decode ps >>= λ qs. ok (q ∷ qs)

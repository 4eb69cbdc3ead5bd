-- ===== src/Encryption/RoundTrip.antt =====
-- The codecs of langgraph/temporal/encryption.py, and the constructor's check of the key.
use langgraph_temporal.Prelude.{
  ℕ, zero, suc, ◌+◌, String, ◌≡◌, refl, arith, Option, some, true, false, ◌<>◌, List, [], ◌∷◌, ◌++◌,
  inl, inr,
}
use langgraph_temporal.Prelude.Lists.{length, take, drop}
use langgraph_temporal.Prelude.Dict
use langgraph_temporal.Prelude.Result.{Exn, ok, err, import_error, Result-cases, ◌>>=◌}
use langgraph_temporal.Codec.{Bytes, Payload, Protobuf}
use langgraph_temporal.Encryption.{
  Ciphers, EncryptionCodec, encrypted_name, metadata_key, imported, generate_encryption_key,
  new_codec, choose_key, check_key, encrypt_all, decrypt_all, encrypt_payload, decrypt_payload,
  fernet_encode, fernet_decode, fernet_encrypt_payload, fernet_decrypt_payload,
}

-- Protocol buffers reads back what it writes of the payloads.
abbrev pub Reads : Protobuf → List Payload → Type 0
Reads B [] = Unit
Reads B (p ∷ ps) = (B.parse (B.serialize p) ≡ ok p) × Reads B ps

take-append : (xs ys : Bytes) (n : ℕ) → length xs ≡ n → take n (xs ++ ys) ≡ xs
take-append [] ys zero h = refl
take-append [] ys (suc n) h = absurd (omega arith)
take-append (x ∷ xs) ys zero h = absurd (omega arith)
take-append (x ∷ xs) ys (suc n) h = rw (take-append xs ys n (omega arith))

drop-append : (xs ys : Bytes) (n : ℕ) → length xs ≡ n → drop n (xs ++ ys) ≡ ys
drop-append [] ys zero h = refl
drop-append [] ys (suc n) h = absurd (omega arith)
drop-append (x ∷ xs) ys zero h = absurd (omega arith)
drop-append (x ∷ xs) ys (suc n) h = drop-append xs ys n (omega arith)

-- A codec that the constructor returns has a key of 32 bytes, wherever the key comes from.
new_codec-length :
    (Y : Ciphers) (key : Option Bytes) (env : Option String) (key_id : String)
    (codec : EncryptionCodec)
    → new_codec Y key env key_id ≡ ok codec
    → length codec.key ≡ 32
unfolding new_codec check_key
new_codec-length Y key env key_id codec h = elim (Result-cases (choose_key Y key env)) [
  | inl (k, e) ↦ ground (arith, e)
  | inr (x, e) ↦ ground (arith, e)
]

-- A generated key is taken by the constructor.
new_codec-generate :
    (Y : Ciphers) (n : ℕ) (env : Option String) (key_id : String)
    → length (Y.urandom 32 n) ≡ 32
    → new_codec Y (some (generate_encryption_key Y n)) env key_id
      ≡ ok (record { key = Y.urandom 32 n; key_id = key_id })
unfolding new_codec choose_key check_key generate_encryption_key
new_codec-generate Y n env key_id h = ground (arith, h)

module _ (Y : Ciphers) (B : Protobuf) (codec : EncryptionCodec) where
  -- What a payload becomes.
  abbrev sealed : Payload → ℕ → Payload
  sealed p n = record {
    metadata = ("encoding", encrypted_name) ∷ (metadata_key, codec.key_id) ∷ [];
    payload_data = Y.urandom 12 n ++ Y.aes_encrypt codec.key (Y.urandom 12 n) (B.serialize p);
  }

  abbrev sealed_all : List Payload → ℕ → List Payload
  sealed_all [] n = []
  sealed_all (p ∷ ps) n = sealed p n ∷ sealed_all ps (n + 1)

  encrypt_all-sealed :
      (ps : List Payload) (n : ℕ)
      → Y.installed ≡ true
      → encrypt_all Y B codec ps n ≡ ok (sealed_all ps n)
  unfolding encrypt_all encrypt_payload imported
  encrypt_all-sealed [] n here = refl
  encrypt_all-sealed (p ∷ ps) n here = ground (arith, here, encrypt_all-sealed ps (n + 1) here)

  decrypt-sealed :
      (p : Payload) (n : ℕ)
      → Y.installed ≡ true
      → length (Y.urandom 12 n) ≡ 12
      → Y.aes_decrypt codec.key
          (Y.urandom 12 n)
          (Y.aes_encrypt codec.key (Y.urandom 12 n) (B.serialize p))
        ≡ ok (B.serialize p)
      → B.parse (B.serialize p) ≡ ok p
      → decrypt_payload Y B codec (sealed p n) ≡ ok p
  unfolding decrypt_payload imported Dict.get
  decrypt-sealed p n here twelve opens reads =
      let box = Y.aes_encrypt codec.key (Y.urandom 12 n) (B.serialize p) in
      ground (
        arith,
        here,
        take-append (Y.urandom 12 n) box 12 twelve,
        drop-append (Y.urandom 12 n) box 12 twelve,
        opens,
        reads,
      )

  decrypt_all-sealed :
      (ps : List Payload) (n : ℕ)
      → Y.installed ≡ true
      → ((i : ℕ) → length (Y.urandom 12 i) ≡ 12)
      → ((i : ℕ) (data_bytes : Bytes)
          → Y.aes_decrypt codec.key
              (Y.urandom 12 i)
              (Y.aes_encrypt codec.key (Y.urandom 12 i) data_bytes)
            ≡ ok data_bytes)
      → Reads B ps
      → decrypt_all Y B codec (sealed_all ps n) ≡ ok ps
  unfolding decrypt_all
  decrypt_all-sealed [] n here twelve opens h = refl
  decrypt_all-sealed (p ∷ ps) n here twelve opens (reads, h) = ground (
    arith,
    decrypt-sealed p n here (twelve n) (opens n (B.serialize p)) reads,
    decrypt_all-sealed ps (n + 1) here twelve opens h,
  )

-- If the cryptography package is installed, random bytes are as many as asked for, the cipher opens
-- under the same key and nonce what it sealed, and protocol buffers reads back what it writes, then
-- the constructor takes a generated key, and with this codec the payloads can be encrypted, and
-- decrypting them gives them back, encrypted ones among them included.
pub decrypt_all-encrypt_all :
    (Y : Ciphers) (B : Protobuf) (ps : List Payload) (k n : ℕ) (env : Option String)
    (key_id : String)
    → Y.installed ≡ true
    → ((size i : ℕ) → length (Y.urandom size i) ≡ size)
    → ((key nonce data_bytes : Bytes)
        → Y.aes_decrypt key nonce (Y.aes_encrypt key nonce data_bytes) ≡ ok data_bytes)
    → Reads B ps
    → (codec : EncryptionCodec) × (sealed : List Payload) × (new_codec Y
          (some (generate_encryption_key Y k))
          env
          key_id
        ≡ ok codec)
      × (encrypt_all Y B codec ps n ≡ ok sealed)
      × (decrypt_all Y B codec sealed ≡ ok ps)
decrypt_all-encrypt_all Y B ps k n env key_id here sizes opens reads =
    let codec : EncryptionCodec = record { key = Y.urandom 32 k; key_id = key_id } in
    (
      codec,
      sealed_all Y B codec ps n,
      new_codec-generate Y k env key_id (sizes 32 k),
      encrypt_all-sealed Y B codec ps n here,
      decrypt_all-sealed Y B codec ps n here (sizes 12) (λ i. opens codec.key (Y.urandom 12 i))
          reads,
    )

-- Without the cryptography package nothing is encrypted.
encrypt_all-not_installed :
    (Y : Ciphers) (B : Protobuf) (codec : EncryptionCodec) (p : Payload) (ps : List Payload) (n : ℕ)
    → Y.installed ≡ false
    → (e : Exn) × (encrypt_all Y B codec (p ∷ ps) n ≡ err e)
unfolding encrypt_all encrypt_payload imported
encrypt_all-not_installed Y B codec p ps n gone = (
  import_error (
      "The `cryptography` package is required for " <> "encryption"
      <> ". Install it with: pip install cryptography"),
  ground (arith, gone),
)

module _ (Y : Ciphers) (B : Protobuf) (key : Bytes) where
  -- If Fernet opens under the same key what it sealed, and protocol buffers reads back what it
  -- writes, then decoding what was encoded gives the payloads back.
  fernet_decode-fernet_encode :
      (ps : List Payload)
      → Y.installed ≡ true
      → ((data_bytes : Bytes)
          → Y.fernet_decrypt key (Y.fernet_encrypt key data_bytes) ≡ ok data_bytes)
      → Reads B ps
      → (fernet_encode Y B key ps >>= fernet_decode Y B key) ≡ ok ps
  unfolding fernet_decode fernet_encode fernet_decrypt_payload fernet_encrypt_payload imported
      Dict.get
  fernet_decode-fernet_encode [] here opens h = refl
  fernet_decode-fernet_encode (p ∷ ps) here opens (reads, h) =
      let later = fernet_decode-fernet_encode ps here opens h in
      elim (Result-cases (fernet_encode Y B key ps)) [
        | inl (qs, e) ↦ ground (arith, here, opens (B.serialize p), reads, e, later)
        | inr (x, e) ↦ ground (arith, here, e, later)
      ]

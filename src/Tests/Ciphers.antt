-- ===== src/Tests/Ciphers.antt =====
-- The codecs of langgraph/temporal/encryption.py with toy ciphers, at concrete inputs.
use langgraph_temporal.Prelude.{ℕ, zero, suc, none, some, true, ◌≡◌, refl, ap, List, [], ◌∷◌}
use langgraph_temporal.Prelude.Lists.{length}
use langgraph_temporal.Prelude.Result.{Result, ok, err, value_error}
use langgraph_temporal.Codec.{Bytes, Payload, Protobuf}
use langgraph_temporal.Encryption.{
  Ciphers, EncryptionCodec, generate_encryption_key, new_codec, encrypt_all, decrypt_all,
}
use langgraph_temporal.Encryption.RoundTrip.{decrypt_all-encrypt_all}

-- A seal in front of the data.
abbrev unseal : Bytes → Result Bytes
unseal [] = err (value_error "InvalidTag")
unseal (b ∷ bs) = ok bs

-- Random bytes that are all the same.
abbrev noise : ℕ → ℕ → Bytes
noise zero n = []
noise (suc k) n = n ∷ noise k n

length-noise : (k n : ℕ) → length (noise k n) ≡ k
length-noise zero n = refl
length-noise (suc k) n = ap suc (length-noise k n)

abbrev toy_ciphers : Ciphers
toy_ciphers = record {
  aes_encrypt = λ key nonce text. 7 ∷ text;
  aes_decrypt = λ key nonce sealed. unseal sealed;
  fernet_encrypt = λ key text. 9 ∷ text;
  fernet_decrypt = λ key sealed. unseal sealed;
  installed = true;
  urandom = noise;
  utf8 = λ s. [];
  from_hex = λ s. err (value_error "fromhex");
}

abbrev data_only : Protobuf
data_only = record {
  serialize = λ p. p.payload_data;
  parse = λ s. ok (record { metadata = []; payload_data = s });
  sha256_hex = λ s. "";
  uuid_hex = λ n. "";
}

abbrev secrets : List Payload
secrets =
    record { metadata = []; payload_data = 1 ∷ 2 ∷ [] }
    ∷ record { metadata = []; payload_data = 3 ∷ [] }
    ∷ []

decrypt_all-encrypt_all_example :
    (codec : EncryptionCodec) × (sealed : List Payload) × (new_codec toy_ciphers
        (some (noise 32 3))
        none
        "default"
      ≡ ok codec)
    × (encrypt_all toy_ciphers data_only codec secrets 5 ≡ ok sealed)
    × (decrypt_all toy_ciphers data_only codec sealed ≡ ok secrets)
unfolding generate_encryption_key
decrypt_all-encrypt_all_example =
    decrypt_all-encrypt_all toy_ciphers data_only secrets 3 5 none "default" refl length-noise
      (λ key nonce b. refl) (refl, (refl, tt))

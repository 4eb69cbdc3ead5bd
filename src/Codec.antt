-- ===== src/Codec.antt =====
-- langgraph/temporal/_codec.py: payloads too large for Temporal's history are kept in a blob
-- store. Metadata are texts. Protocol buffers
-- (`SerializeToString`, `ParseFromString`) and `sha256` are the library's, an argument; `blob_keys`
-- gives the key of the n-th blob, `{prefix}/{uuid}-{hash}`, from the serialized payload.
pub mod RoundTrip
use langgraph_temporal.Prelude.{
  ℕ, ◌+◌, ◌*◌, String, ◌<>◌, ◌==◌, Option, none, some, List, [], ◌∷◌, if◌then◌else◌, or_default,
  ltb,
}
use langgraph_temporal.Prelude.Lists.{length}
use langgraph_temporal.Prelude.Dict
use langgraph_temporal.Prelude.Dict.{Dict}
use langgraph_temporal.Prelude.Result.{Result, ok, err, key_error, ◌>>=◌}
use langgraph_temporal.Text.{first_chars}

-- A byte is a number.
abbrev pub Bytes : Type 0
Bytes = List ℕ

-- Temporal's `Payload`.
pub record Payload : Type 0 where
  pub metadata : Dict String
  pub payload_data : Bytes

-- What the codec uses of protocol buffers, `hashlib` and `uuid`.
pub record Protobuf : Type 0 where
  pub serialize : Payload → Bytes
  pub parse : Bytes → Result Payload
  pub sha256_hex : Bytes → String
  pub uuid_hex : ℕ → String

-- `BlobStore`: the abstract methods, on what a store keeps.
pub record BlobStore : Type 1 where
  pub State : Type 0
  pub put : String → Bytes → State → Result (String × State)
  pub get : String → State → Result Bytes
  pub delete : String → State → Result State

-- `InMemoryBlobStore`, and its methods.
pub record InMemoryBlobStore : Type 0 where
  pub store : Dict Bytes

unfoldable pub put : String → Bytes → InMemoryBlobStore → String × InMemoryBlobStore
put key blob s = (key, record { store = Dict.put s.store key blob })

unfoldable pub fetch : String → InMemoryBlobStore → Result Bytes
fetch key s = elim (Dict.get s.store key) [
  | none ↦ err (key_error ("Blob not found: " <> key))
  | some d ↦ ok d
]

unfoldable pub delete : String → InMemoryBlobStore → InMemoryBlobStore
delete key s = record { store = Dict.remove s.store key }

abbrev pub in_memory : BlobStore
in_memory = record {
  State = InMemoryBlobStore;
  put = λ key blob s. ok (put key blob s);
  get = fetch;
  delete = λ key s. ok (delete key s);
}

-- `LargePayloadCodec`, its constructor's arguments.
pub record LargePayloadCodec : Type 0 where
  pub size_threshold : ℕ
  pub prefix : String

abbrev pub default_size_threshold : ℕ
default_size_threshold = 2 * 1024 * 1024

abbrev pub encoding_name : String
encoding_name = "binary/blob-ref"

abbrev pub metadata_blob_key : String
metadata_blob_key = "blob-key"

-- The state of an `encode`: the store's, and how many uuids have been drawn.
abbrev pub Blobs : BlobStore → Type 0
Blobs S = S.State × ℕ

module _ (B : Protobuf) (codec : LargePayloadCodec) where
  -- f"{prefix}/{uuid.uuid4().hex[:12]}-{sha256(serialized).hexdigest()[:16]}"
  unfoldable pub blob_key : Bytes → ℕ → String
  blob_key serialized n =
      codec.prefix
      <> ("/"
          <> (first_chars 12 (B.uuid_hex n) <> ("-" <> first_chars 16 (B.sha256_hex serialized))))

  unfoldable pub reference : String → Payload
  reference key = record {
    metadata = ("encoding", encoding_name) ∷ (metadata_blob_key, key) ∷ [];
    payload_data = [];
  }

  module _ (S : BlobStore) where
    -- The key that `put` returns is not used.
    unfoldable pub offload_payload : Bytes → Blobs S → Result (Payload × Blobs S)
    unfolding blob_key reference
    offload_payload serialized (s, n) =
        let key = blob_key serialized n in
        S.put key serialized s >>= λ (k, s'). ok (reference key, (s', n + 1))

    unfoldable pub encode_payload : Payload → Blobs S → Result (Payload × Blobs S)
    unfolding offload_payload
    encode_payload p b =
        let serialized = B.serialize p in
        if ltb codec.size_threshold (length serialized)
        then offload_payload serialized b
        else ok (p, b)

    unfoldable pub encode : List Payload → Blobs S → Result (List Payload × Blobs S)
    unfolding encode_payload
    encode [] b = ok ([], b)
    encode (p ∷ ps) b =
        encode_payload p b >>= λ (q, b'). encode ps b' >>= λ (qs, b''). ok (q ∷ qs, b'')

    unfoldable pub fetch_payload : Payload → S.State → Result Payload
    fetch_payload p s =
        let key = or_default (Dict.get p.metadata metadata_blob_key) "" in
        if key == "" then ok p else (S.get key s >>= λ blob. B.parse blob)

    unfoldable pub decode_payload : Payload → S.State → Result Payload
    unfolding fetch_payload
    decode_payload p s =
        if or_default (Dict.get p.metadata "encoding") "" == encoding_name
        then fetch_payload p s
        else ok p

    unfoldable pub decode : List Payload → S.State → Result (List Payload)
    unfolding decode_payload
    decode [] s = ok []
    decode (p ∷ ps) s = decode_payload p s >>= λ q. decode ps s >>= λ qs. ok (q ∷ qs)

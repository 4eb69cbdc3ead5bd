-- ===== src/Codec/RoundTrip.antt =====
-- `LargePayloadCodec.encode` and `decode` of langgraph/temporal/_codec.py, one after the other.
use Prim.Native.String
use Prim.Native.String.append
use Prim.Native.String.compare
use mathlib.Core.Path.{subst}
use text.Mathlib.Text.{is_eq}
use langgraph_temporal.Prelude.{
  ℕ, ◌+◌, String, ◌<>◌, ◌==◌, ◌≡◌, refl, ap, arith, true, false, List, [], ◌∷◌, if◌then◌else◌,
  or_default, ltb, Bool-cases, inl, inr, eq_refl, ◌∙◌,
}
use langgraph_temporal.Prelude.Lists.{any, length}
use langgraph_temporal.Prelude.Dict
use langgraph_temporal.Prelude.Result.{ok, ◌>>=◌}
use langgraph_temporal.Codec.{
  Payload, Bytes, Protobuf, BlobStore, LargePayloadCodec, encode, decode, encode_payload,
  decode_payload, offload_payload, fetch_payload, blob_key, encoding_name, reference, put, fetch,
  in_memory, Blobs,
}

slash_nonempty : (p r : String) → (p <> ("/" <> r) == "") ≡ false
slash_nonempty String.[] r =
    ap (λ z. is_eq (String.compare z "")) (append.nil ("/" <> r) ∙ append.cons "/" "" r)
    ∙ ap is_eq (compare.cons-nil "/" ("" <> r))
slash_nonempty (String.◌∷◌ c p) r =
    ap (λ z. is_eq (String.compare z "")) (append.cons c p ("/" <> r))
    ∙ ap is_eq (compare.cons-nil c (p <> ("/" <> r)))

-- A store that keeps data under the key that is given for it: `put` succeeds with that key, `get` then
-- gives the data, and what other keys give is as before.
pub record StoresUnder (S : BlobStore) : Type 0 where
  pub stored : String → Bytes → S.State → S.State
  pub puts :
      (key : String) (blob : Bytes) (s : S.State) → S.put key blob s ≡ ok (key, stored key blob s)
  pub gets : (key : String) (blob : Bytes) (s : S.State) → S.get key (stored key blob s) ≡ ok blob
  pub keeps :
      (key other : String) (blob : Bytes) (s : S.State)
      → (key == other) ≡ false
      → S.get other (stored key blob s) ≡ S.get other s

pub in_memory-StoresUnder : StoresUnder in_memory
unfolding put fetch
in_memory-StoresUnder = record {
  stored = λ key blob s. record { store = Dict.put s.store key blob };
  puts = λ key blob s. refl;
  gets = λ key blob s. ground (arith, Dict.get-put s.store key key blob, eq_refl key);
  keeps = λ key other blob s h. ground (arith, Dict.get-put s.store key other blob, h);
}

-- No two blobs have the same key.
abbrev pub Distinct : List String → Type 0
Distinct [] = Unit
Distinct (k ∷ ks) = (any (λ j. j == k) ks ≡ false) × Distinct ks

-- The payloads are not references, and protocol buffers reads back what it writes of them.
abbrev pub Plain : Protobuf → List Payload → Type 0
Plain B [] = Unit
Plain B (p ∷ ps) =
    ((or_default (Dict.get p.metadata "encoding") "" == encoding_name) ≡ false)
    × (B.parse (B.serialize p) ≡ ok p)
    × Plain B ps

module _ (B : Protobuf) (codec : LargePayloadCodec) where
  -- The keys of the blobs that `encode` stores.
  abbrev pub keys_of : List Payload → ℕ → List String
  keys_of [] n = []
  keys_of (p ∷ ps) n =
      let stored = blob_key B codec (B.serialize p) n ∷ keys_of ps (n + 1) in
      let kept = keys_of ps n in
      if ltb codec.size_threshold (length (B.serialize p)) then stored else kept

  blob_key-nonempty : (x : Bytes) (n : ℕ) → (blob_key B codec x n == "") ≡ false
  unfolding blob_key
  blob_key-nonempty x n = slash_nonempty codec.prefix _

  keys-stored :
      (p : Payload) (ps : List Payload) (n : ℕ)
      → ltb codec.size_threshold (length (B.serialize p)) ≡ true
      → keys_of (p ∷ ps) n ≡ blob_key B codec (B.serialize p) n ∷ keys_of ps (n + 1)
  keys-stored p ps n big = ground (arith, big)

  keys-kept :
      (p : Payload) (ps : List Payload) (n : ℕ)
      → ltb codec.size_threshold (length (B.serialize p)) ≡ false
      → keys_of (p ∷ ps) n ≡ keys_of ps n
  keys-kept p ps n small = ground (arith, small)

module _ (B : Protobuf) (codec : LargePayloadCodec) (S : BlobStore) (laws : StoresUnder S) where
  -- What `encode` returns, and what the store holds after it.
  abbrev encoded : List Payload → ℕ → List Payload
  encoded [] n = []
  encoded (p ∷ ps) n =
      let stored = reference B codec (blob_key B codec (B.serialize p) n) ∷ encoded ps (n + 1) in
      let kept = p ∷ encoded ps n in
      if ltb codec.size_threshold (length (B.serialize p)) then stored else kept

  abbrev filled : List Payload → S.State → ℕ → Blobs S
  filled [] s n = (s, n)
  filled (p ∷ ps) s n =
      let stored =
        filled ps (laws.stored (blob_key B codec (B.serialize p) n) (B.serialize p) s) (n + 1) in
      let kept = filled ps s n in
      if ltb codec.size_threshold (length (B.serialize p)) then stored else kept

  encode-filled :
      (ps : List Payload) (s : S.State) (n : ℕ)
      → encode B codec S ps (s, n) ≡ ok (encoded ps n, filled ps s n)
  unfolding encode encode_payload offload_payload
  encode-filled [] s n = refl
  encode-filled (p ∷ ps) s n =
      let key = blob_key B codec (B.serialize p) n in
      ground (
        arith,
        laws.puts key (B.serialize p) s,
        encode-filled ps s n,
        encode-filled ps (laws.stored key (B.serialize p) s) (n + 1),
      )

  filled-keeps :
      (ps : List Payload) (s : S.State) (n : ℕ) (k : String)
      → any (λ j. j == k) (keys_of B codec ps n) ≡ false
      → S.get k (filled ps s n).0 ≡ S.get k s
  filled-keeps [] s n k h = refl
  filled-keeps (p ∷ ps) s n k h =
      let key = blob_key B codec (B.serialize p) n in
      ground (
        arith,
        filled-keeps ps s n k,
        filled-keeps ps (laws.stored key (B.serialize p) s) (n + 1) k,
        laws.keeps key k (B.serialize p) s,
      )

  reference-decodes :
      (key : String) (p : Payload) (s : S.State)
      → (key == "") ≡ false
      → S.get key s ≡ ok (B.serialize p)
      → B.parse (B.serialize p) ≡ ok p
      → decode_payload B codec S (reference B codec key) s ≡ ok p
  unfolding decode_payload fetch_payload reference Dict.get
  reference-decodes key p s full there reads = ground arith

  plain-decodes :
      (p : Payload) (s : S.State)
      → (or_default (Dict.get p.metadata "encoding") "" == encoding_name) ≡ false
      → decode_payload B codec S p s ≡ ok p
  unfolding decode_payload
  plain-decodes p s plain = ground arith

  stored-decodes :
      (p : Payload) (ps : List Payload) (s : S.State) (n : ℕ)
      → Distinct (blob_key B codec (B.serialize p) n ∷ keys_of B codec ps (n + 1))
      → B.parse (B.serialize p) ≡ ok p
      → let key = blob_key B codec (B.serialize p) n in
        decode_payload B codec S
          (reference B codec key)
          (filled ps (laws.stored key (B.serialize p) s) (n + 1)).0
        ≡ ok p
  stored-decodes p ps s n (new, d) reads =
      let key = blob_key B codec (B.serialize p) n in
      reference-decodes key p _ (blob_key-nonempty B codec (B.serialize p) n)
        (filled-keeps ps (laws.stored key (B.serialize p) s) (n + 1) key new
          ∙ laws.gets key (B.serialize p) s)
        reads

  decode-filled :
      (ps : List Payload) (s : S.State) (n : ℕ)
      → Distinct (keys_of B codec ps n)
      → Plain B ps
      → decode B codec S (encoded ps n) (filled ps s n).0 ≡ ok ps
  unfolding decode
  decode-filled [] s n d h = refl
  decode-filled (p ∷ ps) s n d (plain, reads, h) =
      let key = blob_key B codec (B.serialize p) n in
      elim (Bool-cases (ltb codec.size_threshold (length (B.serialize p)))) [
        | inl large ↦
            let (new, d') = subst Distinct (keys-stored B codec p ps n large) d in
            ground (
              arith,
              large,
              stored-decodes p ps s n (new, d') reads,
              decode-filled ps (laws.stored key (B.serialize p) s) (n + 1) d' h,
            )
        | inr small ↦ ground (
          arith,
          small,
          plain-decodes p (filled ps s n).0 plain,
          decode-filled ps s n (subst Distinct (keys-kept B codec p ps n small) d) h,
        )
      ]

  -- For any store that keeps data under the key that is given for it: if the keys of the stored blobs are
  -- distinct, the payloads are not references themselves, and protocol buffers reads back what it
  -- writes of them, then encoding succeeds, and decoding what it returned gives the payloads back,
  -- whatever the store held before and whatever the sizes are.
  pub decode-encode :
      (ps : List Payload) (s : S.State) (n : ℕ)
      → Distinct (keys_of B codec ps n)
      → Plain B ps
      → (encode B codec S ps (s, n) >>= λ (qs, (s', n')). decode B codec S qs s') ≡ ok ps
  decode-encode ps s n d h =
      ap (λ r. r >>= λ (qs, (s', n')). decode B codec S qs s') (encode-filled ps s n)
      ∙ decode-filled ps s n d h

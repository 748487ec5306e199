-- ===== src/Examples/Streams.antt =====
-- Runs of the streaming gate.
use custody.Base.{◌≡◌, ◌⊎◌, refl, String, false, [], ◌∷◌, ◌++◌, none, some, All, replicate}
use custody.Crypto.{Bytes}
use custody.Ts.Merkle.Soundness.{Collision}
use custody.Enforce.StreamingGate.{
  StreamingGate, open_stream, replies, step, feed, finish, digest_from_hex, link,
}
use custody.Enforce.StreamingGate.Sessions.{IsTampered, tampered-replies}
use custody.Enforce.StreamingGate.Chains.{chain}
use custody.Enforce.StreamingGate.Streams.{
  Chunk, calls, bodies, IsDone, IsCounted, accepted_chain, accepted_unique,
}
use custody.Examples.{toy, toy_hash, toy_hash-IsDigest}

-- The chain of one chunk under the toy hash, which keeps the first 32 bytes.
abbrev root_text : String
root_text = "0102000000000000000000000000000000000000000000000000000000000000"

abbrev started : StreamingGate
started = record {
  expected_root = 1 ∷ 2 ∷ replicate 30 0;
  chain_hash = 1 ∷ 2 ∷ replicate 30 0;
  next_index = 1;
  failed = false;
  finalized = false;
}

abbrev chunk : Chunk
chunk = (1, 65 ∷ [], none)

opened_example : open_stream toy root_text (1 ∷ []) (2 ∷ []) ≡ some started
unfolding open_stream digest_from_hex custody.Crypto.from_hex
opened_example = refl

replies-IsDone : All IsDone (replies toy started (calls (chunk ∷ []) root_text))
unfolding replies step custody.Enforce.StreamingGate.feed_chunk
    custody.Enforce.StreamingGate.finalize digest_from_hex custody.Crypto.from_hex
    custody.Ts.Merkle.bytes_eq
replies-IsDone = (tt, (tt, tt))

chain_example :
    (digest_from_hex root_text ≡ some (chain toy (toy_hash (1 ∷ 2 ∷ [])) 1 (bodies (chunk ∷ []))))
    × IsCounted 1 (chunk ∷ [])
chain_example =
    accepted_chain toy root_text (1 ∷ []) (2 ∷ []) started (chunk ∷ []) root_text opened_example
      replies-IsDone

abbrev one : Bytes
one = 1 ∷ []

abbrev two : Bytes
two = 2 ∷ []

unique_example :
    ((one ++ two ≡ one ++ two) × (bodies (chunk ∷ []) ≡ bodies (chunk ∷ []))) ⊎ Collision toy_hash
unique_example =
    accepted_unique toy toy_hash-IsDigest root_text one one two two started started chunk chunk []
      [] root_text root_text opened_example opened_example replies-IsDone replies-IsDone

-- The second chunk comes first.
refused : IsTampered (step toy started (feed 2 (65 ∷ []) none)).1
unfolding step custody.Enforce.StreamingGate.feed_chunk
refused = tt

tampered_example : All IsTampered (
    replies toy
      (step toy started (feed 2 (65 ∷ []) none)).0
      (feed 1 (65 ∷ []) none ∷ finish root_text ∷ []))
tampered_example =
    tampered-replies toy started (feed 2 (65 ∷ []) none)
      (feed 1 (65 ∷ []) none ∷ finish root_text ∷ []) refused

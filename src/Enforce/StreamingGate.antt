-- ===== src/Enforce/StreamingGate.antt =====
-- itx/enforce/streaming_gate.py: the running hash over the chunks of a streamed response.
-- The request hash and the nonce are given as the UTF-8 bytes that `__init__` hashes.
pub mod Sessions
pub mod Chains
pub mod Streams
use custody.Base.{
  ℕ, ◌+◌, ◌/◌, ◌%◌, ◌==◌, String, Bool, true, false, not, List, [], ◌∷◌, ◌++◌, Option, none, some,
  ◌&&◌, leb, if◌then◌else◌, length,
}
use Prim.Native.String.{count}
use custody.Crypto.{Bytes, Primitives, from_hex}
use custody.Ts.Merkle.{bytes_eq}

-- The state of a `StreamingGate`.
pub record StreamingGate : Type 0 where
  pub expected_root : Bytes
  pub chain_hash : Bytes
  pub next_index : ℕ
  pub failed : Bool
  pub finalized : Bool

-- The messages of `StreamTamperedError`.
pub data Fault : Type 0 where
  aborted already_finalized bad_index unexpected_index bad_hash chunk_mismatch : Fault
  root_mismatch chain_mismatch : Fault

pub data Reply : Type 0 where
  done : Reply
  tampered : Fault → Reply

abbrev of_size : Option Bytes → Option Bytes
of_size none = none
of_size (some digest) = if length digest == 32 then some digest else none

-- `_digest_from_hex`; `none` is the ValueError.
unfoldable pub digest_from_hex : String → Option Bytes
digest_from_hex value = if count value == 64 then of_size (from_hex value) else none

-- `index.to_bytes(4, "big")` of an index below 2 ^ 32.
abbrev pub to_bytes : ℕ → Bytes
to_bytes n = n / 16777216 % 256 ∷ n / 65536 % 256 ∷ n / 256 % 256 ∷ n % 256 ∷ []

abbrev pub abort : StreamingGate → Fault → StreamingGate × Reply
abort gate fault = (record gate { failed = true }, tampered fault)

-- `_ensure_open`, before the rest of a call.
abbrev pub ensure_open : StreamingGate → StreamingGate × Reply → StreamingGate × Reply
ensure_open gate rest =
    if gate.failed
    then (gate, tampered aborted)
    else if gate.finalized
    then (gate, tampered already_finalized)
    else rest

-- `hmac.compare_digest(candidate, expected)`, when a hash is expected.
abbrev pub check_chunk : Bytes → Option String → Option Fault
check_chunk candidate none = none
check_chunk candidate (some h) = elim (digest_from_hex h) [
  | none ↦ some bad_hash
  | some expected ↦ if bytes_eq candidate expected then none else some chunk_mismatch
]

-- The outcome of a chunk whose index is right.
abbrev pub advance : StreamingGate → Bytes → Option Fault → StreamingGate × Reply
advance gate candidate (some fault) = abort gate fault
advance gate candidate none =
    (record gate { chain_hash = candidate; next_index = gate.next_index + 1 }, done)

module _ (prim : Primitives) where
  -- `__init__`
  unfoldable pub open_stream : String → Bytes → Bytes → Option StreamingGate
  open_stream expected_root_hash request_hash nonce = elim (digest_from_hex expected_root_hash) [
    | none ↦ none
    | some root ↦ some record {
      expected_root = root;
      chain_hash = prim.sha256 (request_hash ++ nonce);
      next_index = 1;
      failed = false;
      finalized = false;
    }
  ]

  -- The hash of a chunk on top of the chain.
  abbrev pub link : Bytes → ℕ → Bytes → Bytes
  link chain index chunk = prim.sha256 (chain ++ (to_bytes index ++ chunk))

  unfoldable pub feed_chunk : StreamingGate → ℕ → Bytes → Option String → StreamingGate × Reply
  feed_chunk gate index chunk expected =
      let candidate = link gate.chain_hash index chunk in
      ensure_open gate (
        if not (leb 1 index && leb index 4294967295)
        then abort gate bad_index
        else if not (index == gate.next_index)
        then abort gate unexpected_index
        else advance gate candidate (check_chunk candidate expected))

abbrev pub close : StreamingGate → Option Bytes → StreamingGate × Reply
close gate none = abort gate bad_hash
close gate (some final) =
    if not (bytes_eq final gate.expected_root)
    then abort gate root_mismatch
    else if not (bytes_eq gate.chain_hash final)
    then abort gate chain_mismatch
    else (record gate { finalized = true }, done)

unfoldable pub finalize : StreamingGate → String → StreamingGate × Reply
finalize gate expected_final_hash =
    ensure_open gate (close gate (digest_from_hex expected_final_hash))

-- A call of the gate.
pub data Call : Type 0 where
  feed : ℕ → Bytes → Option String → Call
  finish : String → Call

module _ (prim : Primitives) where
  unfoldable pub step : StreamingGate → Call → StreamingGate × Reply
  step gate (feed index chunk expected) = feed_chunk prim gate index chunk expected
  step gate (finish h) = finalize gate h

  -- The replies to a sequence of calls.
  unfoldable pub replies : StreamingGate → List Call → List Reply
  replies gate [] = []
  replies gate (c ∷ cs) = let (gate', r) = step gate c in r ∷ replies gate' cs

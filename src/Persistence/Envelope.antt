-- ===== src/Persistence/Envelope.antt =====
-- src/persistence/envelope.rs: what enters the store and what is read back. Bytes are numbers below
-- 256. `StoredRecord.record` is named `contents` here.
use Prim.Native.String.{String}
use koalisi.Common.{ℕ, ◌≡◌, refl, Option, none, some, List, [], ◌∷◌, ◌==◌, if◌then◌else◌}

pub data StreamId : Type 0 where
  topology decisions beliefs lineage registry provenance : StreamId

-- `StreamId::ALL`
abbrev pub all_streams : List StreamId
all_streams = topology ∷ decisions ∷ beliefs ∷ lineage ∷ registry ∷ provenance ∷ []

unfoldable pub to_u8 : StreamId → ℕ
to_u8 topology = 0
to_u8 decisions = 1
to_u8 beliefs = 2
to_u8 lineage = 3
to_u8 registry = 4
to_u8 provenance = 5

unfoldable pub from_u8 : ℕ → Option StreamId
from_u8 byte =
    if byte == 0
    then some topology
    else if byte == 1
    then some decisions
    else if byte == 2
    then some beliefs
    else if byte == 3
    then some lineage
    else if byte == 4
    then some registry
    else if byte == 5
    then some provenance
    else none

unfoldable pub as_dir_name : StreamId → String
as_dir_name topology = "topology"
as_dir_name decisions = "decisions"
as_dir_name beliefs = "beliefs"
as_dir_name lineage = "lineage"
as_dir_name registry = "registry"
as_dir_name provenance = "provenance"

abbrev pub SequenceNo : Type 0
SequenceNo = ℕ

abbrev pub Bytes : Type 0
Bytes = List ℕ

pub data HashAlgorithm : Type 0 where
  sha256 : HashAlgorithm

pub record RecordHash : Type 0 where
  pub algorithm : HashAlgorithm
  pub digest : Bytes

abbrev pub KeyId : Type 0
KeyId = String

pub data Payload : Type 0 where
  plain : Bytes → Payload
  -- the key, the nonce and the ciphertext
  sealed : KeyId → Bytes → Bytes → Payload

pub record EventRef : Type 0 where
  pub stream : StreamId
  pub seq : SequenceNo

pub record Record : Type 0 where
  pub timestamp : ℕ
  pub schema_version : ℕ
  pub parents : List EventRef
  pub payload : Payload

pub record StoredRecord : Type 0 where
  pub seq : SequenceNo
  pub prev_hash : Option RecordHash
  pub hash : RecordHash
  pub contents : Record

pub record StreamHead : Type 0 where
  pub seq : SequenceNo
  pub hash : RecordHash

-- The byte of a stream names it.
pub from_u8-to_u8 : (s : StreamId) → from_u8 (to_u8 s) ≡ some s
unfolding from_u8 to_u8
from_u8-to_u8 topology = refl
from_u8-to_u8 _ = refl

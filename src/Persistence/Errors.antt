-- ===== src/Persistence/Errors.antt =====
-- src/persistence/errors.rs, with the texts of its messages as data that carry the values they show,
-- and the chain of fallible steps (`?`).
use Prim.Native.String.{String}
use koalisi.Common.{ℕ, ◌≡◌, refl, arith, List, [], ◌∷◌, map, All}
use koalisi.Topology.Errors.{Attempt, done, failed}
use koalisi.Persistence.Envelope.{StreamId, SequenceNo, KeyId}

-- What a wire form cannot be converted to (`WireConversionError` of src/persistence/wire.rs).
pub data WireConversionError : Type 0 where
  vertex_exceeds_usize hyperedge_exceeds_usize count_exceeds_usize : ℕ → WireConversionError
  agent_id_exceeds_usize : ℕ → WireConversionError
  vertex_weight hyperedge_weight : String → WireConversionError
  unknown_decision_kind : String → WireConversionError

pub data Message : Type 0 where
  cbor : String → Message
  -- found, expected
  frame_seq_mismatch : ℕ → ℕ → Message
  unknown_parent_stream : ℕ → Message
  sequence_not_found frame_length_exceeds_segment torn_frame topology_record_sealed : Message
  -- the name of the segment, and where the one before it ends
  segment_discontinuity : ℕ → ℕ → Message
  conversion : WireConversionError → Message

pub data PersistenceError : Type 0 where
  io : String → PersistenceError
  encode : String → PersistenceError
  decode : StreamId → SequenceNo → Message → PersistenceError
  chain_broken : StreamId → SequenceNo → PersistenceError
  -- found, supported
  schema_version_unsupported : ℕ → ℕ → PersistenceError
  key_unavailable : KeyId → PersistenceError
  manifest_invalid manifest_revoked : String → PersistenceError
  stream_empty stream_wedged : StreamId → PersistenceError

infixl 5 ◌>>=◌
abbrev pub ◌>>=◌ : {E A B : Type 0} → Attempt E A → (A → Attempt E B) → Attempt E B
done a >>= f = f a
failed e >>= f = failed e

abbrev pub map_err : {E F A : Type 0} → (E → F) → Attempt E A → Attempt F A
map_err f (done a) = done a
map_err f (failed e) = failed (f e)

-- `collect` of results: the first error, or all values
abbrev pub collect : {E A B : Type 0} → (A → Attempt E B) → List A → Attempt E (List B)
collect f [] = done []
collect f (x ∷ xs) = do y ← f x; ys ← collect f xs; done (y ∷ ys)

-- A collection of successes succeeds.
pub collect-done :
    {E A B : Type 0} (f : A → Attempt E B) (g : B → A) (P : B → Type 0)
    → ((b : B) → P b → f (g b) ≡ done b)
    → (bs : List B) → All P bs
    → collect f (map g bs) ≡ done bs
collect-done f g P h [] all = refl
collect-done f g P h (b ∷ bs) all = rw (h b all.0, collect-done f g P h bs all.1)

pub >>=-eq-done :
    {E A B : Type 0} (m : Attempt E A) (f : A → Attempt E B) {b : B}
    → (m >>= f) ≡ done b
    → (a : A) × (m ≡ done a) × (f a ≡ done b)
>>=-eq-done (done a) f h = (a, refl, h)
>>=-eq-done (failed e) f h = absurd (ground arith)

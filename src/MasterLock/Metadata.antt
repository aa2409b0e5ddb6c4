-- ===== src/MasterLock/Metadata.antt =====
-- hako_sem_flock.cpp: the file flock.bin, its owner record `MasterLockMetadataV1` and the checksum.
use Prim.Native.Nat.{bit_xor}
use hakoniwa_core_cpp.Prelude.{
  ℕ, zero, suc, ◌+◌, ◌-◌, ◌*◌, ◌/◌, ◌%◌, ◌^◌, ℤ, pos, pos_part, neg_part, ltb, if◌then◌else◌,
  Option, none, some, List, [], ◌∷◌, ◌++◌, set,
}

-- `MasterLockState`, and the number that the record holds for it.
pub data LockState : Type 0 where
  unlocked acquiring locked releasing : LockState

abbrev pub state_code : LockState → ℕ
state_code unlocked = 0
state_code acquiring = 1
state_code locked = 2
state_code releasing = 3

-- The cast of a number that is at most `releasing`.
abbrev pub state_of_code : ℕ → LockState
state_of_code zero = unlocked
state_of_code (suc zero) = acquiring
state_of_code (suc (suc zero)) = locked
state_of_code (suc (suc (suc n))) = releasing

abbrev pub lock_magic : ℕ
lock_magic = 0x484B464C

abbrev pub lock_version : ℕ
lock_version = 1

abbrev pub metadata_size : ℕ
metadata_size = 48

abbrev pub max_sem : ℕ
max_sem = 1024

-- `MASTER_LOCK_METADATA_OFFSET` and `MASTER_LOCK_FLOCK_SIZE`.
abbrev pub metadata_offset : ℕ
metadata_offset = 4 * max_sem

abbrev pub flock_size : ℕ
flock_size = metadata_offset + metadata_size

pub record Metadata : Type 0 where
  pub magic : ℕ
  pub version : ℕ
  pub size : ℕ
  pub state : ℕ
  pub reserved : ℕ
  pub owner_pid : ℤ
  pub owner_start_token : ℕ
  pub generation : ℕ
  pub checksum : ℕ

-- flock.bin: its size in bytes, the counters at its front, and the record behind them.
pub record FlockFile : Type 0 where
  pub size : ℕ
  pub counters : List ℤ
  pub metadata : Metadata

-- `n` bytes of a number, the lowest first.
unfoldable pub le_bytes : ℕ → ℕ → List ℕ
le_bytes zero v = []
le_bytes (suc n) v = (v % 256) ∷ le_bytes n (v / 256)

-- The bits of an int64_t.
abbrev pub int64_bits : ℤ → ℕ
int64_bits a = (2 ^ 64 + pos_part a - neg_part a) % 2 ^ 64

-- The bytes of the record, with the checksum set to 0.
unfoldable pub checked_bytes : Metadata → List ℕ
unfolding le_bytes
checked_bytes m =
    le_bytes 4 m.magic
    ++ (le_bytes 2 m.version
        ++ (le_bytes 2 m.size
            ++ (le_bytes 4 m.state
                ++ (le_bytes 4 m.reserved
                    ++ (le_bytes 8 (int64_bits m.owner_pid)
                        ++ (le_bytes 8 m.owner_start_token
                            ++ (le_bytes 8 m.generation ++ le_bytes 8 0)))))))

unfoldable pub hash_bytes : ℕ → List ℕ → ℕ
hash_bytes hash [] = hash
hash_bytes hash (b ∷ bs) = hash_bytes (bit_xor hash b * 1099511628211 % 2 ^ 64) bs

-- FNV-1a, in 64 bits.
unfoldable pub metadata_checksum : Metadata → ℕ
unfolding checked_bytes hash_bytes
metadata_checksum m = hash_bytes 1469598103934665603 (checked_bytes m)

-- `none` if the file is too short to hold the record.
unfoldable pub read_metadata : FlockFile → Option Metadata
read_metadata f = if ltb f.size (metadata_offset + metadata_size) then none else some f.metadata

-- The record with its checksum, as `write_metadata` leaves it.
unfoldable pub sealed : Metadata → Metadata
sealed m = record m { checksum = metadata_checksum m }

-- A write that succeeds: it sets the checksum first, and makes the file as long as it needs.
unfoldable pub write_metadata : FlockFile → Metadata → FlockFile
unfolding sealed
write_metadata f m = record f {
  size = if ltb f.size flock_size then flock_size else f.size;
  metadata = sealed m;
}

-- `hako_flock_write_bytes` of one counter inside the array.
unfoldable pub write_counter : FlockFile → ℕ → ℤ → FlockFile
write_counter f i v = record f { counters = set f.counters i v }

unfoldable pub new_metadata : Metadata
unfolding sealed
new_metadata = sealed (record {
  magic = lock_magic;
  version = lock_version;
  size = metadata_size;
  state = state_code unlocked;
  reserved = 0;
  owner_pid = pos 0;
  owner_start_token = 0;
  generation = 0;
  checksum = 0;
})

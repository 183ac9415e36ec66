-- ===== src/Relay/Services.antt =====
-- What the relay uses of the other parts, and its own state. `World` is the state of all of them:
-- Core, the synchronised forest, the cache and the clock. JSON is the library UniValue's; its getters
-- throw where the type is not theirs. A text is the list of its characters.
use utreexo_core_rpc.Common.{String, ℕ, Bool, Option, List}
use utreexo_core_rpc.Result.{Result, ok}
use utreexo_core_rpc.Wire.Bytes.{Bytes}
use utreexo_core_rpc.Udata.{Proof}
use utreexo_core_rpc.Transaction.Prepared.{PreparedTransactionProof}
use utreexo_core_rpc.ProofCache.{Request}
use utreexo_core_rpc.Relay.Run.{Run}

-- `ChainPoint` with the hash as its bytes.
pub record Point : Type 0 where
  pub height : ℕ
  pub block_hash : Bytes

-- A parameter of a remote call.
pub data Param : Type 0 where
  text : List ℕ → Param
  number : ℕ → Param
  flag : Bool → Param

pub record Parts : Type 1 where
  pub Json : Type 0
  pub World : Type 0
  pub is_str : Json → Bool
  pub is_num : Json → Bool
  pub is_null : Json → Bool
  pub is_object : Json → Bool
  -- `operator[]`
  pub value_at : Json → String → Json
  pub get_str : Json → Result (List ℕ)
  -- `getInt<uint64_t>`
  pub get_uint : Json → Result ℕ
  -- `getInt<int>`, as whether it is negative and its absolute value
  pub get_int : Json → Result (Bool × ℕ)
  pub get_bool : Json → Result Bool
  -- `read`, of a text of its own
  pub read : String → Option Json
  -- `CoreRpcClient`
  pub call : String → List Param → World → Result Json × World
  pub call_raw : String → World → Result (List ℕ) × World
  -- `getValStr`
  pub val_str : Json → List ℕ
  -- the synchronised forest
  pub current_point : World → Option Point
  pub chain_hashes : World → List Bytes
  pub prove : List Bytes → World → Result Proof
  pub roots : World → List (Option Bytes)
  pub num_leaves : World → ℕ
  pub verify_proof : Proof → List Bytes → List Bytes → ℕ → Result Bool
  -- `TransactionProofCache`; of an entry that it gives, only whether there is one is used
  pub stats_epoch : World → ℕ
  pub activate : Point → World → World
  pub find : Bytes → World → Bool × World
  pub find_matching : Request → World → Bool × World
  pub publish : Point → PreparedTransactionProof → World → Result Bool × World
  pub take_regeneration : World → Option Request × World
  pub complete_regeneration : Request → World → Bool × World
  pub txids : World → List Bytes
  pub erase : Bytes → World → World
  pub invalidate : World → World
  -- the hash functions, and the tag of a leaf
  pub sha256 : Bytes → Bytes
  pub sha512_256 : Bytes → Bytes
  pub utreexo_tag : Bytes
  -- `TransactionRegenerationRequest::txid`, as bytes
  pub request_txid : Request → Bytes
  pub now : World → ℕ × World

pub record TransactionRelayConfig : Type 0 where
  pub batch_size : ℕ
  -- in seconds
  pub recovery_interval : ℕ

module _ (parts : Parts) where
  pub record TransactionRelay : Type 0 where
    pub config : TransactionRelayConfig
    pub world : parts.World
    pub scan_cursor : ℕ
    pub epoch : ℕ
    pub next_recovery : ℕ

  abbrev pub Relaying : Type 0 → Type 0
  Relaying A = Run TransactionRelay A

  -- A call of one of the other parts.
  abbrev pub outside : {A : Type 0} → (parts.World → Result A × parts.World) → Relaying A
  outside f r = let (a, w) = f r.world in (a, record r { world = w })

  -- One that cannot fail.
  abbrev pub asking : {A : Type 0} → (parts.World → A × parts.World) → Relaying A
  asking f r = let (a, w) = f r.world in (ok a, record r { world = w })

  abbrev pub telling : (parts.World → parts.World) → Relaying (Unit {0})
  telling f r = (ok tt, record r { world = f r.world })

  abbrev pub reading : {A : Type 0} → (parts.World → A) → Relaying A
  reading f r = (ok (f r.world), r)

  abbrev pub rpc : String → List Param → Relaying parts.Json
  rpc method params = outside (parts.call method params)

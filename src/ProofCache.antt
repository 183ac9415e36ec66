-- ===== src/ProofCache.antt =====
-- `TransactionProofCache` of src/transaction_cache.cpp. A call that holds the mutex is one function
-- from state to state. Hashes and points in time are numbers; the map `entries` is a list in the
-- order of its keys, the sequence numbers, and `by_txid`, whose order nobody sees, is a list of pairs.
pub mod Valid
pub mod Erase
pub mod Expire
pub mod Evict
pub mod Insert
pub mod Publish
pub mod Steps
pub mod Find
use utreexo_core_rpc.Common.{
  ℕ, zero, suc, ◌+◌, ◌-◌, ◌*◌, ◌/◌, ◌%◌, ◌^◌, Bool, true, false, not, ◌&&◌, ◌||◌, Option, none,
  some, List, [], ◌∷◌, ◌++◌, ◌>>=◌, if◌then◌else◌, ◌==◌, ltb, leb, length,
}
use utreexo_core_rpc.Result.{Result, ok, err, thrown}
use utreexo_core_rpc.Wire.Bytes.{Bytes}

-- What the cache uses of a `PreparedTransactionProof` and of the hash functions.
pub record Preparation : Type 1 where
  pub Proof : Type 0
  pub txid : Proof → ℕ
  pub memory_usage : Proof → ℕ
  -- `Serialize` of the request for no hashes
  pub serialize : Proof → Result Bytes
  pub proof_hashes : Proof → Bytes
  pub targets : Proof → ℕ
  pub sha256 : Bytes → ℕ
  pub parent_hash : ℕ → ℕ → ℕ
  -- `sizeof(PreparedTransactionEntry)`
  pub entry_size : ℕ

pub record Config : Type 0 where
  pub max_entries : ℕ
  pub max_bytes : ℕ
  pub lifetime : ℕ
  pub max_regenerations : ℕ

pub record ChainPoint : Type 0 where
  pub height : ℕ
  pub block_hash : ℕ

abbrev pub same_point : ChainPoint → ChainPoint → Bool
same_point p q = (p.height == q.height) && (p.block_hash == q.block_hash)

pub record Stats : Type 0 where
  pub bytes : ℕ
  pub published : ℕ
  pub evicted : ℕ
  pub expired : ℕ
  pub oversized : ℕ
  pub invalidations : ℕ
  pub epoch : ℕ
  pub ready : Bool

-- `TransactionRegenerationRequest` with its `TransactionProofIdentity`.
pub record Request : Type 0 where
  pub txid : ℕ
  pub epoch : ℕ
  pub digest : ℕ

-- The 64-bit counters wrap.
abbrev pub increment : ℕ → ℕ
increment n = (n + 1) % 2 ^ 64

abbrev pub subtract : ℕ → ℕ → ℕ
subtract n k = (n + 2 ^ 64 - k) % 2 ^ 64

-- `by_txid`: the first pair with the key.
abbrev pub lookup : ℕ → List (ℕ × ℕ) → Option ℕ
lookup key [] = none
lookup key ((k, v) ∷ pairs) = let later = lookup key pairs in if k == key then some v else later

abbrev pub erase_key : ℕ → List (ℕ × ℕ) → List (ℕ × ℕ)
erase_key key [] = []
erase_key key ((k, v) ∷ pairs) =
    let later = erase_key key pairs in if k == key then pairs else (k, v) ∷ later

-- `emplace` leaves a key that is there.
abbrev pub emplace_key : ℕ → ℕ → List (ℕ × ℕ) → List (ℕ × ℕ)
emplace_key key value [] = (key, value) ∷ []
emplace_key key value ((k, v) ∷ pairs) =
    let later = emplace_key key value pairs in if k == key then (k, v) ∷ pairs else (k, v) ∷ later

module _ (prep : Preparation) where
  pub record Entry : Type 0 where
    pub point : ChainPoint
    pub sequence : ℕ
    pub proof : prep.Proof
    pub expires : ℕ
    pub bytes : ℕ
    pub epoch : ℕ
    pub digest : ℕ

  -- `entries`, a map by sequence number
  abbrev pub entry_at : ℕ → List Entry → Option Entry
  entry_at s [] = none
  entry_at s (e ∷ es) = let later = entry_at s es in if e.sequence == s then some e else later

  abbrev pub erase_sequence : ℕ → List Entry → List Entry
  erase_sequence s [] = []
  erase_sequence s (e ∷ es) =
      let later = erase_sequence s es in if e.sequence == s then es else e ∷ later

  abbrev pub emplace_entry : Entry → List Entry → List Entry
  emplace_entry new [] = new ∷ []
  emplace_entry new (e ∷ es) =
      let later = emplace_entry new es in
      if ltb new.sequence e.sequence
      then new ∷ e ∷ es
      else if new.sequence == e.sequence
      then e ∷ es
      else e ∷ later

  pub record Cache : Type 0 where
    pub config : Config
    pub point : Option ChainPoint
    pub sequence : ℕ
    pub stats : Stats
    pub entries : List Entry
    pub by_txid : List (ℕ × ℕ)

  -- `Impl::Erase`
  unfoldable pub erase_entry : Entry → Cache → Cache
  erase_entry e c = record c {
    stats = record c.stats { bytes = subtract c.stats.bytes e.bytes };
    by_txid = erase_key (prep.txid e.proof) c.by_txid;
    entries = erase_sequence e.sequence c.entries;
  }

  -- The oldest entry, if it has expired.
  abbrev pub due : ℕ → List Entry → Option Entry
  due now [] = none
  due now (e ∷ es) = if leb e.expires now then some e else none

  -- `Impl::Expire`; each round erases an entry.
  unfoldable pub expire_loop : ℕ → ℕ → Cache → Cache
  expire_loop zero now c = c
  expire_loop (suc fuel) now c = elim (due now c.entries) [
    | none ↦ c
    | some e ↦
        let c' = erase_entry e c in
        expire_loop fuel now
          (record c' { stats = record c'.stats { expired = increment c'.stats.expired } })
  ]

  unfoldable pub expire : ℕ → Cache → Cache
  expire now c = expire_loop (length c.entries) now c

  -- `Impl::Clear`, without the jobs of regeneration
  unfoldable pub clear : Cache → Cache
  clear c = record c {
    entries = [];
    by_txid = [];
    stats = record c.stats {
      bytes = 0;
      ready = false;
      epoch = increment c.stats.epoch;
      invalidations = increment c.stats.invalidations;
    };
    point = none;
  }

  -- Another point than the current one clears the cache.
  unfoldable left_point : Option ChainPoint → ChainPoint → Cache → Cache
  left_point none p c = c
  left_point (some q) p c = if same_point q p then c else clear c

  unfoldable pub activate : ChainPoint → Cache → Cache
  unfolding left_point
  activate p c =
      let c' = left_point c.point p c in
      record c' { point = some p; stats = record c'.stats { ready = true } }

  -- The oldest entry, if there is no room for another entry of that size.
  abbrev pub crowding : ℕ → Config → ℕ → List Entry → Option Entry
  crowding bytes config used [] = none
  crowding bytes config used (e ∷ es) =
      if leb config.max_entries (length (e ∷ es)) || ltb (subtract config.max_bytes used) bytes
      then some e
      else none

  -- The loop of `Publish` that makes room; each round erases an entry.
  unfoldable pub evict_loop : ℕ → ℕ → Cache → Cache
  evict_loop zero bytes c = c
  evict_loop (suc fuel) bytes c = elim (crowding bytes c.config c.stats.bytes c.entries) [
    | none ↦ c
    | some e ↦
        let c' = erase_entry e c in
        evict_loop fuel bytes
          (record c' { stats = record c'.stats { evicted = increment c'.stats.evicted } })
  ]

  -- `Erase`, and the erasure of an older entry in `Publish`. `entries.find` finds what `by_txid` names.
  unfoldable pub erase_txid : ℕ → Cache → Cache
  erase_txid t c = elim (lookup t c.by_txid) [
    | none ↦ c
    | some s ↦ elim (entry_at s c.entries) [ none ↦ c | some e ↦ erase_entry e c ]
  ]

  -- The end of `Publish`.
  unfoldable pub insert_entry : ℕ → ChainPoint → prep.Proof → ℕ → ℕ → Cache → Cache
  insert_entry now p proof bytes digest c =
      let s = increment c.sequence in
      record c {
        sequence = s;
        entries =
            emplace_entry
              (record {
                point = p;
                sequence = s;
                proof = proof;
                expires = now + c.config.lifetime;
                bytes = bytes;
                epoch = c.stats.epoch;
                digest = digest;
              })
              c.entries;
        by_txid = emplace_key (prep.txid proof) s c.by_txid;
        stats = record c.stats {
          bytes = (c.stats.bytes + bytes) % 2 ^ 64;
          published = increment c.stats.published;
        };
      }

  abbrev pub anchored : ChainPoint → Cache → Bool
  anchored p c = elim c.point [ none ↦ false | some q ↦ c.stats.ready && same_point q p ]

  abbrev pub entry_bytes : prep.Proof → ℕ
  entry_bytes proof = (prep.memory_usage proof + prep.entry_size + 256) % 2 ^ 64

  abbrev pub digest_of : Bytes → prep.Proof → ℕ
  digest_of encoded proof =
      prep.parent_hash (prep.sha256 encoded) (prep.sha256 (prep.proof_hashes proof))

  -- `Publish` under the lock, once the proof is encoded. The clock is read for `Expire` and again for
  -- the new entry.
  unfoldable pub publish_prepared :
      ℕ → ℕ → ChainPoint → prep.Proof → ℕ → Cache → Result Bool × Cache
  publish_prepared now later p proof digest c =
      let c₁ = expire now c in
      let bytes = entry_bytes proof in
      if not (anchored p c)
      then (err "transaction cache anchor changed during preparation", c)
      else if ltb c.config.max_bytes bytes
      then (
        ok false,
        record c₁ { stats = record c₁.stats { oversized = increment c₁.stats.oversized } },
      )
      else (let c₂ = erase_txid (prep.txid proof) c₁ in
          let c₃ = evict_loop (length c₂.entries) bytes c₂ in
          (ok true, insert_entry later p proof bytes digest c₃))

  unfoldable pub publish : ℕ → ℕ → ChainPoint → prep.Proof → Cache → Result Bool × Cache
  publish now later p proof c = elim (prep.serialize proof) [
    | err e ↦ (err e, c)
    | thrown e ↦ (thrown e, c)
    | ok encoded ↦ publish_prepared now later p proof (digest_of encoded proof) c
  ]

  unfoldable pub wanted_entry : Option ℕ → Option ℕ → List Entry → Option Entry
  wanted_entry wanted none es = none
  wanted_entry none (some s) es = entry_at s es
  wanted_entry (some w) (some s) es = if s == w then entry_at s es else none

  -- `Find`, with the sequence number that the caller may ask for.
  unfoldable pub find : ℕ → ℕ → Option ℕ → Cache → Option Entry × Cache
  unfolding wanted_entry
  find now t wanted c =
      let c₁ = expire now c in
      (if c₁.stats.ready then wanted_entry wanted (lookup t c₁.by_txid) c₁.entries else none, c₁)

  -- `Impl::Match`, which is `FindMatching`; an index of an entry that is gone, where `entries.at` throws,
  -- gives none.
  unfoldable pub find_matching : ℕ → Request → Cache → Option Entry × Cache
  find_matching now r c =
      let c₁ = expire now c in
      let found = (do
        s ← lookup r.txid c₁.by_txid
        e ← entry_at s c₁.entries
        if (e.epoch == r.epoch) && (e.digest == r.digest) then some e else none) in
      (if c₁.stats.ready && (c₁.stats.epoch == r.epoch) then found else none, c₁)

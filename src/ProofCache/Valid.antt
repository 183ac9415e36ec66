-- ===== src/ProofCache/Valid.antt =====
-- The order of a cache: what holds between the calls of `TransactionProofCache`.
use utreexo_core_rpc.Common.{
  ℕ, ◌+◌, ◌^◌, ◌≤◌, ◌<◌, ◌≡◌, ◌≢◌, ◌⊎◌, false, some, List, [], ◌∷◌, length,
}
use utreexo_core_rpc.ProofCache.{Preparation, Entry, Cache}

module _ (prep : Preparation) where
  abbrev pub keys : List (Entry prep) → List (ℕ × ℕ)
  keys [] = []
  keys (e ∷ es) = (prep.txid e.proof, e.sequence) ∷ keys es

  abbrev pub total : List (Entry prep) → ℕ
  total [] = 0
  total (e ∷ es) = e.bytes + total es

  abbrev pub Held : Entry prep → List (Entry prep) → Type 0
  Held e [] = ⊥
  Held e (x ∷ es) = (e ≡ x) ⊎ Held e es

  abbrev pub All : (Entry prep → Type 0) → List (Entry prep) → Type 0
  All P [] = Unit
  All P (e ∷ es) = P e × All P es

  -- The sequence numbers grow, from above the bound on.
  abbrev pub Ascending : ℕ → List (Entry prep) → Type 0
  Ascending low [] = Unit
  Ascending low (e ∷ es) = (low < e.sequence) × Ascending e.sequence es

  abbrev pub Without : ℕ → List (Entry prep) → Type 0
  Without t es = All (λ e. prep.txid e.proof ≢ t) es

  -- No two entries are of one transaction.
  abbrev pub IsSingle : List (Entry prep) → Type 0
  IsSingle [] = Unit
  IsSingle (e ∷ es) = Without (prep.txid e.proof) es × IsSingle es

  pub record IsValid (c : Cache prep) : Type 0 where
    pub ascending : Ascending 0 c.entries
    pub latest : All (λ e. e.sequence ≤ c.sequence) c.entries
    pub indexed : c.by_txid ≡ keys c.entries
    pub single : IsSingle c.entries
    pub counted : c.stats.bytes ≡ total c.entries
    pub fits : total c.entries ≤ c.config.max_bytes
    pub few : length c.entries ≤ c.config.max_entries
    -- every entry is of the present epoch and of the present point of the chain
    pub current : All (λ e. (e.epoch ≡ c.stats.epoch) × (c.point ≡ some e.point)) c.entries
    pub idle : c.stats.ready ≡ false → c.entries ≡ []
    pub bounded : (c.config.max_bytes < 2 ^ 64) × (0 < c.config.max_entries)

  -- A call that only erases keeps everything but entries and counters.
  pub record Erasing (c c' : Cache prep) : Type 0 where
    pub valid : IsValid c'
    pub same_config : c'.config ≡ c.config
    pub same_point : c'.point ≡ c.point
    pub same_sequence : c'.sequence ≡ c.sequence
    pub same_epoch : c'.stats.epoch ≡ c.stats.epoch
    pub same_ready : c'.stats.ready ≡ c.stats.ready
    pub kept : (e : Entry prep) → Held e c'.entries → Held e c.entries

-- ===== src/Tests.antt =====
-- The theorems at concrete inputs.
mod Forests
mod Encodings
mod Caches
mod Inventories
mod Messages
mod Relays
mod Spends
mod Leaves
mod Chains
mod Positions
use utreexo_core_rpc.Common.{ℕ, zero, suc, [], ◌∷◌}
use utreexo_core_rpc.Wire.Bytes.{Bytes}

-- A byte over and over.
abbrev pub copies : ℕ → ℕ → Bytes
copies zero b = []
copies (suc n) b = b ∷ copies n b

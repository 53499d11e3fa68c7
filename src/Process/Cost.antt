-- ===== src/Process/Cost.antt =====
-- src/process/cost.rs: how scarce the workers for a step are in a pool, and what a step costs.
pub mod Scarcity
use Prim.Native.Nat.{bit_and, min}
use koalisi.Common.{
  ℕ, suc, ◌+◌, ◌-◌, ◌*◌, ◌^◌, Bool, not, List, [], ◌∷◌, range_of, ltb, ◌==◌, if◌then◌else◌,
}
use koalisi.Common.SortedMap
use koalisi.Common.SortedMap.{SortedMap}
use koalisi.Process.{Step, WorkflowGen, user, step_key}
use koalisi.Process.Demand.{or_zero, one_more}

pub record StaffingTable : Type 0 where
  pub pool_size : ℕ
  pub holders_of : SortedMap ℕ

-- `mask & (1 << bit) != 0`
abbrev pub holds : ℕ → ℕ → Bool
holds mask bit = not (bit_and mask (2 ^ bit) == 0)

-- the loop over the bits of one worker's mask
unfoldable pub tabulate_bits : ℕ → ℕ → List ℕ → SortedMap ℕ → SortedMap ℕ
tabulate_bits mask role [] holders = holders
tabulate_bits mask role (bit ∷ bits) holders = tabulate_bits mask role bits (
    if holds mask bit
    then SortedMap.update (step_key (record { bit = bit; role = role })) one_more holders
    else holders)

-- one worker, over `u32::BITS` bits
unfoldable pub tabulate_worker : ℕ → ℕ → SortedMap ℕ → SortedMap ℕ
tabulate_worker mask role = tabulate_bits mask role (range_of 0 32)

-- the loop over the workers, each a mask and a role; the size saturates at 32 bits
unfoldable pub tabulate : List (ℕ × ℕ) → StaffingTable → StaffingTable
tabulate [] table = table
tabulate ((mask, role) ∷ workers) table = tabulate workers (record {
  pool_size = min (table.pool_size + 1) 4294967295;
  holders_of = tabulate_worker mask role table.holders_of;
})

unfoldable pub from_pool : List (ℕ × ℕ) → StaffingTable
from_pool workers = tabulate workers (record { pool_size = 0; holders_of = [] })

unfoldable pub holders : StaffingTable → Step → ℕ
holders table step = or_zero (SortedMap.get (step_key step) table.holders_of)

unfoldable pub is_staffable : StaffingTable → Step → Bool
unfolding holders
is_staffable table step = ltb 0 (holders table step)

-- `saturating_sub`
unfoldable pub scarcity : StaffingTable → Step → ℕ
unfolding holders
scarcity table step = table.pool_size - holders table step

unfoldable pub price : StaffingTable → Step → ℕ
unfolding scarcity
price table step = 1 + scarcity table step

unfoldable pub uniform_cost : WorkflowGen → ℕ
uniform_cost generator = 1

unfoldable pub staffing_price : StaffingTable → WorkflowGen → ℕ
unfolding price
staffing_price table (user step) = price table step
staffing_price table _ = 1

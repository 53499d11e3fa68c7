-- ===== src/Process/Cost/Scarcity.antt =====
-- What a step costs in a pool (src/process/cost.rs).
use Prim.Native.Nat.{min}
use koalisi.Common.{
  ℕ, ◌+◌, ◌≤◌, ◌<◌, ◌≡◌, refl, ap, ◌∙◌, Bool-cases, inl, inr, Bool, true, ◌&&◌, List, [], ◌∷◌, All,
  count, length, range_of, ◌==◌, if◌then◌else◌, arith,
}
use koalisi.Common.SortedMap
use koalisi.Common.SortedMap.{SortedMap}
use koalisi.Process.{Step, step_key}
use koalisi.Process.Demand.{or_zero, one_more}
use koalisi.Process.Cost.{
  StaffingTable, holds, tabulate_bits, tabulate_worker, tabulate, from_pool, holders, scarcity,
  price,
}
use koalisi.Algorithms.Workload.Assignment.{count-range_of}

-- a worker that can perform a step
abbrev pub can : Step → ℕ × ℕ → Bool
can step (mask, role) = role == step.role && holds mask step.bit

-- how many workers of a pool cannot
abbrev pub lacking : Step → List (ℕ × ℕ) → ℕ
lacking step [] = 0
lacking step (w ∷ workers) = (if can step w then 0 else 1) + lacking step workers

abbrev able : Step → List (ℕ × ℕ) → ℕ
able step [] = 0
able step (w ∷ workers) = (if can step w then 1 else 0) + able step workers

same_key :
    (step : Step) (bit role : ℕ)
    → step.role < 256
    → role < 256
    → (step_key (record { bit = bit; role = role }) == step_key step)
      ≡ (role == step.role && bit == step.bit)
same_key step bit role small small' = ground arith

update-holders :
    (step : Step) (bit role : ℕ) (table : SortedMap ℕ)
    → step.role < 256
    → role < 256
    → SortedMap.IsAbove 0 table
    → or_zero (
        SortedMap.get
          (step_key step)
          (SortedMap.update (step_key (record { bit = bit; role = role })) one_more table))
      ≡ or_zero (SortedMap.get (step_key step) table)
        + (if role == step.role && bit == step.bit then 1 else 0)
update-holders step bit role table small small' above =
    let e =
      SortedMap.get-update 0 (step_key (record { bit = bit; role = role })) (step_key step) one_more
        table above in
    ground (arith, e, same_key step bit role small small')

one_bit :
    (step : Step) (mask role bit : ℕ) (bits : List ℕ) (before between after : ℕ)
    → holds mask bit ≡ true
    → after ≡ between + (if can step (mask, role) then count step.bit bits else 0)
    → between ≡ before + (if role == step.role && bit == step.bit then 1 else 0)
    → after ≡ before + (if can step (mask, role) then count step.bit (bit ∷ bits) else 0)
one_bit step mask role bit bits before between after set e e' = ground (arith, set, e, e')

tabulate_bits-holders :
    (step : Step) (mask role : ℕ) (bits : List ℕ) (table : SortedMap ℕ)
    → step.role < 256
    → role < 256
    → SortedMap.IsAbove 0 table
    → SortedMap.IsAbove 0 (tabulate_bits mask role bits table)
      × (or_zero (SortedMap.get (step_key step) (tabulate_bits mask role bits table))
          ≡ or_zero (SortedMap.get (step_key step) table)
            + (if can step (mask, role) then count step.bit bits else 0))
unfolding tabulate_bits
tabulate_bits-holders step mask role [] table small small' above = (above, ground arith)
tabulate_bits-holders step mask role (bit ∷ bits) table small small' above =
    elim (Bool-cases (holds mask bit)) [
      | inl set ↦
          let key = step_key (record { bit = bit; role = role }) in
          let (above', ih) =
            tabulate_bits-holders step mask role bits (SortedMap.update key one_more table) small
              small' (SortedMap.update-IsAbove 0 key one_more table (omega arith) above) in
          rw (set, tabulate_bits)
            (
              above',
              one_bit step mask role bit bits _ _ _ set ih
                  (update-holders step bit role table small small' above),
            )
      | inr clear ↦
          let (above', ih) = tabulate_bits-holders step mask role bits table small small' above in
          rw (clear, tabulate_bits) (above', ground (arith, clear, ih))
    ]

tabulate_worker-holders :
    (step : Step) (mask role : ℕ) (table : SortedMap ℕ)
    → step.role < 256
    → step.bit < 32
    → role < 256
    → SortedMap.IsAbove 0 table
    → SortedMap.IsAbove 0 (tabulate_worker mask role table)
      × (or_zero (SortedMap.get (step_key step) (tabulate_worker mask role table))
          ≡ or_zero (SortedMap.get (step_key step) table)
            + (if can step (mask, role) then 1 else 0))
unfolding tabulate_worker
tabulate_worker-holders step mask role table small inside small' above =
    let once : count step.bit (range_of 0 32) ≡ 1 = count-range_of step.bit 0 32 ∙ ground arith in
    let (above', e) =
      tabulate_bits-holders step mask role (range_of 0 32) table small small' above in
    (
      above',
      e
          ∙ ap
              (λ n.
                or_zero (SortedMap.get (step_key step) table)
                + (if can step (mask, role) then n else 0))
              once,
    )

-- Each worker is counted among the holders of the steps that it can perform.
tabulate-holders :
    (step : Step) (workers : List (ℕ × ℕ)) (table : StaffingTable)
    → step.role < 256
    → step.bit < 32
    → All (λ w. w.1 < 256) workers
    → SortedMap.IsAbove 0 table.holders_of
    → table.pool_size ≤ 4294967295
    → (holders (tabulate workers table) step ≡ holders table step + able step workers)
      × ((tabulate workers table).pool_size ≡ min (table.pool_size + length workers) 4294967295)
unfolding tabulate holders
tabulate-holders step [] table small inside roles above le = (omega arith, ground arith)
tabulate-holders step ((mask, role) ∷ workers) table small inside (small', roles) above le =
    let (above', one) =
      tabulate_worker-holders step mask role table.holders_of small inside small' above in
    let (ih, size) =
      tabulate-holders step workers
        (record {
          pool_size = min (table.pool_size + 1) 4294967295;
          holders_of = tabulate_worker mask role table.holders_of;
        })
        small inside roles above' (ground arith) in
    (ground (arith, ih, one), ground (arith, size))

able-lacking :
    (step : Step) (workers : List (ℕ × ℕ))
    → able step workers + lacking step workers ≡ length workers
able-lacking step [] = refl
able-lacking step (w ∷ workers) = ground (arith, able-lacking step workers)

-- In a pool of fewer than 2 ^ 32 workers, whose roles are bytes, a step with a bit of the mask costs
-- one more than there are workers that lack its capability or its role.
pub price-from_pool :
    (workers : List (ℕ × ℕ)) (step : Step)
    → length workers < 4294967296
    → All (λ w. w.1 < 256) workers
    → step.role < 256
    → step.bit < 32
    → price (from_pool workers) step ≡ 1 + lacking step workers
unfolding price scarcity from_pool
price-from_pool workers step few roles small inside =
    let (held, size) =
      tabulate-holders step workers (record { pool_size = 0; holders_of = [] }) small inside roles
        tt (omega arith) in
    ground (arith, held, size, able-lacking step workers)

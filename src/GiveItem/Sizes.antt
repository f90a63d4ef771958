-- ===== src/GiveItem/Sizes.antt =====
-- The new stacks: each is within the stack size, they hold what was asked, and there are as few as
-- possible.
use pelican_egg_dune_awakeni.Base.{ℕ, zero, suc, ◌+◌, ◌-◌, ◌/◌, ◌≤◌, ◌<◌, ◌≡◌, arith, All, length}
use pelican_egg_dune_awakeni.GiveItem.Plan.{new_sizes, sum, at_least_one, required_stack_count}

pub sum-new_sizes :
    (fuel m remaining : ℕ) → 0 < m → remaining ≤ fuel → sum (new_sizes fuel m remaining) ≡ remaining
unfolding new_sizes
sum-new_sizes zero m r p h = omega arith
sum-new_sizes (suc fuel) m r p h =
    ground (arith, sum-new_sizes fuel m (r - m), sum-new_sizes fuel m (r - r))

abbrev pub FitsStack : ℕ → ℕ → Type 0
FitsStack m n = (1 ≤ n) × (n ≤ m)

pub new_sizes-FitsStack :
    (fuel m remaining : ℕ) → 0 < m → All (FitsStack m) (new_sizes fuel m remaining)
unfolding new_sizes
new_sizes-FitsStack zero m r p = tt
new_sizes-FitsStack (suc fuel) m r p =
    ground (arith, new_sizes-FitsStack fuel m (r - m), new_sizes-FitsStack fuel m (r - r))

ceil_step : (m r : ℕ) → 0 < m → m < r → (r + m - 1) / m ≡ 1 + (r - m + m - 1) / m
ceil_step m r p h = grind arith

ceil_small : (m r : ℕ) → 0 < m → 0 < r → r ≤ m → (r + m - 1) / m ≡ 1
ceil_small m r p q h = grind arith

ceil_zero : (m : ℕ) → 0 < m → (0 + m - 1) / m ≡ 0
ceil_zero m p = grind arith

pub length-new_sizes :
    (fuel m remaining : ℕ)
    → 0 < m
    → remaining ≤ fuel
    → length (new_sizes fuel m remaining) ≡ (remaining + m - 1) / m
unfolding new_sizes
length-new_sizes zero m r p h = ground (arith, ceil_zero m p)
length-new_sizes (suc fuel) m r p h = ground (
  arith,
  ceil_zero m p,
  ceil_small m r p,
  ceil_step m r p,
  length-new_sizes fuel m (r - m),
  length-new_sizes fuel m (r - r),
)

-- The loop makes exactly `required_stack_count` stacks.
pub length-new_sizes-required :
    (stack_max remaining : ℕ)
    → length (new_sizes remaining (at_least_one stack_max) remaining)
      ≡ required_stack_count remaining stack_max
unfolding required_stack_count
length-new_sizes-required stack_max r =
    length-new_sizes r (at_least_one stack_max) r (ground arith) (omega arith)

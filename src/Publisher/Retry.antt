-- ===== src/Publisher/Retry.antt =====
-- src/quantum_entanglement/publisher.py: `_retry_delay` and `_retry_timestamp`.
use quantum_entanglement.Prelude.{
  ℕ, zero, suc, ◌+◌, ◌*◌, ◌-◌, String, true, ◌||◌, Option, none, some, if◌then◌else◌, leb, eqb,
  Bool-cases, Option-cases, ◌≡◌, ◌≤◌, arith, inl, inr,
}
use Prim.Native.Nat.{min}
use native.Mathlib.Nat.{
  mul-suc, zero-mul, one-mul, mul-one, add-mul, mul-add, mul-le-mul_left, mul-le-mul_right,
}
use quantum_entanglement.Publisher.{Publisher}

-- `2.0 ** exponent`
unfoldable pub power : ℕ → ℕ
power zero = 1
power (suc n) = power n + power n

-- How often `reached` doubles before it is at least the target, counted up to the fuel.
unfoldable pub count_doublings : ℕ → ℕ → ℕ → ℕ
count_doublings zero reached target = 0
count_doublings (suc fuel) reached target =
    let rest = count_doublings fuel (reached + reached) target in
    if leb target reached then 0 else suc rest

-- `math.ceil(math.log2(greatest / base))` for positive delays with `base < greatest`: the least number of
-- doublings that takes the base delay to the greatest one, of which there are at most `greatest`.
abbrev pub ceil_log2 : ℕ → ℕ → ℕ
ceil_log2 greatest base = count_doublings greatest base greatest

-- The delay before the jitter. `attempt_count - 1` stops at 0, as `max(0, ...)` does.
unfoldable pub capped_delay : Publisher → ℕ → ℕ
capped_delay p attempt_count =
    let exponent = attempt_count - 1 in
    if eqb p.base_retry_delay 0 || eqb p.max_retry_delay 0
    then 0
    else if leb p.max_retry_delay p.base_retry_delay
    then p.max_retry_delay
    else if leb (ceil_log2 p.max_retry_delay p.base_retry_delay) exponent
    then p.max_retry_delay
    else p.base_retry_delay * power exponent

-- `_retry_delay`
unfoldable pub retry_delay : Publisher → ℕ → ℕ
retry_delay p attempt_count =
    let capped = capped_delay p attempt_count in
    elim (p.jitter capped) [
      | none ↦ capped
      | some jittered ↦ if leb jittered capped then jittered else capped
    ]

-- `_retry_timestamp`; `now` is no value where the clock raises.
unfoldable pub retry_timestamp : Publisher → Option ℕ → ℕ → Option String
retry_timestamp p now attempt_count = elim now [
  | none ↦ none
  | some instant ↦ p.timestamp (instant + retry_delay p attempt_count)
]

pub power_pos : (n : ℕ) → 1 ≤ power n
unfolding power
power_pos zero = omega arith
power_pos (suc n) = omega (arith, power_pos n)

scaled : (base n : ℕ) → 1 ≤ n → base ≤ base * n
scaled base zero h = absurd (omega (arith, h))
scaled base (suc n) h = omega (arith, mul-suc base n)

double-mul : (a n : ℕ) → (a + a) * n ≡ a * (n + n)
double-mul a n = omega (arith, add-mul a a n, mul-add a n n)

-- With enough fuel, the doublings that are counted are the least ones that reach the target.
count_doublings_lem :
    (fuel reached target e : ℕ)
    → target ≤ reached * power fuel
    → leb (count_doublings fuel reached target) e ≡ leb target (reached * power e)
unfolding count_doublings power
count_doublings_lem zero reached target e enough =
    let more = mul-le-mul_left {m = 1} {n = power e} reached (power_pos e) in
    ground (arith, enough, more)
count_doublings_lem (suc fuel) reached target zero enough = ground (arith, mul-one reached)
count_doublings_lem (suc fuel) reached target (suc e) enough =
    let twice = double-mul reached (power fuel) in
    let rest =
      count_doublings_lem fuel (reached + reached) target e (omega (arith, enough, twice)) in
    let once = double-mul reached (power e) in
    let more = scaled reached (power (suc e)) (power_pos (suc e)) in
    ground (arith, rest, once, more)

power_above : (n : ℕ) → n ≤ power n
unfolding power
power_above zero = omega arith
power_above (suc n) = omega (arith, power_above n, power_pos n)

enough_doublings : (greatest base : ℕ) → 1 ≤ base → greatest ≤ base * power greatest
enough_doublings greatest base positive =
    let grown = mul-le-mul_right {m = 1} {n = base} (power greatest) positive in
    omega (arith, power_above greatest, grown, one-mul (power greatest))

capped_lem :
    (p : Publisher) (attempt_count : ℕ)
    → leb p.base_retry_delay p.max_retry_delay ≡ true
    → capped_delay p attempt_count
      ≡ min p.max_retry_delay (p.base_retry_delay * power (attempt_count - 1))
unfolding capped_delay
capped_lem p attempt_count ordered = elim (Bool-cases (eqb p.base_retry_delay 0)) [
  | inl zero_base ↦
      let z : p.base_retry_delay ≡ 0 = ground arith in
      rw (z, zero-mul (power (attempt_count - 1))) (omega arith)
  | inr positive ↦
      let one_or_more : 1 ≤ p.base_retry_delay = ground arith in
      let product =
        scaled p.base_retry_delay (power (attempt_count - 1)) (power_pos (attempt_count - 1)) in
      let reaches =
        count_doublings_lem p.max_retry_delay p.base_retry_delay p.max_retry_delay
          (attempt_count - 1) (enough_doublings p.max_retry_delay p.base_retry_delay one_or_more) in
      ground (arith, reaches, product, ordered)
]

-- The exponential backoff is the base delay, doubled with each attempt after the first, up to the greatest
-- delay, and the jitter only shortens it. The base delay is at most the greatest one, as the constructor demands.
pub retry_delay_lem :
    (p : Publisher) (attempt_count : ℕ)
    → leb p.base_retry_delay p.max_retry_delay ≡ true
    → (capped_delay p attempt_count
        ≡ min p.max_retry_delay (p.base_retry_delay * power (attempt_count - 1)))
      × (retry_delay p attempt_count ≤ capped_delay p attempt_count)
unfolding retry_delay
retry_delay_lem p attempt_count ordered = (
  capped_lem p attempt_count ordered,
  elim (Option-cases (p.jitter (capped_delay p attempt_count))) [
    | inl plain ↦ rw (plain, retry_delay) (omega arith)
    | inr (jittered, short) ↦ rw (short, retry_delay) (ground arith)
  ],
)

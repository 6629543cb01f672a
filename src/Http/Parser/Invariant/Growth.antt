-- ===== src/Http/Parser/Invariant/Growth.antt =====
-- The input buffer grows within its bound, keeps the input, and gives the room that is asked for.
use visage_dvachevsky_tempre.Memory.{take-append_exact}
use visage_dvachevsky_tempre.Base.{
  ℕ, zero, suc, ◌-◌, ◌*◌, ◌^◌, ◌≤◌, ◌<◌, ◌≡◌, Bool, true, ◌++◌, Bytes, length, take, replicate,
  arith, length-take, length-append, length-replicate,
}
use native.Mathlib.Nat.{pow-suc}
use visage_dvachevsky_tempre.Http.Parser.{
  Env, Parser, memory, max_buffer_size, initial_buffer_capacity,
}
use visage_dvachevsky_tempre.Http.Parser.Buffer.{
  has_buffer, grow_capacity, grow_fuel, reserve_buffer, ensure_buffer_capacity,
}
use visage_dvachevsky_tempre.Http.Parser.Invariant.{IsValid}

double_pow : (c n : ℕ) → c * 2 ^ suc n ≡ c * 2 * 2 ^ n
double_pow c n = rw (pow-suc 2 n) (omega arith)

-- The loop reaches the required capacity, within the bound, if its fuel lasts to the bound.
grow_capacity_bounds :
    (fuel required capacity : ℕ)
    → required ≤ max_buffer_size
    → capacity ≤ max_buffer_size
    → max_buffer_size < capacity * 2 ^ fuel
    → (required ≤ grow_capacity fuel required capacity)
      × (grow_capacity fuel required capacity ≤ max_buffer_size)
unfolding grow_capacity
grow_capacity_bounds zero required capacity h k f = omega arith
grow_capacity_bounds (suc fuel) required capacity h k f =
    ground (arith, grow_capacity_bounds fuel required (capacity * 2) h, double_pow capacity fuel)

-- The first `buffer_size_` bytes of the buffer: the input.
abbrev pub input : Parser → Bytes
input p = take p.buffer_size (memory p)

-- A reservation that holds the input keeps the invariant and the input; if it succeeds, the capacity
-- is there.
abbrev pub Reserved : Parser → ℕ → Parser × Bool → Type 0
Reserved p capacity (q, done) =
    IsValid q
    × (input q ≡ input p)
    × (q.buffer_size ≡ p.buffer_size)
    × (q.parse_pos ≡ p.parse_pos)
    × (done ≡ true → (capacity ≤ q.buffer_capacity) × (has_buffer q ≡ true))

pub length-input : (p : Parser) → IsValid p → length (input p) ≡ p.buffer_size
length-input p v = omega (arith, length-take p.buffer_size (memory p))

-- The copy that a reservation makes.
abbrev copied : Env → ℕ → Parser → Bytes
copied env capacity p = input p ++ replicate (capacity - length (input p)) env.junk

copied_lem :
    (env : Env) (capacity : ℕ) (p : Parser)
    → IsValid p
    → p.buffer_size ≤ capacity
    → (length (copied env capacity p) ≡ capacity)
      × (take p.buffer_size (copied env capacity p) ≡ input p)
copied_lem env capacity p v h = (
  omega (
    arith,
    length-input p v,
    length-append (input p) (replicate (capacity - length (input p)) env.junk),
    length-replicate (capacity - length (input p)) env.junk,
  ),
  take-append_exact p.buffer_size (input p) (replicate (capacity - length (input p)) env.junk)
      (length-input p v),
)

pub reserve_buffer-Reserved :
    (env : Env) (capacity : ℕ) (p : Parser)
    → IsValid p
    → p.buffer_size ≤ capacity
    → Reserved p capacity (reserve_buffer env capacity p)
unfolding reserve_buffer
reserve_buffer-Reserved env capacity p v h = ground (arith, copied_lem env capacity p v h)

-- On a valid parser that has a buffer, `ensure_buffer_capacity` for at least the size of the input
-- leaves a valid parser with the same input and position; if it succeeds, the buffer has the required
-- capacity.
pub ensure_buffer_capacity-Reserved :
    (env : Env) (required : ℕ) (p : Parser)
    → IsValid p
    → has_buffer p ≡ true
    → p.buffer_size ≤ required
    → Reserved p required (ensure_buffer_capacity env required p)
unfolding ensure_buffer_capacity
ensure_buffer_capacity-Reserved env required p v hb h = ground (
  arith,
  grow_capacity_bounds grow_fuel required p.buffer_capacity,
  grow_capacity_bounds grow_fuel required initial_buffer_capacity,
  reserve_buffer-Reserved env (grow_capacity grow_fuel required p.buffer_capacity) p v,
  reserve_buffer-Reserved env (grow_capacity grow_fuel required initial_buffer_capacity) p v,
)

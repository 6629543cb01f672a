-- ===== src/Memory.antt =====
-- A block of memory as the list of its bytes: `memmove` to its front and `memcpy` into it.
use visage_dvachevsky_tempre.Base.{
  ℕ, ◌+◌, ◌≤◌, ◌≡◌, ◌++◌, Bytes, length, take, drop, arith, length-take, length-drop, length-append,
  take-append_length,
}

-- `memmove(block, block + from, n)` and `memcpy(block + at, text, ...)`.
unfoldable pub move_to_front : ℕ → ℕ → Bytes → Bytes
move_to_front from n m = take n (drop from m) ++ drop n m

unfoldable pub write_at : ℕ → Bytes → Bytes → Bytes
write_at at_pos text m = take at_pos m ++ text ++ drop (at_pos + length text) m

pub take-append_exact : (n : ℕ) (xs ys : Bytes) → length xs ≡ n → take n (xs ++ ys) ≡ xs
take-append_exact n xs ys e = rw (← e) (take-append_length xs ys)

pub length-move_to_front :
    (from n : ℕ) (m : Bytes) → from + n ≤ length m → length (move_to_front from n m) ≡ length m
unfolding move_to_front
length-move_to_front from n m h = omega (
  arith,
  length-append (take n (drop from m)) (drop n m),
  length-take n (drop from m),
  length-drop from m,
  length-drop n m,
)

pub take-move_to_front :
    (from n : ℕ) (m : Bytes)
    → from + n ≤ length m
    → take n (move_to_front from n m) ≡ take n (drop from m)
unfolding move_to_front
take-move_to_front from n m h =
    take-append_exact n (take n (drop from m)) (drop n m)
      (omega (arith, length-take n (drop from m), length-drop from m))

pub length-write_at :
    (n : ℕ) (d m : Bytes) → n + length d ≤ length m → length (write_at n d m) ≡ length m
unfolding write_at
length-write_at n d m h = omega (
  arith,
  length-append (take n m ++ d) (drop (n + length d) m),
  length-append (take n m) d,
  length-take n m,
  length-drop (n + length d) m,
)

pub take-write_at :
    (n : ℕ) (d m : Bytes)
    → n + length d ≤ length m
    → take (n + length d) (write_at n d m) ≡ take n m ++ d
unfolding write_at
take-write_at n d m h =
    take-append_exact (n + length d) (take n m ++ d) (drop (n + length d) m)
      (omega (arith, length-append (take n m) d, length-take n m))

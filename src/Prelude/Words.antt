-- ===== src/Prelude/Words.antt =====
-- Machine words: sums and differences that wrap, as in the release profile.
use rust_hotpath_ipc.Prelude.{ℕ, ◌+◌, ◌-◌, ◌%◌, ◌^◌, ltb, leb, if◌then◌else◌}
use rust_hotpath_ipc.Prelude.Int.{ℤ, pos, ◌+ℤ◌, ◌-ℤ◌, pos_part, neg_part}

abbrev pub sub_u64 : ℕ → ℕ → ℕ
sub_u64 a b = (a + 2 ^ 64 - b) % 2 ^ 64

abbrev pub add_u64 : ℕ → ℕ → ℕ
add_u64 a b = (a + b) % 2 ^ 64

-- What a sum of two `i64`s, or a difference, is in an `i64`.
abbrev pub wrap_i64 : ℤ → ℤ
wrap_i64 a =
    if leb (2 ^ 63) (pos_part a)
    then a -ℤ pos (2 ^ 64)
    else if ltb (2 ^ 63) (neg_part a)
    then a +ℤ pos (2 ^ 64)
    else a

-- ===== src/Runtime.antt =====
-- src/runtime.rs: tunables from the environment, `env` being `env::var(..).ok()`; and the
-- `str::parse` of the whole numbers that the processes read. Pinning and priorities are system calls.
use rust_hotpath_ipc.Prelude.{
  ◌>>=◌, ℕ, ◌+◌, ◌-◌, ◌*◌, ◌^◌, ◌&&◌, Option, none, some, [], ◌∷◌, ltb, leb, ◌==◌, if◌then◌else◌,
}
use rust_hotpath_ipc.Prelude.Int.{ℤ, pos, ◌-ℤ◌}
use rust_hotpath_ipc.Prelude.Text.{Text}

abbrev pub Env : Type 0
Env = Text → Option Text

abbrev unwrap_or {ℓ} : {A : Type ℓ} → Option A → A → A
unwrap_or none a = a
unwrap_or (some b) a = b

unfoldable pub env_or {ℓ} : {A : Type ℓ} → (Text → Option A) → Env → Text → A → A
env_or parse env key default = unwrap_or (env key >>= parse) default

unfoldable digits_from : ℕ → Text → Option ℕ
digits_from n [] = some n
digits_from n (c ∷ t) =
    let rest = digits_from (10 * n + (c - b'0')) t in
    if leb b'0' c && leb c b'9' then rest else none

abbrev parse_digits : Text → Option ℕ
parse_digits [] = none
parse_digits (c ∷ t) = digits_from 0 (c ∷ t)

abbrev strip_plus : Text → Text
strip_plus [] = []
strip_plus (c ∷ t) = if c == b'+' then t else c ∷ t

-- `str::parse::<u64>`, and `usize`.
unfoldable pub parse_u64 : Text → Option ℕ
unfolding digits_from
parse_u64 t = parse_digits (strip_plus t) >>= λ n. if ltb n (2 ^ 64) then some n else none

-- `str::parse::<i64>`.
unfoldable pub parse_i64 : Text → Option ℤ
unfolding digits_from
parse_i64 [] = none
parse_i64 (c ∷ t) =
    if c == b'-'
    then (parse_digits t >>= λ n. if leb n (2 ^ 63) then some (pos 0 -ℤ pos n) else none)
    else (parse_digits (strip_plus (c ∷ t)) >>= λ n. if ltb n (2 ^ 63) then some (pos n) else none)

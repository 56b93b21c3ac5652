-- ===== src/Config.antt =====
-- src/config.rs: the configuration that the environment gives.
use virt_warehouse_pro.Common.{
  ℕ, zero, suc, ◌+◌, ◌-◌, ◌*◌, ◌/◌, ◌%◌, ◌^◌, ◌<◌, ◌≡◌, refl, arith, List, [], ◌∷◌, Option, none,
  some, Bool, true, false, not, ◌&&◌, ◌||◌, ltb, leb, ◌==◌ as nat_beq, if◌then◌else◌, Result, Error,
  ok, err, ◌>>=◌, ◌>>◌, ensure, bit_and,
}
use virt_warehouse_pro.Common.Eq.{list_beq, nat_eq}
use virt_warehouse_pro.Bytes.Words.{Bytes}
use virt_warehouse_pro.Bytes.Utf8.{chars, trim}
pub mod Shards

-- The names that are read.
pub data Variable : Type 0 where
  warehouse_bind warehouse_data_dir warehouse_shards warehouse_wal_batch warehouse_wal_flush_ms :
      Variable
  warehouse_nats_url warehouse_live_tail warehouse_fail_after_replicate_id : Variable
  warehouse_instance_id warehouse_writer_priority_delay_ms : Variable

-- `env::var`: the value of a variable, if it is set to a text.
abbrev pub Environment : Type 0
Environment = Variable → Option Bytes

-- `value`
unfoldable pub env_value : Environment → Variable → Bytes → Bytes
env_value env name default = elim (env name) [ none ↦ default | some text ↦ text ]

-- The digits of a `usize` of 64 bits.
unfoldable pub parse_digits : ℕ → Bytes → Result ℕ
parse_digits acc [] = ok acc
parse_digits acc (b ∷ bs) = elim (leb 48 b && leb b 57) [
  | false ↦ err Error.bad_number
  | true ↦ elim (ltb (acc * 10 + (b - 48)) (2 ^ 64)) [
    | true ↦ parse_digits (acc * 10 + (b - 48)) bs
    | false ↦ err Error.bad_number
  ]
]

-- `str::parse`: a sign that is `+`, if there is one, and at least one digit
unfoldable pub parse_number : Bytes → Result ℕ
parse_number [] = err Error.bad_number
parse_number (b ∷ []) = parse_digits 0 (b ∷ [])
parse_number (b ∷ c ∷ bs) = elim (nat_beq b 43) [
  | true ↦ parse_digits 0 (c ∷ bs)
  | false ↦ parse_digits 0 (b ∷ c ∷ bs)
]

-- `parse_usize`; the default is given as its digits.
unfoldable pub parse_usize : Environment → Variable → Bytes → Result ℕ
parse_usize env name default = parse_number (env_value env name default)

-- `is_power_of_two`
unfoldable pub is_power_of_two : ℕ → Bool
is_power_of_two n = not (nat_beq n 0) && nat_beq (bit_and n (n - 1)) 0

abbrev is_nothing : List ℕ → Bool
is_nothing [] = true
is_nothing (c ∷ cs) = false

-- `value.trim().is_empty()`, of a text
unfoldable pub is_blank : Bytes → Bool
is_blank text = elim (chars text) [ none ↦ false | some cs ↦ is_nothing (trim cs) ]

-- `env::var(name).ok().filter(|value| !value.trim().is_empty())`
unfoldable pub unless_blank : Environment → Variable → Option Bytes
unless_blank env name = elim (env name) [
  | none ↦ none
  | some text ↦ if is_blank text then none else some text
]

abbrev default_bind : Bytes
default_bind =
    b'1' ∷ b'2' ∷ b'7' ∷ b'.' ∷ b'0' ∷ b'.' ∷ b'0' ∷ b'.' ∷ b'1' ∷ b':' ∷ b'8' ∷ b'0' ∷ b'8' ∷ b'0'
    ∷ []

abbrev default_instance : Bytes
default_instance =
    b'w' ∷ b'a' ∷ b'r' ∷ b'e' ∷ b'h' ∷ b'o' ∷ b'u' ∷ b's' ∷ b'e' ∷ b'-' ∷ b'l' ∷ b'o' ∷ b'c' ∷ b'a'
    ∷ b'l' ∷ []

-- The durations are in milliseconds; an address is what `parse_address` makes of its text.
pub record Config (A : Type 0) : Type 0 where
  pub bind : A
  pub data_dir : Bytes
  pub shards : ℕ
  pub wal_batch : ℕ
  pub wal_flush_interval : ℕ
  pub nats_url : Option Bytes
  pub live_tail : Bool
  pub fail_after_replicate_id : Option Bytes
  pub instance_id : Bytes
  pub writer_priority_delay : ℕ

-- `Config::from_env`; `parse_address` is that of `SocketAddr`.
unfoldable pub from_env : {A : Type 0} → (Bytes → Result A) → Environment → Result (Config A)
from_env parse_address env = do
  bind ← parse_address (env_value env warehouse_bind default_bind)
  shards ← parse_usize env warehouse_shards (b'1' ∷ b'6' ∷ [])
  wal_batch ← parse_usize env warehouse_wal_batch (b'1' ∷ b'0' ∷ b'2' ∷ b'4' ∷ [])
  flush_ms ← parse_usize env warehouse_wal_flush_ms (b'2' ∷ [])
  ensure (is_power_of_two shards) Error.not_power_of_two
  ensure (ltb 0 wal_batch) Error.not_positive
  delay ← parse_usize env warehouse_writer_priority_delay_ms (b'0' ∷ [])
  ok (record {
    bind = bind;
    data_dir = env_value env warehouse_data_dir (b'd' ∷ b'a' ∷ b't' ∷ b'a' ∷ []);
    shards = shards;
    wal_batch = wal_batch;
    wal_flush_interval = flush_ms;
    nats_url = unless_blank env warehouse_nats_url;
    live_tail =
        list_beq (env_value env warehouse_live_tail (b'f' ∷ b'a' ∷ b'l' ∷ b's' ∷ b'e' ∷ []))
          (b't' ∷ b'r' ∷ b'u' ∷ b'e' ∷ []);
    fail_after_replicate_id = unless_blank env warehouse_fail_after_replicate_id;
    instance_id = env_value env warehouse_instance_id default_instance;
    writer_priority_delay = delay;
  })

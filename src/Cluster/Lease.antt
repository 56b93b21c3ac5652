-- ===== src/Cluster/Lease.antt =====
-- src/cluster.rs: the lease of the writer, `start_writer_lease` and `WriterLease`.
use virt_warehouse_pro.Common.{
  ℕ, ◌+◌, List, [], ◌∷◌, Option, none, some, Bool, true, false, ◌&&◌, ◌||◌, ltb, leb, if◌then◌else◌,
}
use virt_warehouse_pro.Common.Eq.{◌==◌, list_eq, nat_eq}
use virt_warehouse_pro.Bytes.Words.{Bytes}

-- The clock is in milliseconds.
pub record LeaseState : Type 0 where
  pub owned : Bool
  pub valid_until : ℕ
  pub epoch : ℕ

pub record LeaseValue : Type 0 where
  pub instance_id : Bytes
  pub epoch : ℕ

-- What the key-value store answers when the entry of the writer is read: a value that can be decoded,
-- one that cannot, none, or an error.
pub data Entry : Type 0 where
  held : LeaseValue → Entry
  unreadable : Entry
  missing : Entry
  unanswered : Entry

-- What it answers to the writes of a round: whether the update of the revision is accepted, the
-- revision of a new entry, and whether the update of that and the fence are accepted.
pub record Answers : Type 0 where
  pub updated : Bool
  pub created : Option ℕ
  pub confirmed : Bool
  pub fenced : Bool

-- `(renewed, definitely_lost)`
unfoldable pub renew : Bytes → Entry → Answers → Option ℕ × Bool
renew instance_id (held value) a =
    if value.instance_id == instance_id && ltb 0 value.epoch
    then (if a.updated then some value.epoch else none, false)
    else (none, true)
renew instance_id unreadable a = (none, true)
renew instance_id missing a = elim a.created [
  | none ↦ (none, true)
  | some revision ↦ if a.confirmed && a.fenced then (some revision, false) else (none, true)
]
renew instance_id unanswered a = (none, false)

-- The state after a round with this result.
unfoldable pub settled : Option ℕ → Bool → ℕ → LeaseState → LeaseState
settled (some epoch) definitely_lost now state = record {
  owned = true;
  valid_until = now + 4_000;
  epoch = epoch;
}
settled none definitely_lost now state =
    if definitely_lost || leb state.valid_until now then record state { owned = false } else state

-- One round of the loop, whose result arrives at the time `now`.
unfoldable pub round : Bytes → Entry → Answers → ℕ → LeaseState → LeaseState
round instance_id entry a now state =
    let (renewed, definitely_lost) = renew instance_id entry a in
    settled renewed definitely_lost now state

-- `owns_valid_lease_for`
unfoldable pub owns_valid_lease_for : ℕ → ℕ → LeaseState → Bool
owns_valid_lease_for now required state = state.owned && ltb (now + required) state.valid_until

-- `valid_epoch_for`
unfoldable pub valid_epoch_for : ℕ → ℕ → LeaseState → Option ℕ
valid_epoch_for now required state =
    if state.owned && ltb (now + required) state.valid_until then some state.epoch else none

-- A round: what is read, what is answered, and the time at which its result arrives.
abbrev pub Round : Type 0
Round = Entry × Answers × ℕ

unfoldable pub run_lease : Bytes → LeaseState → List Round → LeaseState
run_lease instance_id state [] = state
run_lease instance_id state ((entry, a, now) ∷ rounds) =
    run_lease instance_id (round instance_id entry a now state) rounds

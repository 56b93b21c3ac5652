-- ===== src/Cluster/Holding.antt =====
-- src/cluster.rs: the epochs under which a node may write, over the rounds of its lease.
use virt_warehouse_pro.Common.{
  ℕ, ◌+◌, ◌<◌, ◌≡◌, ◌⊎◌, inl, inr, refl, ap, subst, arith, List, [], ◌∷◌, Option, none, some, Bool,
  true, false, Bool-cases, Option-cases, ◌&&◌, ◌||◌, ◌∙◌, sym, ltb, leb,
}
use virt_warehouse_pro.Common.Eq.{◌==◌, list_beq_iff, list_eq, nat_eq}
use virt_warehouse_pro.Bytes.Words.{Bytes}
use virt_warehouse_pro.Cluster.Lease.{
  LeaseState, Entry, held, unreadable, missing, unanswered, Answers, Round, renew, settled, round,
  run_lease, valid_epoch_for,
}

-- The key-value store has accepted, in this round, what gives the node the epoch `e`: the update of an
-- entry that has the node's name and this epoch, or a new entry of the revision `e`, then its update,
-- and the log has taken the fence.
abbrev pub Accepts : Bytes → ℕ → Entry → Answers → Type 0
Accepts instance_id e (held value) a =
    (value.instance_id ≡ instance_id) × (value.epoch ≡ e) × (0 < e) × (a.updated ≡ true)
Accepts instance_id e unreadable a = ⊥
Accepts instance_id e missing a = (a.created ≡ some e) × (a.confirmed ≡ true) × (a.fenced ≡ true)
Accepts instance_id e unanswered a = ⊥

-- The round has not shown the entry to be lost: it was not answered, or the entry has the node's name,
-- and the update failed.
abbrev pub Bears : Bytes → Entry → Answers → Type 0
Bears instance_id (held value) a =
    (value.instance_id ≡ instance_id) × (0 < value.epoch) × (a.updated ≡ false)
Bears instance_id unreadable a = ⊥
Bears instance_id missing a = ⊥
Bears instance_id unanswered a = Unit

abbrev pub AllBear : Bytes → List Round → Type 0
AllBear instance_id [] = Unit
AllBear instance_id ((entry, a, now) ∷ rounds) =
    Bears instance_id entry a × AllBear instance_id rounds

-- In one of the rounds the epoch was accepted; its result arrived 4 seconds before `until`, and none of
-- the later rounds has shown the entry to be lost.
abbrev pub Granted : Bytes → ℕ → ℕ → List Round → Type 0
Granted instance_id e until [] = ⊥
Granted instance_id e until ((entry, a, now) ∷ rounds) =
    (Accepts instance_id e entry a × (until ≡ now + 4_000) × AllBear instance_id rounds)
    ⊎ Granted instance_id e until rounds

renew-Accepts :
    (instance_id : Bytes) (entry : Entry) (a : Answers) (e : ℕ)
    → (renew instance_id entry a).0 ≡ some e
    → Accepts instance_id e entry a
unfolding renew
renew-Accepts instance_id (held value) a e h =
    elim (Bool-cases (value.instance_id == instance_id && ltb 0 value.epoch)) [
      | inl own ↦ elim (Bool-cases a.updated) [
        | inl t ↦
            let same : value.epoch ≡ e = ground (arith, own, t, h) in
            let named : (value.instance_id == instance_id) ≡ true = ground (arith, own) in
            (
              (list_beq_iff value.instance_id instance_id).0 named,
              same,
              ground (arith, own, same),
              t,
            )
        | inr t ↦ absurd (ground (arith, own, t, h))
      ]
      | inr other ↦ absurd (ground (arith, other, h))
    ]
renew-Accepts instance_id unreadable a e h = absurd (ground (arith, h))
renew-Accepts instance_id missing a e h = elim (Option-cases a.created) [
  | inl t ↦ absurd (ground (arith, t, h))
  | inr (revision, t) ↦ elim (Bool-cases (a.confirmed && a.fenced)) [
    | inl u ↦ (ground (arith, t, u, h), ground (arith, u), ground (arith, u))
    | inr u ↦ absurd (ground (arith, t, u, h))
  ]
]
renew-Accepts instance_id unanswered a e h = absurd (ground (arith, h))

renew-Bears :
    (instance_id : Bytes) (entry : Entry) (a : Answers)
    → (renew instance_id entry a).0 ≡ none
    → (renew instance_id entry a).1 ≡ false
    → Bears instance_id entry a
unfolding renew
renew-Bears instance_id (held value) a h k =
    elim (Bool-cases (value.instance_id == instance_id && ltb 0 value.epoch)) [
      | inl own ↦
          let named : (value.instance_id == instance_id) ≡ true = ground (arith, own) in
          (
            (list_beq_iff value.instance_id instance_id).0 named,
            ground (arith, own),
            ground (arith, own, h),
          )
      | inr other ↦ absurd (ground (arith, other, k))
    ]
renew-Bears instance_id unreadable a h k = absurd (ground (arith, k))
renew-Bears instance_id missing a h k = elim (Option-cases a.created) [
  | inl t ↦ absurd (ground (arith, t, k))
  | inr (revision, t) ↦ elim (Bool-cases (a.confirmed && a.fenced)) [
    | inl u ↦ absurd (ground (arith, t, u, h))
    | inr u ↦ absurd (ground (arith, t, u, k))
  ]
]
renew-Bears instance_id unanswered a h k = tt

-- What a state owns, if anything, is granted in the rounds, or was owned before them and is not lost.
abbrev Owns : Bytes → LeaseState → LeaseState → List Round → Type 0
Owns instance_id before after rounds =
    (after.owned ≡ false)
    ⊎ (Granted instance_id after.epoch after.valid_until rounds
        ⊎ ((before.owned ≡ true)
            × (after.epoch ≡ before.epoch)
            × (after.valid_until ≡ before.valid_until)
            × AllBear instance_id rounds))

-- What a state owns after one round: what is accepted in it, or what it owned before.
abbrev After : Option ℕ → Bool → ℕ → LeaseState → LeaseState → Type 0
After renewed lost now before after =
    ((renewed ≡ some after.epoch) × (after.valid_until ≡ now + 4_000))
    ⊎ ((before.owned ≡ true)
        × (after.epoch ≡ before.epoch)
        × (after.valid_until ≡ before.valid_until)
        × (renewed ≡ none)
        × (lost ≡ false))

settled_lem :
    (renewed : Option ℕ) (lost : Bool) (now : ℕ) (s : LeaseState)
    → (settled renewed lost now s).owned ≡ true
    → After renewed lost now s (settled renewed lost now s)
unfolding settled
settled_lem (some epoch) lost now s owned = inl (refl, refl)
settled_lem none lost now s owned = elim (Bool-cases (lost || leb s.valid_until now)) [
  | inl gone ↦ absurd (false_owned (sym (rw (settled, gone) refl) ∙ owned))
  | inr kept ↦
      let same : settled none lost now s ≡ s = rw (settled, kept) refl in
      inr (
        ap (λ (x : LeaseState). x.owned) (sym same) ∙ owned,
        ap (λ (x : LeaseState). x.epoch) same,
        ap (λ (x : LeaseState). x.valid_until) same,
        refl,
        ground (arith, kept),
      )
]
  where
    false_owned : false ≡ true → ⊥
    false_owned e = cc

run_lease_lem :
    (instance_id : Bytes) (s : LeaseState) (rounds : List Round)
    → Owns instance_id s (run_lease instance_id s rounds) rounds
unfolding run_lease round
run_lease_lem instance_id s [] = elim (Bool-cases s.owned) [
  | inl e ↦ inr (inr (e, refl, refl, tt))
  | inr e ↦ inl e
]
run_lease_lem instance_id s ((entry, a, now) ∷ rounds) =
    elim (run_lease_lem instance_id (round instance_id entry a now s) rounds) [
      | inl free ↦ inl free
      | inr (inl granted) ↦ inr (inl (inr granted))
      | inr (inr (owned, e, u, bear)) ↦
          elim (settled_lem (renew instance_id entry a).0 (renew instance_id entry a).1 now s
            owned) [
              | inl (renewed, until) ↦
                  inr (
                    inl (inl (renew-Accepts instance_id entry a _ (rw e renewed), u ∙ until, bear)))
              | inr (before, e', u', none_new, safe) ↦ inr (
                  inr
                    (before, e ∙ e', u ∙ u', (renew-Bears instance_id entry a none_new safe, bear)))
            ]
    ]

valid_lem :
    (at required : ℕ) (s : LeaseState) (e : ℕ)
    → valid_epoch_for at required s ≡ some e
    → (s.epoch ≡ e) × (at + required < s.valid_until)
unfolding valid_epoch_for
valid_lem at required s e h = ground arith

-- From a state that owns nothing, over any rounds: when `valid_epoch_for` gives an epoch for `required`
-- milliseconds from the time `at` on, then in one of the rounds the key-value store has accepted the
-- node's update of an entry with the node's name and that epoch, or its new entry of that revision with
-- its update and the fence; the required time ends less than 4 seconds after the result of that round
-- arrived, and no later round has found the entry missing, unreadable, or with another name or epoch 0.
pub valid_epoch_for-Granted :
    (instance_id : Bytes) (s : LeaseState) (rounds : List Round) (at required e : ℕ)
    → s.owned ≡ false
    → valid_epoch_for at required (run_lease instance_id s rounds) ≡ some e
    → (until : ℕ) × Granted instance_id e until rounds × (at + required < until)
unfolding valid_epoch_for
valid_epoch_for-Granted instance_id s rounds at required e free valid =
    elim (run_lease_lem instance_id s rounds) [
      | inl none_owned ↦ absurd (no_epoch (sym (rw (valid_epoch_for, none_owned) refl) ∙ valid))
      | inr (inl granted) ↦
          (let (same, in_time) = valid_lem at required (run_lease instance_id s rounds) e valid in
            (
              (run_lease instance_id s rounds).valid_until,
              subst (λ n. Granted instance_id n (run_lease instance_id s rounds).valid_until rounds)
                  same granted,
              in_time,
            ))
      | inr (inr (owned, _, _, _)) ↦ absurd (not_both (sym free ∙ owned))
    ]
  where
    no_epoch : Path (Option ℕ) none (some e) → ⊥
    no_epoch p = cc

    not_both : false ≡ true → ⊥
    not_both p = cc

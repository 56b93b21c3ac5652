-- ===== src/Service/Queries/Pages.antt =====
-- src/main.rs: the pages of the history, and the answers while it is rebuilt.
use virt_warehouse_pro.Common.{
  ℕ, ◌<◌, ◌≤◌, ◌≡◌, refl, ap, arith, List, Option, none, ◌||◌, ◌==◌ as nat_beq, ltb, if◌then◌else◌,
  Bool-cases, Result-cases, inl, inr, Result, ok, length, subst,
}
use virt_warehouse_pro.Bytes.Words.{Bytes}
use virt_warehouse_pro.Model.{Operation}
use virt_warehouse_pro.Disk.Tree.{Tree}
use virt_warehouse_pro.Disk.History.{lsm_by_owner, old_by_owner, History, HistoryReads}
use virt_warehouse_pro.Disk.History.Lookup.{by_owner, scan_operations}
use virt_warehouse_pro.Service.Queries.{
  Answer, Answer.found, Answer.not_found, Answer.refused, ensure_history_complete, HistoryPage,
  history_page, limit_or, answer_page, scan_page, get_operations_by_owner, last_of,
}
use virt_warehouse_pro.Disk.History.Bounds.{scan_operations-le, by_index-le}

-- The page that a query of the history answers: after the history has reached the checkpoint, within the
-- limits, and with a cursor if it is full.
unfoldable pub IsPageOf : ℕ → ℕ → ℕ → ℕ → HistoryPage → Type 0
IsPageOf required current most limit page =
    (required ≤ current)
    × (length page.operations ≤ limit)
    × (limit ≤ most)
    × (page.next_cursor
        ≡ (if nat_beq (length page.operations) limit then last_of page.operations else none))

from_found {ℓ} : {A : Type ℓ} (a b : A) → found a ≡ found b → a ≡ b
from_found {A = A} a b e =
    ap (λ (x : Answer A). elim x [ found c ↦ c | not_found ↦ a | refused why ↦ a ]) e

answer_page-found :
    (required current most limit : ℕ) (read : ℕ → Result (List Operation)) (page : HistoryPage)
    → (0 < limit → (ops : List Operation) → read limit ≡ ok ops → length ops ≤ limit)
    → answer_page required current most limit read ≡ found page
    → IsPageOf required current most limit page
unfolding answer_page ensure_history_complete IsPageOf history_page
answer_page-found required current most limit read page bounded h =
    elim (Bool-cases (ltb current required)) [
      | inl t ↦ absurd (ground (arith, t, h))
      | inr t ↦ elim (Bool-cases (nat_beq limit 0 || ltb most limit)) [
        | inl u ↦ absurd (ground (arith, t, u, h))
        | inr u ↦ elim (Result-cases (read limit)) [
          | inl (ops, e) ↦
              let same : history_page ops limit ≡ page =
                from_found _ page (ground (arith, t, u, e, h)) in
              let small = bounded (ground (arith, u)) ops e in
              subst (IsPageOf required current most limit) same
                (ground (arith, t), small, ground (arith, u), refl)
          | inr (why, e) ↦ absurd (ground (arith, t, u, e, h))
        ]
      ]
    ]

module _ {K : Type 0} ⦃tree : Tree K⦄ (io : HistoryReads) (tables : History K)
    (required current : ℕ) where
  -- A scan_page is answered only when the history has reached the checkpoint, with at most as many operations
  -- as the limit, which is at most 10,000, and with a cursor exactly when the page is full.
  pub scan_page-IsPageOf :
      (cursor : Option Bytes) (limit : Option ℕ) (page : HistoryPage)
      → scan_page io tables required current cursor limit ≡ found page
      → IsPageOf required current 10_000 (limit_or 10_000 limit) page
  unfolding scan_page
  scan_page-IsPageOf cursor limit page =
      answer_page-found required current 10_000 (limit_or 10_000 limit)
        (scan_operations io tables cursor) page
        (λ some_room ops. scan_operations-le io tables cursor (limit_or 10_000 limit) ops some_room)

  -- The operations of an owner are answered only when the history has reached the checkpoint, with at
  -- most as many operations as the limit, which is at most 1,000, and with a cursor exactly when the
  -- page is full.
  pub get_operations_by_owner-IsPageOf :
      (owner : Bytes) (cursor : Option Bytes) (limit : Option ℕ) (page : HistoryPage)
      → get_operations_by_owner io tables required current owner cursor limit ≡ found page
      → IsPageOf required current 1000 (limit_or 100 limit) page
  unfolding get_operations_by_owner by_owner
  get_operations_by_owner-IsPageOf owner cursor limit page =
      answer_page-found required current 1000 (limit_or 100 limit) (by_owner io tables owner cursor)
        page
        (λ some_room ops.
          by_index-le io tables lsm_by_owner old_by_owner owner cursor (limit_or 100 limit) ops
            some_room)

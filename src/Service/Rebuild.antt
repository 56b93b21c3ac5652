-- ===== src/Service/Rebuild.antt =====
-- The start of src/main.rs with a shared log: when the state is rebuilt.
use virt_warehouse_pro.Common.{◌≡◌, ◌⊎◌, inl, inr, refl, arith, none, true, ok, >>=-eq-ok}
use virt_warehouse_pro.Checkpoint.{Checkpoint, initial, reset}
use virt_warehouse_pro.Service.Startup.{
  Found, Plan, load_snapshot, archive_monolithic, discard_dedup, open_disk_dedup, check_dedup,
  open_log, startup, start_checkpoint,
}

module _ (f : Found) where
  -- Without a snapshot, either there was none, or the state is rebuilt.
  abbrev pub IsCovered : Plan → Type 0
  IsCovered p = p.snapshot ≡ none → (f.snapshot ≡ ok none) ⊎ (p.rebuild_from_quorum ≡ true)

  load_snapshot-IsCovered : (p : Plan) → f.nats ≡ true → load_snapshot f ≡ ok p → IsCovered p
  unfolding load_snapshot
  load_snapshot-IsCovered p nats e gone = ground arith

  archive_monolithic-IsCovered :
      (p q : Plan) → archive_monolithic f p ≡ ok q → IsCovered p → IsCovered q
  unfolding archive_monolithic
  archive_monolithic-IsCovered p q e c gone = ground (arith, c)

  discard_dedup-IsCovered : (p q : Plan) → discard_dedup f p ≡ ok q → IsCovered p → IsCovered q
  unfolding discard_dedup
  discard_dedup-IsCovered p q e c gone = ground (arith, c)

  open_disk_dedup-IsCovered : (p q : Plan) → open_disk_dedup f p ≡ ok q → IsCovered p → IsCovered q
  unfolding open_disk_dedup
  open_disk_dedup-IsCovered p q e c gone = ground (arith, c)

  check_dedup-IsCovered : (p : Plan) → f.nats ≡ true → IsCovered p → IsCovered (check_dedup f p)
  unfolding check_dedup
  check_dedup-IsCovered p nats c gone = ground (arith, c)

  open_log-IsCovered : (p q : Plan) → open_log f p ≡ ok q → IsCovered p → IsCovered q
  unfolding open_log
  open_log-IsCovered p q e c gone = ground (arith, c)

  startup-IsCovered : (p : Plan) → f.nats ≡ true → startup f ≡ ok p → IsCovered p
  unfolding startup
  startup-IsCovered p nats e =
      let (a, ea, e) = >>=-eq-ok (load_snapshot f) _ e in
      let (b, eb, e) = >>=-eq-ok (archive_monolithic f a) _ e in
      let (c, ec, e) = >>=-eq-ok (discard_dedup f b) _ e in
      let (d, ed, e) = >>=-eq-ok (open_disk_dedup f c) _ e in
      open_log-IsCovered (check_dedup f d) p e (
        check_dedup-IsCovered d nats (
          open_disk_dedup-IsCovered c d ed (
            discard_dedup-IsCovered b c ec
              (archive_monolithic-IsCovered a b eb (load_snapshot-IsCovered a nats ea)))))

  -- With a shared log: when a start that succeeds goes on without a snapshot, then either there was
  -- no snapshot file, or the checkpoint, if its file can be written, is reset, so that the whole log is
  -- read again.
  pub startup-reset :
      (p : Plan) (c : Checkpoint)
      → f.nats ≡ true
      → startup f ≡ ok p
      → p.snapshot ≡ none
      → (f.snapshot ≡ ok none) ⊎ ((start_checkpoint (ok tt) p c).1.value ≡ initial)
  unfolding start_checkpoint reset
  startup-reset p c nats e gone = elim (startup-IsCovered p nats e gone) [
    | inl never ↦ inl never
    | inr rebuild ↦ inr (rw (start_checkpoint, rebuild) refl)
  ]

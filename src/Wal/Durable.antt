-- ===== src/Wal/Durable.antt =====
-- src/wal.rs: the file and the acknowledgements of `writer` over a run.
use virt_warehouse_pro.Common.{
  ℕ, ◌≡◌, refl, sym, ap, ap₂, ◌∙◌, List, [], ◌∷◌, ◌++◌, append_assoc, append-nil, Option, none,
  some, Result, ok, length, All, All-append, All-append_parts, subst, ltb, Bool-cases, inl, inr,
  map, map-append,
}
use virt_warehouse_pro.Bytes.Words.{Bytes}
use virt_warehouse_pro.Model.{Operation}
use virt_warehouse_pro.Wal.Recover.{Codecs, recover, contents}
use virt_warehouse_pro.Wal.Records.{record_bytes, log_bytes, IsSmall, put_records_lem}
use virt_warehouse_pro.Wal.Recovery.{Decodes, IsTorn, recover-log_bytes}
use virt_warehouse_pro.Wal.Writer.{
  append, reset, written, failed, Event, received, deadline, Batch, Writer, start, put_records,
  buffer_of, flush, grow, first, further, step, writer,
}

abbrev pub Request : Type 0
Request = ℕ × List Bytes

abbrev pub payloads_of : List Request → List Bytes
payloads_of [] = []
payloads_of ((id, payloads) ∷ rest) = payloads ++ payloads_of rest

-- An event of a run in which every write succeeds and nothing is reset.
abbrev pub IsClean : Event → Type 0
IsClean (received (append id payloads) written) = All IsSmall payloads
IsClean (received (append id payloads) (failed n)) = ⊥
IsClean (received (reset id) out) = ⊥
IsClean (deadline written) = Unit {0}
IsClean (deadline (failed n)) = ⊥

abbrev pub requests_of : List Event → List Request
requests_of [] = []
requests_of (received (append id payloads) out ∷ es) = (id, payloads) ∷ requests_of es
requests_of (received (reset id) out ∷ es) = requests_of es
requests_of (deadline out ∷ es) = requests_of es

abbrev pub waiting : Option Batch → List Request
waiting none = []
waiting (some b) = b.commands

abbrev pub acknowledged : List Request → List (ℕ × Result (Unit {0}))
acknowledged = map (λ b. (b.0, ok tt))

module _ (c : Codecs) where
  pub log_bytes-append :
      (xs ys : List Bytes) → log_bytes c (xs ++ ys) ≡ log_bytes c xs ++ log_bytes c ys
  log_bytes-append [] ys = refl
  log_bytes-append (x ∷ xs) ys =
      ap (λ (t : Bytes). record_bytes c x ++ t) (log_bytes-append xs ys)
      ∙ sym (append_assoc (record_bytes c x) (log_bytes c xs) (log_bytes c ys))

  buffer_of_lem :
      (buffer : Bytes) (batch : List Request)
      → All (λ b. All IsSmall b.1) batch
      → buffer_of c buffer batch ≡ buffer ++ log_bytes c (payloads_of batch)
  unfolding buffer_of
  buffer_of_lem buffer [] h = sym (append-nil buffer)
  buffer_of_lem buffer ((id, payloads) ∷ batch) h =
      buffer_of_lem (put_records c buffer payloads) batch h.1
      ∙ rw (put_records_lem c buffer payloads h.0, log_bytes-append, append_assoc)

  payloads_of-append :
      (xs ys : List Request) → payloads_of (xs ++ ys) ≡ payloads_of xs ++ payloads_of ys
  payloads_of-append [] ys = refl
  payloads_of-append ((id, payloads) ∷ xs) ys =
      ap (λ (t : List Bytes). payloads ++ t) (payloads_of-append xs ys)
      ∙ sym (append_assoc payloads (payloads_of xs) (payloads_of ys))

  -- The requests that were answered, and those that the current batch holds.
  pub record IsDurable (file : Bytes) (done : List Request) (w : Writer) : Type 0 where
    pub saved : w.file ≡ file ++ log_bytes c (payloads_of done)
    pub answered : w.acks ≡ acknowledged done
    pub small : All (λ (b : Request). All IsSmall b.1) (waiting w.batch)

  -- Some requests are answered now: those that were, and the first of these.
  abbrev Progress : Bytes → List Request → Writer → Type 0
  Progress file requests w =
      (done : List Request) × IsDurable file done w × (done ++ waiting w.batch ≡ requests)

  flush_progress :
      (file : Bytes) (done : List Request) (w : Writer) (batch : List Request)
      → IsDurable file done w
      → All (λ (b : Request). All IsSmall b.1) batch
      → Progress file (done ++ batch) (flush c w batch written)
  unfolding flush
  flush_progress file done w batch d small = (
    done ++ batch,
    record {
      saved =
          ap₂ (λ (a b : Bytes). a ++ b) d.saved (buffer_of_lem [] batch small)
          ∙ append_assoc file _ _
          ∙ ap (λ (t : Bytes). file ++ t)
              (sym (log_bytes-append (payloads_of done) (payloads_of batch))
                ∙ ap (log_bytes c) (sym (payloads_of-append done batch)));
      answered =
          ap (λ (t : List (ℕ × Result (Unit {0}))). t ++ acknowledged batch) d.answered
          ∙ sym (map-append _ done batch);
      small = tt;
    },
    append-nil (done ++ batch),
  )

  grow_progress :
      (max : ℕ) (file : Bytes) (done : List Request) (w : Writer) (b : Batch)
      → IsDurable file done w
      → All (λ (r : Request). All IsSmall r.1) b.commands
      → Progress file (done ++ b.commands) (grow c max w b written)
  unfolding grow
  grow_progress max file done w b d small = elim (Bool-cases (ltb b.records max)) [
    | inl waits ↦
        rw waits (done, record { saved = d.saved; answered = d.answered; small = small }, refl)
    | inr full ↦ rw full (flush_progress file done w b.commands d small)
  ]

  abbrev parts : Bytes → Option Batch → List (ℕ × Result (Unit {0})) → Writer
  parts f o a = record { file = f; batch = o; acks = a }

  step_parts :
      (max : ℕ) (file : Bytes) (done : List Request) (f : Bytes) (o : Option Batch)
      (a : List (ℕ × Result (Unit {0}))) (e : Event)
      → IsDurable file done (parts f o a)
      → IsClean e
      → Progress file ((done ++ waiting o) ++ requests_of (e ∷ [])) (step c max (parts f o a) e)
  unfolding step first further
  step_parts max file done f none a (received (append id payloads) written) d clean =
      rw (append-nil done) (grow_progress max file done (parts f none a) _ d (clean, tt))
  step_parts max file done f (some b) a (received (append id payloads) written) d clean =
      rw (append_assoc done b.commands) (
        grow_progress max file done (parts f (some b) a) _ d
          (All-append _ b.commands ((id, payloads) ∷ []) d.small (clean, tt)))
  step_parts max file done f none a (deadline written) d clean =
      (done, d, sym (append-nil (done ++ [])))
  step_parts max file done f (some b) a (deadline written) d clean =
      rw (append-nil (done ++ b.commands))
        (flush_progress file done (parts f (some b) a) b.commands d d.small)
  step_parts max file done f o a (received (append id payloads) (failed n)) d clean = absurd clean
  step_parts max file done f o a (received (reset id) out) d clean = absurd clean
  step_parts max file done f o a (deadline (failed n)) d clean = absurd clean

  requests_of-cons :
      (e : Event) (es : List Event) → requests_of (e ∷ es) ≡ requests_of (e ∷ []) ++ requests_of es
  requests_of-cons (received (append id payloads) out) es = refl
  requests_of-cons (received (reset id) out) es = refl
  requests_of-cons (deadline out) es = refl

  -- Over a run in which every write succeeds, nothing is reset and the payloads have at most 1 MiB,
  -- the requests are answered in the order in which they were received, and the file holds the
  -- records of exactly those that were answered, behind what it held before.
  pub writer-IsDurable :
      (max : ℕ) (file : Bytes) (done : List Request) (w : Writer) (es : List Event)
      → IsDurable file done w
      → All IsClean es
      → Progress file ((done ++ waiting w.batch) ++ requests_of es) (writer c max w es)
  unfolding writer
  writer-IsDurable max file done w [] d clean =
      (done, d, sym (append-nil (done ++ waiting w.batch)))
  writer-IsDurable max file done w (e ∷ es) d clean =
      let (done', d', order) = step_parts max file done w.file w.batch w.acks e d clean.0 in
      let (done'', d'', order') = writer-IsDurable max file done' (step c max w e) es d' clean.1 in
      (
        done'',
        d'',
        order'
            ∙ ap (λ (t : List Request). t ++ requests_of es) order
            ∙ append_assoc (done ++ waiting w.batch) (requests_of (e ∷ [])) (requests_of es)
            ∙ ap (λ (t : List Request). (done ++ waiting w.batch) ++ t)
                (sym (requests_of-cons e es)),
      )

  -- The operations of some requests, where `ops` gives those of each command.
  abbrev pub operations_of : (ℕ → List Operation) → List Request → List Operation
  operations_of ops [] = []
  operations_of ops ((id, payloads) ∷ rest) = ops id ++ operations_of ops rest

  abbrev pub Carries : (ℕ → List Operation) → Request → Type 0
  Carries ops r = Decodes c r.1 (ops r.0)

  pub Decodes-append :
      (xs ys : List Bytes) (ops more : List Operation)
      → Decodes c xs ops
      → Decodes c ys more
      → Decodes c (xs ++ ys) (ops ++ more)
  Decodes-append [] ys [] more p q = q
  Decodes-append [] ys (op ∷ ops) more p q = absurd p
  Decodes-append (x ∷ xs) ys [] more p q = absurd p
  Decodes-append (x ∷ xs) ys (op ∷ ops) more p q = (p.0, p.1, Decodes-append xs ys ops more p.2 q)

  pub Decodes-payloads_of :
      (ops : ℕ → List Operation) (done : List Request)
      → All (Carries ops) done
      → Decodes c (payloads_of done) (operations_of ops done)
  Decodes-payloads_of ops [] h = tt
  Decodes-payloads_of ops ((id, payloads) ∷ done) h =
      Decodes-append payloads (payloads_of done) (ops id) (operations_of ops done) h.0
        (Decodes-payloads_of ops done h.1)

  -- From an empty file, over a run in which every write succeeds and nothing is reset, where the
  -- payloads have at most 1 MiB and command `id` carries the operations `ops id`: the requests are
  -- answered in the order in which they were received, and whatever torn record a crash leaves at
  -- the end of the file, recovery returns the operations of exactly the answered requests, and the
  -- length of the file without the torn part.
  pub recover-writer :
      (max : ℕ) (es : List Event) (torn : Bytes) (ops : ℕ → List Operation)
      → All IsClean es
      → IsTorn torn
      → All (Carries ops) (requests_of es)
      → (done : List Request) × ((writer c max (start []) es).acks ≡ acknowledged done)
        × (done ++ waiting (writer c max (start []) es).batch ≡ requests_of es)
        × (recover c (contents ((writer c max (start []) es).file ++ torn))
            ≡ some (ok (operations_of ops done, length (writer c max (start []) es).file)))
  recover-writer max es torn ops clean is_torn carries =
      let (done, d, order) =
        writer-IsDurable max [] [] (start []) es
          (record { saved = refl; answered = refl; small = tt }) clean in
      let (whole, _) =
        All-append_parts (Carries ops) done (waiting (writer c max (start []) es).batch)
          (subst (All (Carries ops)) (sym order) carries) in
      (
        done,
        d.answered,
        order,
        rw d.saved (
            recover-log_bytes c (payloads_of done) (operations_of ops done) torn
              (Decodes-payloads_of ops done whole) is_torn),
      )

-- ===== src/Pipeline/Process.antt =====
-- `_process` of src/mailflow/core/pipeline.py, with its error handlers and the dead letters.
use mailflow.Base.{
  ℕ, zero, suc, ℤ, pos, leb, leb_ℤ, Text, text, show_int, Option, none, some, [], ◌∷◌, ◌++◌,
  if◌then◌else◌,
}
use mailflow.Exec.{
  Exec, Exc, ErrorKind, permanent, auth, transient, unknown, ok, err, pure, modify, handle, ◌>>=◌,
  ◌>>◌,
}
use mailflow.Core.Models.{
  RawMessage, stream_key, CleanEmail, Disposition, EmailEvent, new_email, schema_version,
}
use mailflow.Core.Identity.{idempotency_key, derive_canonical_id}
use mailflow.Core.Report.{DeadLetterRecord, DeadLetter, add_dead_letter}
use mailflow.Base64.{b64encode}
use mailflow.Ports.{DedupeStore, CursorStore}
use mailflow.Pipeline.Components.{Components, PipelineConfig}
use mailflow.Pipeline.World.{World}
use mailflow.Pipeline.Work.{outside, record_decision, new_trace, mark_done, do_work}

-- f"{type(exc).__name__}: {exc}"
unfoldable pub describe : Exc → Text
describe e = e.class_name ++ (text ": " ++ e.message)

-- self.provider.message_size(msg) or msg.size_bytes
abbrev pub size_or : Option ℤ → ℤ → ℤ
size_or none default = default
size_or (some (pos n)) default = elim n [ zero ↦ default | suc m ↦ pos (suc m) ]
size_or (some size) default = size

module _ (C : Components) (D : DedupeStore) (K : CursorStore) (cfg : PipelineConfig) where
  abbrev pub W : Type 0
  W = World C D K

  unfoldable pub stub_email : Text → RawMessage → CleanEmail
  stub_email canonical_id msg =
      let blank =
        new_email canonical_id msg.provider msg.provider_message_id (stream_key msg.stream) in
      record blank { message_size_bytes = msg.size_bytes; schema_version = schema_version }

  unfoldable pub stub_event : Text → RawMessage → EmailEvent
  stub_event canonical_id msg = record {
    schema_version = schema_version;
    tenant = cfg.tenant;
    ordering_key = msg.stream.mailbox;
    idempotency_key = [];
    email = stub_email canonical_id msg;
  }

  unfoldable pub dead_letter_record :
      Text → RawMessage → Text → Text → ℕ → Text → C.Outside → DeadLetterRecord
  dead_letter_record canonical_id msg key reason attempts error_class x = record {
    record_id = key;
    tenant = cfg.tenant;
    provider = msg.provider;
    provider_message_id = msg.provider_message_id;
    mailbox = msg.stream.mailbox;
    folder = msg.stream.folder;
    canonical_id = canonical_id;
    reason = reason;
    error_class = error_class;
    attempts = attempts;
    size_bytes = msg.size_bytes;
    thread_key = msg.thread_key;
    cursor_value = msg.cursor.value;
    cursor_order = msg.cursor.order;
    received_at = msg.received_at;
    dead_lettered_at = C.now x;
    raw_b64 = elim msg.raw_bytes [ [] ↦ [] | b ∷ bs ↦ b64encode (b ∷ bs) ];
    schema_version = schema_version;
  }

  -- self.dlq_emitter.emit(event)
  unfoldable pub quarantine : EmailEvent → Exec W (Unit {0})
  quarantine event w =
      let (r, x) = C.dlq_emitter event w.outside in
      elim r [
        | ok _ ↦ (ok tt, record w { outside = x; quarantined = w.quarantined ++ (event ∷ []) })
        | err e ↦ (err e, record w { outside = x })
      ]

  -- self.dlq_store.put(record), if there is a store.
  unfoldable pub put_record : (C.Outside → DeadLetterRecord) → Exec W (Unit {0})
  put_record make w = elim C.dlq_store [
    | none ↦ (ok tt, w)
    | some put ↦
        let entry = make w.outside in
        let (r, x) = put entry w.outside in
        elim r [
          | ok _ ↦ (ok tt, record w { outside = x; records = w.records ++ (entry ∷ []) })
          | err e ↦ (err e, record w { outside = x })
        ]
  ]

  unfoldable pub count_dead_letter : DeadLetter → W → W
  count_dead_letter d w = record w { report = add_dead_letter d w.report }

  unfoldable pub dead_letter : Text → RawMessage → Text → Text → ℕ → Text → Exec W Disposition
  dead_letter canonical_id msg key reason attempts error_class = do
    quarantine (stub_event canonical_id msg)
    put_record (dead_letter_record canonical_id msg key reason attempts error_class)
    modify (mark_done C D K cfg key)
    modify (
        count_dead_letter (record {
          canonical_id = canonical_id;
          reason = reason;
          provider_message_id = msg.provider_message_id;
        }))
    modify (
        record_decision C D K cfg (
          new_trace C D K cfg canonical_id msg Disposition.dead_lettered (text "dlq") [] reason
            none))
    pure Disposition.dead_lettered

  unfoldable pub release : Text → W → W
  release key w = record w { dedupe = D.release key w.dedupe }

  unfoldable pub retry_or_dead_letter :
      Text → RawMessage → Text → ℕ → Exc → Exec W (Option Disposition)
  retry_or_dead_letter canonical_id msg key attempts e =
      if leb cfg.max_attempts attempts
      then (dead_letter canonical_id msg key (describe e) attempts e.class_name >>= λ d.
          pure (some d))
      else (modify (release key) >> pure none)

  abbrev auth_reason : Exc → Exc → Text
  auth_reason e retry =
      text "auth retry failed after refresh (original: "
      ++ (describe e ++ (text "): " ++ describe retry))

  -- self.auth_refresher.force_refresh(), if there is one; it may raise.
  unfoldable pub refresh : Exec W (Unit {0})
  refresh w = elim C.auth_refresher [ none ↦ (ok tt, w) | some f ↦ outside C D K cfg f w ]

  unfoldable pub handle_auth_error : Text → RawMessage → Text → Exc → Exec W Disposition
  handle_auth_error canonical_id msg key e = refresh >> λ w.
      handle (do_work C D K cfg msg key w)
        λ retry. dead_letter canonical_id msg key (auth_reason e retry) 1 e.class_name

  -- The `except` clauses of `_process`.
  unfoldable pub rescue :
      Text → RawMessage → Text → ℕ → Exc → ErrorKind → Exec W (Option Disposition)
  rescue canonical_id msg key attempts e permanent =
      dead_letter canonical_id msg key (describe e) attempts e.class_name >>= λ d. pure (some d)
  rescue canonical_id msg key attempts e auth =
      handle_auth_error canonical_id msg key e >>= λ d. pure (some d)
  rescue canonical_id msg key attempts e transient =
      retry_or_dead_letter canonical_id msg key attempts e
  rescue canonical_id msg key attempts e unknown =
      retry_or_dead_letter canonical_id msg key attempts e

  -- The `try` statement of `_process`.
  unfoldable pub attempt : Text → RawMessage → Text → ℕ → Exec W (Option Disposition)
  attempt canonical_id msg key attempts w =
      let (r, w') = do_work C D K cfg msg key w in
      elim r [ ok d ↦ (ok (some d), w') | err e ↦ rescue canonical_id msg key attempts e e.kind w' ]

  -- The size guard, and what follows it.
  unfoldable pub guard_size : Text → RawMessage → Text → ℕ → ℤ → Exec W (Option Disposition)
  guard_size canonical_id msg key attempts size =
      if leb_ℤ size (pos 0)
      then (dead_letter canonical_id msg key (text "size unknown (fail-closed): " ++ show_int size)
            attempts (text "SizeUnknownError")
          >>= λ d. pure (some d))
      else if leb_ℤ size cfg.max_message_bytes
      then attempt canonical_id msg key attempts
      else (dead_letter canonical_id msg key
            (text "oversized: "
              ++ (show_int size ++ (text " > " ++ show_int cfg.max_message_bytes)))
            attempts (text "OversizedMessageError")
          >>= λ d. pure (some d))

  -- After a claim that was won.
  unfoldable pub claimed_work : Text → RawMessage → Text → Exec W (Option Disposition)
  claimed_work canonical_id msg key w =
      let (attempts, dedupe) = D.record_attempt key w.dedupe in
      (outside C D K cfg (C.message_size msg) >>= λ reported.
      guard_size canonical_id msg key attempts (size_or reported msg.size_bytes))
        (record w { dedupe = dedupe })

  unfoldable pub message_key : RawMessage → Text
  message_key msg = idempotency_key cfg.tenant msg.stream.mailbox msg.provider_message_id

  unfoldable pub trace_id : RawMessage → Text
  trace_id msg =
      (derive_canonical_id C.sha256_hex msg.provider msg.provider_message_id msg.stream.mailbox
        none).0

  unfoldable pub process : RawMessage → Exec W (Option Disposition)
  process msg w =
      let key = message_key msg in
      let (won, dedupe) = D.try_claim key cfg.claim_lease_seconds w.dedupe in
      let w' : W = record w { dedupe = dedupe } in
      if won then claimed_work (trace_id msg) msg key w' else (
        ok (some Disposition.duplicate),
        record_decision C D K cfg
            (new_trace C D K cfg (trace_id msg) msg Disposition.duplicate (text "dedupe") [] []
              none)
            w',
      )

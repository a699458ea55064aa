-- ===== src/ScannerIpc/Read/Answers.antt =====
-- That the reader answers.
use outscan.Prelude.{
  ℕ, suc, ◌+◌, ◌≤◌, ◌<◌, ◌≡◌, refl, Bool, true, false, some, List, [], ◌∷◌, map, length-map, arith,
  ltb, length, inl, inr, Bool-cases, Option-cases, ◌⊎◌,
}
use outscan.Js.{Value, bytes}
use outscan.ScannerIpc.Read.{
  NextResult, next, done, aborted, timed_out, errored, Reader, fresh, Fed, refused, fed, feed,
  read_loop, Outcome, failed, Turn, next_with_deadline, read_scanner_ipc_frame, ReadFailure,
  invalid_ipc_context, ipc_too_fragmented, ipc_stream_error, snapshot_options,
}

abbrev cancelled_with : ReadFailure → Outcome
cancelled_with code = record { result = failed code; cancelled = true }

pub Fed-cases :
    (f : Fed)
    → ((code : ReadFailure) × (f ≡ refused code))
      ⊎ ((after : Reader) × (rest : List ℕ) × (f ≡ fed after rest))
Fed-cases (refused code) = inl (code, refl)
Fed-cases (fed after rest) = inr (after, rest, refl)

read_loop-answers :
    (maximum : ℕ) (reader : Reader) (count : ℕ) (turns : List NextResult)
    → count ≤ 4096
    → 4096 < count + length turns
    → (outcome : Outcome) × (read_loop maximum reader count turns ≡ some outcome)
unfolding read_loop
read_loop-answers maximum reader count [] few many = ground (arith, few, many)
read_loop-answers maximum reader count (aborted ∷ turns) few many = (_, refl)
read_loop-answers maximum reader count (timed_out ∷ turns) few many = (_, refl)
read_loop-answers maximum reader count (errored ∷ turns) few many = (_, refl)
read_loop-answers maximum reader count (done ∷ turns) few many = (_, refl)
read_loop-answers maximum reader count (next (bytes chunk) ∷ turns) few many =
    elim (Bool-cases (ltb 4096 (suc count))) [
      | inl over ↦ (cancelled_with ipc_too_fragmented, ground (arith, over))
      | inr room ↦ elim (Fed-cases (feed maximum reader chunk)) [
        | inl (code, e) ↦ (cancelled_with code, ground (arith, room, e))
        | inr (after, rest, e) ↦
            let (outcome, later) =
              read_loop-answers maximum after (suc count) turns (ground (arith, room))
                (omega (arith, many)) in
            (outcome, ground (arith, room, e, later))
      ]
    ]
read_loop-answers maximum reader count (next _ ∷ turns) few many =
    elim (Bool-cases (ltb 4096 (suc count))) [
      | inl over ↦ (cancelled_with ipc_too_fragmented, ground (arith, over))
      | inr room ↦ (cancelled_with ipc_stream_error, ground (arith, room))
    ]

-- Whatever the stream does, the reader answers at the latest in turn 4097: it cannot be kept busy
-- by a stream that goes on without end, not even with empty chunks.
pub read-answers :
    (is_abort_signal : Value → Bool) (turns : List Turn) (options : Value) (start : ℕ)
    → 4096 < length turns
    → (outcome : Outcome) × (read_scanner_ipc_frame is_abort_signal (some turns) options start
        ≡ some outcome)
unfolding read_scanner_ipc_frame
read-answers is_abort_signal turns options start many =
    elim (Option-cases (snapshot_options is_abort_signal options)) [
      | inl e ↦
          (record { result = failed invalid_ipc_context; cancelled = false }, ground (arith, e))
      | inr (context, e) ↦
          let seen = map (next_with_deadline (start + context.timeout_ms)) turns in
          let (outcome, answer) =
            read_loop-answers context.max_payload_bytes fresh 0 seen (omega arith) (
              omega (
                arith,
                many,
                length-map (next_with_deadline (start + context.timeout_ms)) turns,
              )) in
          (outcome, ground (arith, e, answer))
    ]

-- ===== src/ScannerIpc/Read.antt =====
-- The incremental reader: apps/api/src/scanner-ipc/read.ts. Each turn of its loop waits for what
-- comes first: a chunk, the end, an error, the abort signal or the deadline; the list of those is an
-- argument, and where it ends before the reader has answered, the reader is still waiting (`none`).
mod Feeding
pub mod Framing
pub mod Answers
mod Taking
pub mod Soundness
use outscan.Prelude.{
  ℕ, suc, ◌+◌, ◌-◌, Bool, true, false, not, ◌&&◌, Option, none, some, List, [], ◌∷◌, ◌++◌, map, min,
  ltb, leb, ◌==◌, if◌then◌else◌, length, take, drop, ◌>>=◌, ◌>>◌, guard, String,
}
use outscan.Js.{Value, number, bytes, Entries, exact_record, get}
use outscan.ScannerIpc.Frame.{
  scanner_ipc_max_payload_bytes, scanner_ipc_max_timeout_ms, scanner_ipc_max_chunks,
  scanner_ipc_header_bytes, positive_up_to, has_scanner_ipc_magic, read_scanner_ipc_payload_length,
}

pub data ReadFailure : Type 0 where
  invalid_ipc_context ipc_aborted ipc_timeout ipc_stream_error ipc_invalid_frame
        ipc_output_too_large ipc_too_fragmented :
      ReadFailure

pub data ScannerIpcReadResult : Type 0 where
  payload : List ℕ → ScannerIpcReadResult
  failed : ReadFailure → ScannerIpcReadResult

-- The answer, with whether `cancelIterator` was called.
pub record Outcome : Type 0 where
  pub result : ScannerIpcReadResult
  pub cancelled : Bool

pub record ReadOptions : Type 0 where
  pub max_payload_bytes : ℕ
  pub timeout_ms : ℕ

abbrev pub option_keys : List String
option_keys = "max_payload_bytes" ∷ "timeout_ms" ∷ "signal" ∷ []

abbrev pub check_options : (Value → Bool) → Entries → Option ReadOptions
check_options is_abort_signal es = do
  max_payload ← positive_up_to scanner_ipc_max_payload_bytes (get "max_payload_bytes" es)
  timeout ← positive_up_to scanner_ipc_max_timeout_ms (get "timeout_ms" es)
  guard (is_abort_signal (get "signal" es))
  some (record { max_payload_bytes = max_payload; timeout_ms = timeout })

-- `is_abort_signal` is `instanceof AbortSignal`.
unfoldable pub snapshot_options : (Value → Bool) → Value → Option ReadOptions
snapshot_options is_abort_signal v = exact_record option_keys v >>= check_options is_abort_signal

pub data NextResult : Type 0 where
  next : Value → NextResult
  done aborted timed_out errored : NextResult

-- A turn of the loop: the signal and the clock when it starts, and what settles first from then on.
pub record Turn : Type 0 where
  pub signal_aborted : Bool
  pub now_unix_ms : ℕ
  pub settled : NextResult

unfoldable pub next_with_deadline : ℕ → Turn → NextResult
next_with_deadline deadline turn =
    if turn.signal_aborted
    then aborted
    else (if leb deadline turn.now_unix_ms then timed_out else turn.settled)

-- The bytes that the buffers hold up to their offsets, and the size of the payload once it is known.
pub record Reader : Type 0 where
  pub header : List ℕ
  pub expected : Option ℕ
  pub received : List ℕ

abbrev pub fresh : Reader
fresh = record { header = []; expected = none; received = [] }

-- What becomes of a part of a chunk: a failure, or the reader with the rest of the chunk.
pub data Fed : Type 0 where
  refused : ReadFailure → Fed
  fed : Reader → List ℕ → Fed

abbrev pub open_length : ℕ → List ℕ → List ℕ → Option ℕ → Fed
open_length maximum header rest none = refused ipc_invalid_frame
open_length maximum header rest (some size) =
    if size == 0
    then refused ipc_invalid_frame
    else (if ltb maximum size
        then refused ipc_output_too_large
        else fed (record { header = header; expected = some size; received = [] }) rest)

-- A header that is complete.
abbrev pub open_payload : ℕ → List ℕ → List ℕ → Fed
open_payload maximum header rest =
    if not (has_scanner_ipc_magic header)
    then refused ipc_invalid_frame
    else open_length maximum header rest (read_scanner_ipc_payload_length header)

unfoldable pub feed_header : ℕ → Reader → List ℕ → Fed
feed_header maximum reader chunk =
    if ltb (length reader.header) scanner_ipc_header_bytes
    then (let count = min (scanner_ipc_header_bytes - length reader.header) (length chunk) in
        let header = reader.header ++ take count chunk in
        if length header == scanner_ipc_header_bytes
        then open_payload maximum header (drop count chunk)
        else fed
            (record { header = header; expected = reader.expected; received = reader.received })
            (drop count chunk))
    else fed reader chunk

abbrev pub feed_expected : Reader → List ℕ → Option ℕ → Fed
feed_expected reader rest none = fed reader rest
feed_expected reader rest (some size) =
    let count = min (size - length reader.received) (length rest) in
    fed
      (record {
        header = reader.header;
        expected = some size;
        received = reader.received ++ take count rest;
      })
      (drop count rest)

abbrev pub feed_payload : Fed → Fed
feed_payload (refused code) = refused code
feed_payload (fed reader []) = fed reader []
feed_payload (fed reader (b ∷ rest)) = feed_expected reader (b ∷ rest) reader.expected

-- Bytes that neither buffer takes are refused.
abbrev pub no_rest : Fed → Fed
no_rest (refused code) = refused code
no_rest (fed reader []) = fed reader []
no_rest (fed reader (b ∷ rest)) = refused ipc_invalid_frame

unfoldable pub feed : ℕ → Reader → List ℕ → Fed
unfolding feed_header
feed maximum reader chunk = no_rest (feed_payload (feed_header maximum reader chunk))

abbrev pub finish : Reader → Option ℕ → ScannerIpcReadResult
finish reader none = failed ipc_invalid_frame
finish reader (some size) =
    if length reader.received == size then payload reader.received else failed ipc_invalid_frame

abbrev pub cancel : ReadFailure → Option Outcome
cancel code = some (record { result = failed code; cancelled = true })

unfoldable pub read_loop : ℕ → Reader → ℕ → List NextResult → Option Outcome
unfolding feed
read_loop maximum reader chunks [] = none
read_loop maximum reader chunks (aborted ∷ turns) = cancel ipc_aborted
read_loop maximum reader chunks (timed_out ∷ turns) = cancel ipc_timeout
read_loop maximum reader chunks (errored ∷ turns) = cancel ipc_stream_error
read_loop maximum reader chunks (done ∷ turns) =
    some (record { result = finish reader reader.expected; cancelled = false })
read_loop maximum reader chunks (next (bytes chunk) ∷ turns) =
    elim (ltb scanner_ipc_max_chunks (suc chunks)) [
      | true ↦ cancel ipc_too_fragmented
      | false ↦ elim (feed maximum reader chunk) [
        | refused code ↦ cancel code
        | fed after rest ↦ read_loop maximum after (suc chunks) turns
      ]
    ]
read_loop maximum reader chunks (next _ ∷ turns) =
    if ltb scanner_ipc_max_chunks (suc chunks)
    then cancel ipc_too_fragmented
    else cancel ipc_stream_error

abbrev rejected : Option Outcome
rejected = some (record { result = failed invalid_ipc_context; cancelled = false })

-- The source is `none` where `getIterator` finds no iterator; `start` is the clock when the reading
-- starts.
unfoldable pub read_scanner_ipc_frame :
    (Value → Bool) → Option (List Turn) → Value → ℕ → Option Outcome
unfolding read_loop snapshot_options
read_scanner_ipc_frame is_abort_signal source options start =
    elim (snapshot_options is_abort_signal options) [
      | none ↦ rejected
      | some context ↦ elim source [
        | none ↦ rejected
        | some turns ↦
            read_loop context.max_payload_bytes fresh 0
              (map (next_with_deadline (start + context.timeout_ms)) turns)
      ]
    ]

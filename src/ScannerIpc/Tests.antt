-- ===== src/ScannerIpc/Tests.antt =====
-- Runs of apps/api/src/scanner-ipc, and the theorems at concrete inputs.
use outscan.Prelude.{
  ℕ, zero, suc, ◌<◌, ◌+◌, ◌≡◌, refl, Bool, true, false, Option, some, List, [], ◌∷◌, ◌++◌, map,
  arith, length,
}
use outscan.Js.{Value, bytes, number, null, object, entry, end, codes, exact_record, get, text_eq}
use outscan.ScannerIpc.Frame.{
  has_scanner_ipc_magic, read_scanner_ipc_payload_length, encode_scanner_ipc_frame, encoded,
  frame_of,
}
use outscan.ScannerIpc.Read.{
  NextResult, next, done, Turn, ReadOptions, snapshot_options, next_with_deadline,
  read_scanner_ipc_frame, Outcome, payload, failed, ipc_aborted, ipc_timeout, ipc_invalid_frame,
  ipc_output_too_large,
}
use outscan.ScannerIpc.Read.Framing.{delivering, read-encode}
use outscan.ScannerIpc.Read.Answers.{read-answers}
use outscan.ScannerIpc.Read.Soundness.{IsFrameOf, read-IsFrameOf}

abbrev any_signal : Value → Bool
any_signal v = true

abbrev options : Value
options = object (
    entry "max_payload_bytes" (number 4)
      (entry "timeout_ms" (number 500) (entry "signal" null end)))

abbrev context : ReadOptions
context = record { max_payload_bytes = 4; timeout_ms = 500 }

options_snapshot : snapshot_options any_signal options ≡ some context
unfolding snapshot_options exact_record get
options_snapshot = refl

abbrev body : List ℕ
body = 1 ∷ 2 ∷ 3 ∷ []

frame_made : encode_scanner_ipc_frame (bytes body) (number 3) ≡ encoded (frame_of body)
unfolding encode_scanner_ipc_frame
frame_made = refl

abbrev chunks : List (List ℕ)
chunks =
    codes "OUTSCAN:"
    ∷ []
    ∷ codes "SCANNER_RESULT:v1"
    ∷ (0 ∷ 0 ∷ 0 ∷ [])
    ∷ (0 ∷ 3 ∷ 1 ∷ 2 ∷ [])
    ∷ (3 ∷ [])
    ∷ []

abbrev in_time : NextResult → Turn
in_time result = record { signal_aborted = false; now_unix_ms = 1100; settled = result }

abbrev turns : List Turn
turns = map in_time (delivering chunks)

turns_arrive : map (next_with_deadline (1000 + 500)) turns ≡ delivering chunks
unfolding next_with_deadline
turns_arrive = refl

abbrev answer : Outcome
answer = record { result = payload body; cancelled = false }

read-encode_example : read_scanner_ipc_frame any_signal (some turns) options 1000 ≡ some answer
read-encode_example =
    read-encode any_signal body (number 3) options (frame_of body) context chunks turns 1000
      frame_made options_snapshot (omega arith) refl (omega arith) turns_arrive

read-IsFrameOf_example :
    (found : List (List ℕ)) × (later : List NextResult) × (map
        (next_with_deadline (1000 + 500))
        turns
      ≡ delivering found ++ later)
    × IsFrameOf 4 body found
read-IsFrameOf_example =
    read-IsFrameOf any_signal turns options 1000 context body false options_snapshot
      read-encode_example

abbrev stops : List Turn → Option Outcome
stops ts = read_scanner_ipc_frame any_signal (some ts) options 1000

failures :
    (stops (in_time (next (bytes (codes "GET / HTTP/1.1                   "))) ∷ [])
      ≡ some (record { result = failed ipc_invalid_frame; cancelled = true }))
    × (stops (map in_time (delivering (frame_of (1 ∷ 2 ∷ 3 ∷ 4 ∷ 5 ∷ []) ∷ [])))
        ≡ some (record { result = failed ipc_output_too_large; cancelled = true }))
    × (stops (map in_time (delivering ((frame_of body ++ 9 ∷ []) ∷ [])))
        ≡ some (record { result = failed ipc_invalid_frame; cancelled = true }))
    × (stops (in_time done ∷ [])
        ≡ some (record { result = failed ipc_invalid_frame; cancelled = false }))
    × (stops (record { signal_aborted = true; now_unix_ms = 1500; settled = done } ∷ [])
        ≡ some (record { result = failed ipc_aborted; cancelled = true }))
    × (stops (record { signal_aborted = false; now_unix_ms = 1500; settled = done } ∷ [])
        ≡ some (record { result = failed ipc_timeout; cancelled = true }))
unfolding read_scanner_ipc_frame snapshot_options exact_record get next_with_deadline
    has_scanner_ipc_magic read_scanner_ipc_payload_length text_eq
failures = (refl, refl, refl, refl, refl, refl)

-- A stream that never ends.
abbrev idle : ℕ → List Turn
idle zero = []
idle (suc n) = in_time (next (bytes [])) ∷ idle n

length-idle : (n : ℕ) → length (idle n) ≡ n
length-idle zero = refl
length-idle (suc n) = omega (arith, length-idle n)

idle_long : 4096 < length (idle 5000)
idle_long = omega (arith, length-idle 5000)

read-answers_example :
    (outcome : Outcome) × (read_scanner_ipc_frame any_signal (some (idle 5000)) options 1000
      ≡ some outcome)
read-answers_example = read-answers any_signal (idle 5000) options 1000 idle_long

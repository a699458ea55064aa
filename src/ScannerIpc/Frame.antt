-- ===== src/ScannerIpc/Frame.antt =====
-- One framed payload: apps/api/src/scanner-ipc/frame.ts, with the limits of model.ts.
use outscan.Prelude.{
  ℕ, ◌+◌, ◌*◌, Bool, false, not, ◌&&◌, ◌||◌, Option, none, some, List, [], ◌∷◌, ◌++◌, ltb, leb,
  ◌==◌, if◌then◌else◌, length, take, drop,
}
use outscan.Js.{Value, number, bytes, codes, text_eq}
use outscan.GuestCrypto.Binary.{be32}

abbrev pub scanner_ipc_max_payload_bytes : ℕ
scanner_ipc_max_payload_bytes = 33554432

abbrev pub scanner_ipc_max_timeout_ms : ℕ
scanner_ipc_max_timeout_ms = 300000

abbrev pub scanner_ipc_max_chunks : ℕ
scanner_ipc_max_chunks = 4096

abbrev pub scanner_ipc_magic : List ℕ
scanner_ipc_magic = codes "OUTSCAN:SCANNER_RESULT:v1" ++ 0 ∷ []

abbrev pub scanner_ipc_header_bytes : ℕ
scanner_ipc_header_bytes = length scanner_ipc_magic + 4

pub data ScannerIpcEncodeResult : Type 0 where
  encoded : List ℕ → ScannerIpcEncodeResult
  invalid_context too_large : ScannerIpcEncodeResult

-- A safe integer from 1 to the limit.
abbrev pub positive_up_to : ℕ → Value → Option ℕ
positive_up_to limit (number n) = if ltb 0 n && leb n limit then some n else none
positive_up_to limit _ = none

abbrev pub valid_limit : Value → Option ℕ
valid_limit value = positive_up_to scanner_ipc_max_payload_bytes value

unfoldable pub has_scanner_ipc_magic : List ℕ → Bool
has_scanner_ipc_magic header =
    if ltb (length header) (length scanner_ipc_magic)
    then false
    else text_eq (take (length scanner_ipc_magic) header) scanner_ipc_magic

-- `readUInt32BE` of the four bytes behind the magic.
abbrev pub read_be32 : List ℕ → Option ℕ
read_be32 (a ∷ b ∷ c ∷ d ∷ []) = some (((a * 256 + b) * 256 + c) * 256 + d)
read_be32 _ = none

unfoldable pub read_scanner_ipc_payload_length : List ℕ → Option ℕ
unfolding has_scanner_ipc_magic
read_scanner_ipc_payload_length header =
    if not (length header == scanner_ipc_header_bytes) || not (has_scanner_ipc_magic header)
    then none
    else read_be32 (drop (length scanner_ipc_magic) header)

abbrev pub frame_of : List ℕ → List ℕ
frame_of payload = scanner_ipc_magic ++ be32 (length payload) ++ payload

abbrev encode_within : List ℕ → Option ℕ → ScannerIpcEncodeResult
encode_within payload none = invalid_context
encode_within payload (some maximum) =
    if length payload == 0 || ltb maximum (length payload)
    then too_large
    else encoded (frame_of payload)

-- The length is below 2 ^ 32, so `u32be` does not throw.
unfoldable pub encode_scanner_ipc_frame : Value → Value → ScannerIpcEncodeResult
encode_scanner_ipc_frame (bytes payload) maximum = encode_within payload (valid_limit maximum)
encode_scanner_ipc_frame _ maximum = invalid_context

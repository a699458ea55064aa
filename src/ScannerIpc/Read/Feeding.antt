-- ===== src/ScannerIpc/Read/Feeding.antt =====
-- What one chunk of a frame does to the reader.
use outscan.Prelude.{
  ℕ, ◌+◌, ◌-◌, ◌≤◌, ◌<◌, ◌≡◌, refl, ap, ◌∙◌, true, none, some, List, [], ◌∷◌, ◌++◌, take-all,
  drop-all, min, arith, length, take, drop, length-append, length-take, append-nil,
}
use outscan.Js.{Value, number, text_eq_refl}
use outscan.GuestCrypto.Binary.{be32}
use outscan.ScannerIpc.Frame.{
  scanner_ipc_magic, has_scanner_ipc_magic, read_scanner_ipc_payload_length, read_be32, valid_limit,
}
use outscan.ScannerIpc.Read.{fed, feed, feed_header, feed_payload, no_rest}

-- The header of a payload's frame.
abbrev pub header_of : List ℕ → List ℕ
header_of body = scanner_ipc_magic ++ be32 (length body)

read_be32-be32 : (n : ℕ) → n < 4294967296 → read_be32 (be32 n) ≡ some n
read_be32-be32 n small = ap some (omega (arith, small))

pub valid_limit-le : (v : Value) {n : ℕ} → valid_limit v ≡ some n → n ≤ 33554432
valid_limit-le (number n) h = ground (arith, h)
valid_limit-le _ h = cc

pub header_accepted :
    (body : List ℕ)
    → length body < 4294967296
    → (has_scanner_ipc_magic (header_of body) ≡ true)
      × (read_scanner_ipc_payload_length (header_of body) ≡ some (length body))
unfolding has_scanner_ipc_magic read_scanner_ipc_payload_length
header_accepted body small =
    let magic = text_eq_refl scanner_ipc_magic in
    (magic, ground (arith, magic, read_be32-be32 (length body) small))

pub feed-short :
    (maximum : ℕ) (part chunk : List ℕ)
    → length part + length chunk < 30
    → feed maximum (record { header = part; expected = none; received = [] }) chunk
      ≡ fed (record { header = part ++ chunk; expected = none; received = [] }) []
unfolding feed feed_header
feed-short maximum part chunk short =
    let count = min (30 - length part) (length chunk) in
    let enough : length chunk ≤ count = omega (arith, short) in
    ground (
      arith,
      short,
      take-all count chunk enough,
      drop-all count chunk enough,
      length-append part chunk,
    )

pub feed-body :
    (maximum size : ℕ) (head got chunk : List ℕ)
    → length head ≡ 30
    → length got + length chunk ≤ size
    → feed maximum (record { header = head; expected = some size; received = got }) chunk
      ≡ fed (record { header = head; expected = some size; received = got ++ chunk }) []
unfolding feed feed_header
feed-body maximum size head got [] full room = ground (arith, full, append-nil got)
feed-body maximum size head got (b ∷ bs) full room =
    let count = min (size - length got) (length (b ∷ bs)) in
    let enough : length (b ∷ bs) ≤ count = omega (arith, room) in
    ground (arith, full, take-all count (b ∷ bs) enough, drop-all count (b ∷ bs) enough)

pub feed_header-opening :
    (maximum : ℕ) (body part chunk : List ℕ)
    → length part < 30
    → part ++ take (30 - length part) chunk ≡ header_of body
    → 0 < length body
    → length body ≤ maximum
    → length body < 4294967296
    → feed_header maximum (record { header = part; expected = none; received = [] }) chunk
      ≡ fed
          (record { header = header_of body; expected = some (length body); received = [] })
          (drop (30 - length part) chunk)
unfolding feed_header
feed_header-opening maximum body part chunk short opens some_bytes fits small =
    let k = 30 - length part in
    let size : length (part ++ take k chunk) ≡ 30 = ap length opens in
    let count : min k (length chunk) ≡ k =
      omega (arith, size, length-append part (take k chunk), length-take k chunk) in
    let (magic, read) = header_accepted body small in
    ground (arith, short, count, opens, size, magic, read, some_bytes, fits)

pub feed_payload-opened :
    (size : ℕ) (head rest : List ℕ)
    → length rest ≤ size
    → no_rest
        (feed_payload (fed (record { header = head; expected = some size; received = [] }) rest))
      ≡ fed (record { header = head; expected = some size; received = rest }) []
feed_payload-opened size head [] room = refl
feed_payload-opened size head (b ∷ bs) room =
    let count = min size (length (b ∷ bs)) in
    let enough : length (b ∷ bs) ≤ count = omega (arith, room) in
    ground (arith, take-all count (b ∷ bs) enough, drop-all count (b ∷ bs) enough)

pub feed-opening :
    (maximum : ℕ) (body part chunk : List ℕ)
    → length part < 30
    → part ++ take (30 - length part) chunk ≡ header_of body
    → 0 < length body
    → length body ≤ maximum
    → length body < 4294967296
    → length (drop (30 - length part) chunk) ≤ length body
    → feed maximum (record { header = part; expected = none; received = [] }) chunk
      ≡ fed
          (record {
            header = header_of body;
            expected = some (length body);
            received = drop (30 - length part) chunk;
          })
          []
unfolding feed
feed-opening maximum body part chunk short opens some_bytes fits small room =
    ap (λ f. no_rest (feed_payload f))
      (feed_header-opening maximum body part chunk short opens some_bytes fits small)
    ∙ feed_payload-opened (length body) (header_of body) (drop (30 - length part) chunk) room

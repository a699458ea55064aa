-- ===== src/ScannerIpc/Read/Taking.antt =====
-- What an accepted chunk leaves in the reader.
use outscan.Prelude.{
  List-cases, ℕ, ◌+◌, ◌-◌, ◌≤◌, ◌<◌, ◌≡◌, sym, ap, ◌∙◌, true, none, some, List, [], ◌∷◌, ◌++◌, min,
  arith, ltb, length, take, drop, length-append, length-take, take-append-drop, append_assoc,
  append-nil, inl, inr, Bool-cases, Option-cases,
}
use outscan.ScannerIpc.Frame.{has_scanner_ipc_magic, read_scanner_ipc_payload_length}
use outscan.ScannerIpc.Read.{
  Reader, refused, fed, feed, feed_header, feed_payload, no_rest, open_payload, open_length,
}
use outscan.ScannerIpc.Read.Answers.{Fed-cases}
use outscan.ScannerIpc.Read.Feeding.{feed-short}

-- The reader that has taken some bytes, of whatever stream.
pub data Got (maximum : ℕ) (part : List ℕ) (reader : Reader) : Type 0 where
  waiting :
      length part < 30
      → reader ≡ record { header = part; expected = none; received = [] }
      → Got maximum part reader
  reading :
      (head got : List ℕ) (size : ℕ)
      → length head ≡ 30
      → has_scanner_ipc_magic head ≡ true
      → read_scanner_ipc_payload_length head ≡ some size
      → 0 < size
      → size ≤ maximum
      → part ≡ head ++ got
      → reader ≡ record { header = head; expected = some size; received = got }
      → Got maximum part reader

drop-nil : {A : Type 0} (n : ℕ) (xs : List A) → drop n xs ≡ [] → take n xs ≡ xs
drop-nil n xs h =
    sym (append-nil (take n xs)) ∙ ap (λ l. take n xs ++ l) (sym h) ∙ take-append-drop n xs

-- A chunk that was accepted was taken as a whole.
feed_payload-takes :
    (head got chunk rest : List ℕ) (size : ℕ) (after : Reader)
    → no_rest
        (feed_payload (fed (record { header = head; expected = some size; received = got }) chunk))
      ≡ fed after rest
    → after ≡ record { header = head; expected = some size; received = got ++ chunk }
feed_payload-takes head got [] rest size after h = ground (arith, h, append-nil got)
feed_payload-takes head got (b ∷ bs) rest size after h =
    let count = min (size - length got) (length (b ∷ bs)) in
    elim (List-cases (drop count (b ∷ bs))) [
      | inl e ↦ ground (arith, h, e, drop-nil count (b ∷ bs) e)
      | inr (c, cs, e) ↦ ground (arith, h, e)
    ]

feed_header-full :
    (maximum : ℕ) (part chunk : List ℕ)
    → length part < 30
    → 30 ≤ length part + length chunk
    → feed_header maximum (record { header = part; expected = none; received = [] }) chunk
      ≡ open_payload maximum (part ++ take (30 - length part) chunk) (drop (30 - length part) chunk)
unfolding feed_header
feed_header-full maximum part chunk short full =
    let k = 30 - length part in
    let count : min k (length chunk) ≡ k = omega (arith, full) in
    let size : length (part ++ take k chunk) ≡ 30 =
      omega (arith, full, short, length-append part (take k chunk), length-take k chunk) in
    ground (arith, short, count, size)

open_payload-fed :
    (maximum : ℕ) (head rest later : List ℕ) (reader : Reader)
    → open_payload maximum head rest ≡ fed reader later
    → (size : ℕ) × (has_scanner_ipc_magic head ≡ true)
      × (read_scanner_ipc_payload_length head ≡ some size)
      × (0 < size)
      × (size ≤ maximum)
      × (fed reader later
          ≡ fed (record { header = head; expected = some size; received = [] }) rest)
open_payload-fed maximum head rest later reader h =
    elim (Option-cases (read_scanner_ipc_payload_length head)) [
      | inl e ↦ ground (arith, h, e)
      | inr (size, e) ↦ elim (Bool-cases (has_scanner_ipc_magic head)) [
        | inr no_magic ↦ ground (arith, h, no_magic)
        | inl magic ↦
            let opened : open_length maximum head rest (some size) ≡ fed reader later =
              ground (arith, h, e, magic) in
            (size, magic, e, ground (arith, opened), ground (arith, opened), ground (arith, opened))
      ]
    ]

feed-Got-full :
    (maximum : ℕ) (part chunk rest : List ℕ) (after : Reader)
    → length part < 30
    → 30 ≤ length part + length chunk
    → feed maximum (record { header = part; expected = none; received = [] }) chunk ≡ fed after rest
    → Got maximum (part ++ chunk) after
unfolding feed
feed-Got-full maximum part chunk rest after short full h =
    let k = 30 - length part in
    let head = part ++ take k chunk in
    let size_head : length head ≡ 30 =
      omega (arith, full, short, length-append part (take k chunk), length-take k chunk) in
    let whole : part ++ chunk ≡ head ++ drop k chunk =
      ap (λ l. part ++ l) (sym (take-append-drop k chunk))
      ∙ sym (append_assoc part (take k chunk) (drop k chunk)) in
    let same = feed_header-full maximum part chunk short full in
    elim (Fed-cases (open_payload maximum head (drop k chunk))) [
      | inl (code, e) ↦
          let stopped : refused code ≡ fed after rest =
            ap (λ f. no_rest (feed_payload f)) (sym (same ∙ e)) ∙ h in
          cc
      | inr (reader, later, e) ↦
          let (size, magic, read, some_bytes, fits, opened) =
            open_payload-fed maximum head (drop k chunk) later reader e in
          let took =
            feed_payload-takes head [] (drop k chunk) rest size after
              (ap (λ f. no_rest (feed_payload f)) (sym (same ∙ e ∙ opened)) ∙ h) in
          reading head (drop k chunk) size size_head magic read some_bytes fits whole took
    ]

pub feed-Got :
    (maximum : ℕ) (part chunk rest : List ℕ) (reader after : Reader)
    → Got maximum part reader
    → feed maximum reader chunk ≡ fed after rest
    → Got maximum (part ++ chunk) after
unfolding feed feed_header
feed-Got maximum part chunk rest reader after (waiting short e) h =
    elim (Bool-cases (ltb (length part + length chunk) 30)) [
      | inl still ↦
          let same = feed-short maximum part chunk (ground (arith, still)) in
          waiting (ground (arith, still, length-append part chunk)) (ground (arith, e, h, same))
      | inr full ↦
          feed-Got-full maximum part chunk rest after short (ground (arith, full)) (rw e at h)
    ]
feed-Got maximum part chunk rest reader after
      (reading head got size full magic length_read some_bytes fits p e) h =
    let same = feed_payload-takes head got chunk rest size after (ground (arith, e, h, full)) in
    reading head (got ++ chunk) size full magic length_read some_bytes fits
      (ap (λ l. l ++ chunk) p ∙ append_assoc head got chunk) same

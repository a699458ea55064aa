-- ===== src/ScannerIpc/Read/Framing.antt =====
-- The reader against the frame.
use outscan.Prelude.{
  ℕ, suc, ◌+◌, ◌-◌, ◌≤◌, ◌<◌, ◌≡◌, refl, sym, ap, ◌∙◌, Bool, false, none, some, List, [], ◌∷◌, ◌++◌,
  append-split, map, arith, ltb, length, take, drop, length-append, length-take, take-append-drop,
  append_assoc, append-nil, inl, inr, Bool-cases, Option-cases,
}
use outscan.Js.{Value, bytes}
use outscan.ScannerIpc.Frame.{frame_of, valid_limit, encode_scanner_ipc_frame, encoded}
use outscan.ScannerIpc.Read.{
  ReadOptions, Turn, snapshot_options, next_with_deadline, read_scanner_ipc_frame, NextResult, next,
  done, Reader, fresh, fed, feed, read_loop, payload,
}
use outscan.ScannerIpc.Read.Feeding.{header_of, valid_limit-le, feed-short, feed-body, feed-opening}

-- The reader that has taken the first bytes of a frame.
data Taken (body part : List ℕ) (reader : Reader) : Type 0 where
  early :
      length part < 30
      → reader ≡ record { header = part; expected = none; received = [] }
      → Taken body part reader
  opened :
      (got : List ℕ)
      → part ≡ header_of body ++ got
      → reader ≡ record { header = header_of body; expected = some (length body); received = got }
      → Taken body part reader

feed-Taken :
    (maximum : ℕ) (body part chunk rest : List ℕ) (reader : Reader)
    → 0 < length body
    → length body ≤ maximum
    → length body < 4294967296
    → part ++ chunk ++ rest ≡ frame_of body
    → Taken body part reader
    → (after : Reader) × (feed maximum reader chunk ≡ fed after [])
      × Taken body (part ++ chunk) after
feed-Taken maximum body part chunk rest reader some_bytes fits small whole (early short e) =
    elim (Bool-cases (ltb (length part + length chunk) 30)) [
      | inl still ↦ (
        record { header = part ++ chunk; expected = none; received = [] },
        rw e (feed-short maximum part chunk (ground (arith, still))),
        early (ground (arith, still, length-append part chunk)) refl,
      )
      | inr full ↦
          let k = 30 - length part in
          let regroup : part ++ chunk ≡ (part ++ take k chunk) ++ drop k chunk =
            ap (λ l. part ++ l) (sym (take-append-drop k chunk))
            ∙ sym (append_assoc part (take k chunk) (drop k chunk)) in
          let line : (part ++ take k chunk) ++ (drop k chunk ++ rest) ≡ header_of body ++ body =
            sym (append_assoc (part ++ take k chunk) (drop k chunk) rest)
            ∙ ap (λ l. l ++ rest) (sym regroup)
            ∙ whole in
          let size : length (part ++ take k chunk) ≡ 30 =
            ground (arith, full, short, length-append part (take k chunk), length-take k chunk) in
          let (opens, tail) =
            append-split (part ++ take k chunk) (header_of body) (drop k chunk ++ rest) body size
              line in
          let room : length (drop k chunk) ≤ length body =
            omega (arith, ap length tail, length-append (drop k chunk) rest) in
          (
            record {
              header = header_of body;
              expected = some (length body);
              received = drop k chunk;
            },
            rw e (feed-opening maximum body part chunk short opens some_bytes fits small room),
            opened (drop k chunk) (regroup ∙ ap (λ l. l ++ drop k chunk) opens) refl,
          )
    ]
feed-Taken maximum body part chunk rest reader some_bytes fits small whole (opened got p e) =
    let (_, tail) =
      append-split (header_of body) (header_of body) (got ++ chunk ++ rest) body refl
        (rw p at whole) in
    let room : length got + length chunk ≤ length body =
      omega (arith, ap length tail, length-append (got ++ chunk) rest, length-append got chunk) in
    (
      record { header = header_of body; expected = some (length body); received = got ++ chunk },
      rw e (feed-body maximum (length body) (header_of body) got chunk refl room),
      opened (got ++ chunk) (rw p (append_assoc (header_of body) got chunk)) refl,
    )

abbrev pub flat : List (List ℕ) → List ℕ
flat [] = []
flat (c ∷ cs) = c ++ flat cs

-- The turns of a stream that delivers the chunks and ends.
abbrev pub delivering : List (List ℕ) → List NextResult
delivering [] = done ∷ []
delivering (c ∷ cs) = next (bytes c) ∷ delivering cs

read_loop-Taken :
    (maximum : ℕ) (body part : List ℕ) (reader : Reader) (count : ℕ) (chunks : List (List ℕ))
    → 0 < length body
    → length body ≤ maximum
    → length body < 4294967296
    → count + length chunks ≤ 4096
    → part ++ flat chunks ≡ frame_of body
    → Taken body part reader
    → read_loop maximum reader count (delivering chunks)
      ≡ some (record { result = payload body; cancelled = false })
unfolding read_loop
read_loop-Taken maximum body part reader count [] some_bytes fits small few whole (early short e) =
    let size : length (frame_of body) ≡ length part =
      ap length (sym (sym (append-nil part) ∙ whole)) in
    ground (arith, short, size)
read_loop-Taken maximum body part reader count [] some_bytes fits small few whole (opened got p e) =
    let (_, same) =
      append-split (header_of body) (header_of body) got body refl
        (sym p ∙ sym (append-nil part) ∙ whole) in
    ground (arith, e, same)
read_loop-Taken maximum body part reader count (c ∷ cs) some_bytes fits small few whole taken =
    let whole_now : part ++ c ++ flat cs ≡ frame_of body = append_assoc part c (flat cs) ∙ whole in
    let (after, ate, taken_now) =
      feed-Taken maximum body part c (flat cs) reader some_bytes fits small whole_now taken in
    let rest =
      read_loop-Taken maximum body (part ++ c) after (suc count) cs some_bytes fits small
        (omega (arith, few)) whole_now taken_now in
    ground (arith, few, ate, rest)

-- A payload that was framed arrives as it was, for every way to cut the frame into chunks: if a
-- payload is encoded under some limit, the limit of the reader is no smaller than its length, and
-- the stream delivers the frame in at most 4096 chunks (empty ones among them) and ends before the
-- deadline and without an abort, the reader answers with that very payload and does not cancel the
-- stream.
pub read-encode :
    (is_abort_signal : Value → Bool) (body : List ℕ) (maximum options : Value) (frame : List ℕ)
    (context : ReadOptions) (chunks : List (List ℕ)) (turns : List Turn) (start : ℕ)
    → encode_scanner_ipc_frame (bytes body) maximum ≡ encoded frame
    → snapshot_options is_abort_signal options ≡ some context
    → length body ≤ context.max_payload_bytes
    → flat chunks ≡ frame
    → length chunks ≤ 4096
    → map (next_with_deadline (start + context.timeout_ms)) turns ≡ delivering chunks
    → read_scanner_ipc_frame is_abort_signal (some turns) options start
      ≡ some (record { result = payload body; cancelled = false })
unfolding read_scanner_ipc_frame encode_scanner_ipc_frame
read-encode is_abort_signal body maximum options frame context chunks turns start e o fits whole few
      arrive =
    elim (Option-cases (valid_limit maximum)) [
      | inl v ↦ ground (arith, e, v)
      | inr (limit, v) ↦
          let below = valid_limit-le maximum v in
          let framed : flat chunks ≡ frame_of body = ground (arith, e, v, whole) in
          let some_bytes : 0 < length body = ground (arith, e, v) in
          let small : length body < 4294967296 = ground (arith, e, v, below) in
          let read =
            read_loop-Taken context.max_payload_bytes body [] fresh 0 chunks some_bytes fits small
              (omega (arith, few)) framed (early (omega arith) refl) in
          ground (arith, o, arrive, read)
    ]

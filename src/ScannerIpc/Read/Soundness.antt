-- ===== src/ScannerIpc/Read/Soundness.antt =====
-- What an answer of the reader says of the stream.
use outscan.Prelude.{
  ℕ, suc, ◌+◌, ◌≤◌, ◌<◌, ◌≡◌, refl, sym, ap, ◌∙◌, Bool, true, some, List, [], ◌∷◌, ◌++◌, map, arith,
  ltb, length, take, drop, take-append-drop, append_assoc, append-nil, inl, inr, Bool-cases,
}
use outscan.Js.{Value, bytes, text_eq_sound}
use outscan.ScannerIpc.Frame.{
  scanner_ipc_magic, has_scanner_ipc_magic, read_scanner_ipc_payload_length, read_be32,
}
use outscan.ScannerIpc.Read.{
  NextResult, next, done, aborted, timed_out, errored, Reader, fresh, feed, read_loop, payload,
  Turn, next_with_deadline, read_scanner_ipc_frame, snapshot_options, ReadOptions,
}
use outscan.ScannerIpc.Read.Answers.{Fed-cases}
use outscan.ScannerIpc.Read.Framing.{flat, delivering}
use outscan.ScannerIpc.Read.Taking.{Got, waiting, reading, feed-Got}

-- What a stream has to deliver for an answer: the magic, four bytes that read as the length of the
-- payload, which is positive and within the limit, and the payload; in at most 4096 chunks, with
-- nothing behind it.
pub record IsFrameOf (maximum : ℕ) (body : List ℕ) (chunks : List (List ℕ)) : Type 0 where
  pub size : List ℕ
  pub whole : flat chunks ≡ scanner_ipc_magic ++ size ++ body
  pub size_read : read_be32 size ≡ some (length body)
  pub not_empty : 0 < length body
  pub fits : length body ≤ maximum
  pub few : length chunks ≤ 4096

-- The end of the reading.
FrameEnd : ℕ → List ℕ → List ℕ → Type 0
FrameEnd maximum whole body =
    (head : List ℕ) × (has_scanner_ipc_magic head ≡ true)
    × (read_scanner_ipc_payload_length head ≡ some (length body))
    × (0 < length body)
    × (length body ≤ maximum)
    × (whole ≡ head ++ body)

read_loop-FrameEnd :
    (maximum : ℕ) (part : List ℕ) (reader : Reader) (count : ℕ) (turns : List NextResult)
    (body : List ℕ) (cancelled : Bool)
    → count ≤ 4096
    → Got maximum part reader
    → read_loop maximum reader count turns
      ≡ some (record { result = payload body; cancelled = cancelled })
    → (chunks : List (List ℕ)) × (later : List NextResult) × (turns ≡ delivering chunks ++ later)
      × (count + length chunks ≤ 4096)
      × FrameEnd maximum (part ++ flat chunks) body
unfolding read_loop FrameEnd
read_loop-FrameEnd maximum part reader count [] body cancelled few got h = cc
read_loop-FrameEnd maximum part reader count (aborted ∷ turns) body cancelled few got h = cc
read_loop-FrameEnd maximum part reader count (timed_out ∷ turns) body cancelled few got h = cc
read_loop-FrameEnd maximum part reader count (errored ∷ turns) body cancelled few got h = cc
read_loop-FrameEnd maximum part reader count (done ∷ turns) body cancelled few (waiting short e) h =
    ground (arith, e, h)
read_loop-FrameEnd maximum part reader count (done ∷ turns) body cancelled few
      (reading head got size full magic read some_bytes fits p e) h =
    let same : got ≡ body = ground (arith, e, h) in
    let sized : length got ≡ size = ground (arith, e, h) in
    let len : size ≡ length body = sym sized ∙ ap length same in
    (
      [],
      turns,
      refl,
      omega (arith, few),
      (
        head,
        magic,
        read ∙ ap some len,
        rw len at some_bytes,
        rw len at fits,
        append-nil part ∙ p ∙ ap (λ l. head ++ l) same,
      ),
    )
read_loop-FrameEnd maximum part reader count (next (bytes chunk) ∷ turns) body cancelled few got h =
    elim (Bool-cases (ltb 4096 (suc count))) [
      | inl over ↦ ground (arith, h, over)
      | inr room ↦ elim (Fed-cases (feed maximum reader chunk)) [
        | inl (code, e) ↦ ground (arith, h, room, e)
        | inr (after, rest, e) ↦
            let (chunks, later, same, within, ends) =
              read_loop-FrameEnd maximum (part ++ chunk) after (suc count) turns body cancelled
                (ground (arith, room)) (feed-Got maximum part chunk rest reader after got e)
                (ground (arith, h, room, e)) in
            (
              chunk ∷ chunks,
              later,
              ap (λ l. next (bytes chunk) ∷ l) same,
              omega (arith, within),
              rw (append_assoc part chunk (flat chunks)) at ends,
            )
      ]
    ]
read_loop-FrameEnd maximum part reader count (next _ ∷ turns) body cancelled few got h =
    ground (arith, h)

FrameEnd-IsFrameOf :
    (maximum : ℕ) (body : List ℕ) (chunks : List (List ℕ))
    → length chunks ≤ 4096
    → FrameEnd maximum (flat chunks) body
    → IsFrameOf maximum body chunks
unfolding FrameEnd has_scanner_ipc_magic read_scanner_ipc_payload_length
FrameEnd-IsFrameOf maximum body chunks few (head, magic, read, some_bytes, fits, whole) =
    let size = drop 26 head in
    let start : take 26 head ≡ scanner_ipc_magic = text_eq_sound _ _ (ground (arith, magic)) in
    record {
      size = size;
      whole =
          whole ∙ ap (λ l. l ++ body) (sym (take-append-drop 26 head) ∙ ap (λ l. l ++ size) start);
      size_read = ground (arith, read);
      not_empty = some_bytes;
      fits = fits;
      few = few;
    }

-- Any payload that the reader answers with was framed: the turns up to the answer delivered at most
-- 4096 chunks and then the end of the stream, in time and without an abort; the chunks join to the
-- magic, four bytes that read as the payload's length, and the payload, with nothing behind it; and
-- the length is positive and within the limit of the options.
pub read-IsFrameOf :
    (is_abort_signal : Value → Bool) (turns : List Turn) (options : Value) (start : ℕ)
    (context : ReadOptions) (body : List ℕ) (cancelled : Bool)
    → snapshot_options is_abort_signal options ≡ some context
    → read_scanner_ipc_frame is_abort_signal (some turns) options start
      ≡ some (record { result = payload body; cancelled = cancelled })
    → (chunks : List (List ℕ)) × (later : List NextResult) × (map
          (next_with_deadline (start + context.timeout_ms))
          turns
        ≡ delivering chunks ++ later)
      × IsFrameOf context.max_payload_bytes body chunks
unfolding read_scanner_ipc_frame
read-IsFrameOf is_abort_signal turns options start context body cancelled o h =
    let (chunks, later, same, few, ends) =
      read_loop-FrameEnd context.max_payload_bytes [] fresh 0
        (map (next_with_deadline (start + context.timeout_ms)) turns) body cancelled (omega arith)
        (waiting (omega arith) refl) (ground (arith, o, h)) in
    (
      chunks,
      later,
      same,
      FrameEnd-IsFrameOf context.max_payload_bytes body chunks (omega (arith, few)) ends,
    )

-- ===== src/Llrp/Frame/Stream.antt =====
-- Messages on a stream: what `ReadMessage` takes from its reader, what `WriteMessage` hands over.
use tagstrak.Common.{
  ℕ, zero, suc, ◌+◌, ◌-◌, ◌≤◌, max, ◌≡◌, ◌≢◌, ◌⊎◌, refl, sym, ap, ◌∙◌, arith, [], ◌∷◌, ◌++◌,
  append_assoc, append-nil, Bytes, length, length-append, length-drop, take, drop, take-append,
  drop-append, take-append-drop, slice, be_uint, Option, none, some, ok, err, inl, inr,
  Result-cases, Bool-cases, ltb, length-take,
}
use tagstrak.Llrp.Error.{Error, Llrp, Limits, normalized}
use tagstrak.Llrp.Frame.{
  Message, Reader, encode_message, decode_message, read_full, read_body, read_rest, read_message,
  Written, wrote, negative, Round, stop, advance, judge, write_loop, write_message,
}

-- A complete frame at the front of the stream is read whole, and what follows it stays.
pub read_message-frame :
    (frame rest : Bytes) (ending : Error) (l : Limits) {m : Message}
    → decode_message frame l ≡ ok m
    → read_message (record { pending = frame ++ rest; ending = ending }) l
      ≡ (ok m, record { pending = rest; ending = ending })
unfolding read_message decode_message
read_message-frame (a ∷ b ∷ c ∷ d ∷ e ∷ f ∷ g ∷ h ∷ i ∷ j ∷ body) rest ending l q = ground (
  arith,
  length-append body rest,
  take-append (be_uint (c ∷ d ∷ e ∷ f ∷ []) - 10) body rest,
  drop-append (be_uint (c ∷ d ∷ e ∷ f ∷ []) - 10) body rest,
)
read_message-frame _ rest ending l q = ground arith

read_body_bounded :
    (header : Bytes) (l : Limits) (r : Reader)
    → length r.pending + 10
      ≤ length (read_body header l r).1.pending + max 10 (normalized l).max_frame_size
unfolding read_body
read_body_bounded header l r =
    ground (arith, length-drop (be_uint (slice 2 6 header) - 10) r.pending)

read_rest_bounded :
    (header : Llrp Bytes) (l : Limits) (r : Reader)
    → length r.pending + 10
      ≤ length (read_rest header l r).1.pending + max 10 (normalized l).max_frame_size
unfolding read_rest
read_rest_bounded (err e) l r = omega arith
read_rest_bounded (ok header) l r = read_body_bounded header l r

read_full_bounded : (n : ℕ) (r : Reader) → length r.pending ≤ length (read_full n r).1.pending + n
unfolding read_full
read_full_bounded n r = ground (arith, length-drop n r.pending)

-- A call takes at most the larger of a header and the frame limit from its reader.
pub read_message_bounded :
    (r : Reader) (l : Limits)
    → length r.pending ≤ length (read_message r l).1.pending + max 10 (normalized l).max_frame_size
unfolding read_message
read_message_bounded r l =
    let (header, r') = read_full 10 r in
    omega (arith, read_full_bounded 10 r, read_rest_bounded header l r')

read_body_ok :
    (header : Bytes) (l : Limits) (r : Reader) {m : Message} {r' : Reader}
    → length header ≡ 10
    → read_body header l r ≡ (ok m, r')
    → (frame : Bytes) × (header ++ r.pending ≡ frame ++ r'.pending)
      × (decode_message frame l ≡ ok m)
unfolding read_body
read_body_ok header l r h e =
    let n = be_uint (slice 2 6 header) - 10 in
    (
      header ++ take n r.pending,
      ground (
        arith,
        take-append-drop n r.pending,
        append_assoc header (take n r.pending) (drop n r.pending),
      ),
      ground arith,
    )

-- A message that is read is the decoding of the bytes that were taken from the reader.
pub read_message_sound :
    (r : Reader) (l : Limits) {m : Message} {r' : Reader}
    → read_message r l ≡ (ok m, r')
    → (frame : Bytes) × (r.pending ≡ frame ++ r'.pending) × (decode_message frame l ≡ ok m)
unfolding read_message read_rest
read_message_sound r l e = elim (Bool-cases (ltb (length r.pending) 10)) [
  | inl short ↦ cc (rw short at e)
  | inr full ↦
      let (frame, taken, decoded) =
        read_body_ok (take 10 r.pending) l (record r { pending = drop 10 r.pending })
          (ground (arith, length-take 10 r.pending)) (rw full at e) in
      (frame, sym (take-append-drop 10 r.pending) ∙ taken, decoded)
]

-- A round that goes on has written between one byte and all of them.
judge_range :
    (size : ℕ) (report : Written) {n : ℕ} → judge size report ≡ advance n → (1 ≤ n) × (n ≤ size)
unfolding judge
judge_range size (negative e) h = cc
judge_range size (wrote n none) h = ground arith
judge_range size (wrote n (some x)) h = ground arith

Round-cases : (r : Round) → ((x : Llrp Unit) × (r ≡ stop x)) ⊎ ((n : ℕ) × (r ≡ advance n))
Round-cases (stop x) = inl (x, refl)
Round-cases (advance n) = inr (n, refl)

module _ {W : Type 0} (write : W → Bytes → Written × W) where
  -- One round, by how it is judged.
  write_loop_stop :
      (fuel b : ℕ) (bs : Bytes) (w : W) {x : Llrp Unit}
      → judge (length (b ∷ bs)) (write w (b ∷ bs)).0 ≡ stop x
      → write_loop write (suc fuel) (b ∷ bs) w ≡ (some x, (write w (b ∷ bs)).1)
  unfolding write_loop
  write_loop_stop fuel b bs w e = ground (arith, e)

  write_loop_advance :
      (fuel b : ℕ) (bs : Bytes) (w : W) {n : ℕ}
      → judge (length (b ∷ bs)) (write w (b ∷ bs)).0 ≡ advance n
      → write_loop write (suc fuel) (b ∷ bs) w
        ≡ write_loop write fuel (drop n (b ∷ bs)) (write w (b ∷ bs)).1
  unfolding write_loop
  write_loop_advance fuel b bs w e = ground (arith, e)

  write_loop-ne-none :
      (fuel : ℕ) (frame : Bytes) (w : W)
      → length frame ≤ fuel
      → (write_loop write fuel frame w).0 ≢ none
  write_loop-ne-none fuel [] w h = unfold write_loop in λ e. cc
  write_loop-ne-none zero (b ∷ bs) w h = absurd (omega arith)
  write_loop-ne-none (suc fuel) (b ∷ bs) w h =
      elim (Round-cases (judge (length (b ∷ bs)) (write w (b ∷ bs)).0)) [
        | inl (x, e) ↦ rw (write_loop_stop fuel b bs w e) (λ p. cc)
        | inr (n, e) ↦ rw (write_loop_advance fuel b bs w e) (
            write_loop-ne-none fuel (drop n (b ∷ bs)) (write w (b ∷ bs)).1 (
              omega (
                arith,
                judge_range (length (b ∷ bs)) (write w (b ∷ bs)).0 e,
                length-drop n (b ∷ bs),
              )))
      ]

  -- `WriteMessage` ends on every message and every writer, whatever the writer reports.
  pub write_message-ne-none :
      (m : Message) (l : Limits) (w : W) → (write_message write m l w).0 ≢ none
  unfolding write_message
  write_message-ne-none m l w = elim (Result-cases (encode_message m l)) [
    | inl (frame, e) ↦
        rw (e, write_message) (write_loop-ne-none (length frame) frame w (omega arith))
    | inr (x, e) ↦ rw (e, write_message) (λ p. cc)
  ]

judge-ne-ok : (size : ℕ) (report : Written) → judge size report ≢ stop (ok tt)
unfolding judge
judge-ne-ok size (negative e) h = cc
judge-ne-ok size (wrote n none) h = ground arith
judge-ne-ok size (wrote n (some x)) h = ground arith

-- What `WriteMessage` relies on of its writer: `sent` is what the writer took so far, and a count
-- that a call reports is that of the bytes which the call took, from the front.
pub record IsHonest {W : Type 0} (write : W → Bytes → Written × W) (sent : W → Bytes) : Type 0 where
  pub counts :
      (w : W) (bs : Bytes) {n : ℕ} {x : Option Error}
      → (write w bs).0 ≡ wrote n x
      → sent (write w bs).1 ≡ sent w ++ take n bs

module _ {W : Type 0} (write : W → Bytes → Written × W) (sent : W → Bytes)
    (honest : IsHonest write sent) where
  judge_wrote :
      (size : ℕ) (report : Written) {n : ℕ} → judge size report ≡ advance n → report ≡ wrote n none
  unfolding judge
  judge_wrote size (negative e) h = cc
  judge_wrote size (wrote n none) h = ground arith
  judge_wrote size (wrote n (some x)) h = ground arith

  write_loop_sent :
      (fuel : ℕ) (frame : Bytes) (w w' : W)
      → write_loop write fuel frame w ≡ (some (ok tt), w')
      → sent w' ≡ sent w ++ frame
  write_loop_sent fuel [] w w' e = unfold write_loop in cc (append-nil (sent w))
  write_loop_sent zero (b ∷ bs) w w' e = unfold write_loop in cc
  write_loop_sent (suc fuel) (b ∷ bs) w w' e =
      let report = (write w (b ∷ bs)).0 in
      let next = (write w (b ∷ bs)).1 in
      elim (Round-cases (judge (length (b ∷ bs)) report)) [
        | inl (x, h) ↦
            absurd (
              judge-ne-ok (length (b ∷ bs)) report (cc (h, e, write_loop_stop write fuel b bs w h)))
        | inr (n, h) ↦
            write_loop_sent fuel (drop n (b ∷ bs)) next w'
              (rw (write_loop_advance write fuel b bs w h) at e)
            ∙ ap (λ t. t ++ drop n (b ∷ bs)) (honest.counts w (b ∷ bs) (judge_wrote _ report h))
            ∙ append_assoc (sent w) (take n (b ∷ bs)) (drop n (b ∷ bs))
            ∙ ap (λ t. sent w ++ t) (take-append-drop n (b ∷ bs))
      ]

  -- Over an honest writer, a `WriteMessage` that succeeds has sent the message's frame, in order and
  -- whole, behind what was sent before, however the writer cut it up.
  pub write_message_sent :
      (m : Message) (l : Limits) (w w' : W)
      → write_message write m l w ≡ (some (ok tt), w')
      → (frame : Bytes) × (encode_message m l ≡ ok frame) × (sent w' ≡ sent w ++ frame)
  unfolding write_message
  write_message_sent m l w w' e = elim (Result-cases (encode_message m l)) [
    | inl (frame, h) ↦
        (frame, h, write_loop_sent (length frame) frame w w' (rw (h, write_message) at e))
    | inr (x, h) ↦ cc (rw (h, write_message) at e)
  ]

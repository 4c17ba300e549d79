-- ===== src/Rpc/Frame/RoundTrip.antt =====
-- What is read of what was written.
use mathlib.Core.List.{append-nil, append_assoc}
use claude_bridge.Base.{
  ℕ, ◌+◌, ◌-◌, ◌%◌, ◌^◌, ◌≡◌, ◌≤◌, ◌<◌, refl, sym, ap, ◌∙◌, inl, inr, true, false, ◌||◌, none, some,
  [], ◌++◌, arith, leb, ltb, nat_eq, length, take, Bool-cases, if◌then◌else◌, length-append,
  length-take_le, take-length_le, take-append, take-append_self, drop-append_self,
}
use claude_bridge.Text.{Str}
use claude_bridge.Rpc.Frame.{
  max_frame_size, eof, unexpected_eof, put_uint32, uint32, short_write, Writer, write, write_bytes,
  write_frame, read_full, read_payload, read_frame,
}

uint32-put_uint32 : (n : ℕ) (s : Str) → n ≤ max_frame_size → uint32 (put_uint32 n ++ s) ≡ n
unfolding uint32 put_uint32
uint32-put_uint32 n s h = omega arith

-- A frame's bytes.
abbrev pub frame : Str → Str
frame payload = put_uint32 (length payload) ++ payload

read_full-append : (n : ℕ) (a b : Str) → length a ≡ n → read_full n (a ++ b) ≡ inr (a, b)
unfolding read_full
read_full-append n a b h =
    let fits : leb n (length (a ++ b)) ≡ true = ground (arith, length-append a b) in
    rw fits (cc (take-append_self a b, drop-append_self a b))

read_full_short :
    (n : ℕ) (s : Str)
    → length s < n
    → read_full n s ≡ inl (if leb (length s) 0 then eof else unexpected_eof)
unfolding read_full
read_full_short n s h = ground arith

-- After a header of a payload's length.
read_frame-header :
    (n : ℕ) (s : Str) → n ≤ max_frame_size → read_frame (put_uint32 n ++ s) ≡ read_full n s
unfolding read_frame
read_frame-header n s h =
    let header = read_full-append 4 (put_uint32 n) s (unfold put_uint32 in refl) in
    let fits : ltb max_frame_size n ≡ false = ground arith in
    let same : uint32 (put_uint32 n) ≡ n =
      ap uint32 (sym (append-nil (put_uint32 n))) ∙ uint32-put_uint32 n [] h in
    rw (header, read_frame) (rw (same, fits, read_payload) refl)

pub read_frame-frame :
    (payload rest : Str)
    → length payload ≤ max_frame_size
    → read_frame (frame payload ++ rest) ≡ inr (payload, rest)
read_frame-frame payload rest h =
    ap read_frame (append_assoc (put_uint32 (length payload)) payload rest)
    ∙ read_frame-header (length payload) (payload ++ rest) h
    ∙ read_full-append (length payload) payload rest refl

length-put_uint32 : (n : ℕ) → length (put_uint32 n) ≡ 4
unfolding put_uint32
length-put_uint32 n = refl

length-frame : (payload : Str) → length (frame payload) ≡ 4 + length payload
unfolding put_uint32
length-frame payload = length-append (put_uint32 (length payload)) payload

take-frame :
    (n : ℕ) (payload : Str)
    → take n (frame payload) ≡ take n (put_uint32 (length payload)) ++ take (n - 4) payload
unfolding put_uint32
take-frame n payload = take-append n (put_uint32 (length payload)) payload

-- The header, where it fits.
take-header : (n m : ℕ) → leb 4 n ≡ true → take n (put_uint32 m) ≡ put_uint32 m
take-header n m h = take-length_le n (put_uint32 m) (ground (arith, length-put_uint32 m))

-- What is written of the bytes of a frame.
write_bytes-take :
    (w : Writer) (payload : Str)
    → length payload ≤ max_frame_size
    → ((write_bytes w payload).0.written ≡ w.written ++ take w.room (frame payload))
      × ((write_bytes w payload).0.room ≡ w.room - length (frame payload))
      × ((write_bytes w payload).1
          ≡ (if leb (length (frame payload)) w.room then none else some short_write))
unfolding write_bytes write
write_bytes-take w payload h =
    let n = length payload in
    let small : n % 2 ^ 32 ≡ n = omega arith in
    let split = take-frame w.room payload in
    let size : length (frame payload) ≡ 4 + n = length-frame payload in
    elim (Bool-cases (leb 4 w.room)) [
      | inl fits ↦
          (let header = take-header w.room n fits in
            rw (small, length-put_uint32 n, fits, header)
              (
                append_assoc w.written (put_uint32 n) (take (w.room - 4) payload)
                    ∙ ap (λ (xs : Str). w.written ++ xs)
                        (sym (split ∙ ap (λ (xs : Str). xs ++ take (w.room - 4) payload) header)),
                omega (arith, size),
                ground (arith, size),
              ))
      | inr short ↦
          (let none_left : w.room - 4 ≡ 0 = ground arith in
            rw (small, length-put_uint32 n, short)
              (
                ap (λ (xs : Str). w.written ++ xs)
                    (sym (append-nil (take w.room (put_uint32 n)))
                      ∙ sym (split ∙ rw none_left refl)),
                omega (arith, size, none_left),
                ground (arith, size),
              ))
    ]

-- A connection that ends within a header.
pub read_frame_short :
    (s : Str) → length s < 4 → read_frame s ≡ inl (if leb (length s) 0 then eof else unexpected_eof)
unfolding read_frame
read_frame_short s h = rw (read_full_short 4 s h, read_frame) refl

-- A connection that ends within a frame is reported as cut short, unless it ends right after the
-- header: that is reported as an orderly end, like a connection that ends before the frame.
pub read_frame_cut :
    (payload : Str) (n : ℕ)
    → length payload ≤ max_frame_size
    → n < length (frame payload)
    → read_frame (take n (frame payload))
      ≡ inl (if nat_eq n 0 || nat_eq n 4 then eof else unexpected_eof)
read_frame_cut payload n h lt =
    let m = length payload in
    let split = take-frame n payload in
    let size : length (frame payload) ≡ 4 + m = length-frame payload in
    let cut = length-take_le n (frame payload) (omega arith) in
    elim (Bool-cases (leb 4 n)) [
      | inl whole ↦
          (let header = take-header n m whole in
            let left = length-take_le (n - 4) payload (omega (arith, size)) in
            ap read_frame (split ∙ ap (λ xs. xs ++ take (n - 4) payload) header)
            ∙ read_frame-header m (take (n - 4) payload) h
            ∙ read_full_short m (take (n - 4) payload) (ground (arith, left))
            ∙ ap inl (ground (arith, left)))
      | inr part ↦
          read_frame_short (take n (frame payload)) (ground (arith, cut))
          ∙ ap inl (ground (arith, cut))
    ]

-- Of a payload within the limit, as much of the frame is written as the connection takes, and the
-- call succeeds exactly if that is the whole frame.
pub write_frame-take :
    (w : Writer) (payload : Str)
    → length payload ≤ max_frame_size
    → ((write_frame w (some payload)).0.written ≡ w.written ++ take w.room (frame payload))
      × ((write_frame w (some payload)).0.room ≡ w.room - length (frame payload))
      × ((write_frame w (some payload)).1
          ≡ (if leb (length (frame payload)) w.room then none else some short_write))
unfolding write_frame
write_frame-take w payload h =
    let fits : ltb max_frame_size (length payload) ≡ false = ground arith in
    rw fits (write_bytes-take w payload h)

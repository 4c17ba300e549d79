-- ===== src/Rpc/Frame.antt =====
-- internal/daemonrpc/frame.go. `json.Marshal` is a parameter.
pub mod RoundTrip
pub mod Stream
pub mod Whole
use claude_bridge.Base.{
  ℕ, ◌+◌, ◌-◌, ◌*◌, ◌/◌, ◌%◌, ◌^◌, min, ◌⊎◌, inl, inr, Bool, Option, none, some, List, [], ◌∷◌,
  ◌++◌, ltb, leb, length, take, drop, if◌then◌else◌,
}
use claude_bridge.Text.{Str}

abbrev pub max_frame_size : ℕ
max_frame_size = 1048576

abbrev pub frame_header_size : ℕ
frame_header_size = 4

pub data FrameError : Type 0 where
  eof unexpected_eof unmarshalable short_write : FrameError
  oversized : ℕ → FrameError

-- binary.BigEndian.PutUint32
unfoldable pub put_uint32 : ℕ → Str
put_uint32 n = n / 16777216 % 256 ∷ n / 65536 % 256 ∷ n / 256 % 256 ∷ n % 256 ∷ []

-- binary.BigEndian.Uint32, of the four bytes of a header.
unfoldable pub uint32 : Str → ℕ
uint32 (a ∷ b ∷ c ∷ d ∷ s) = a * 16777216 + b * 65536 + c * 256 + d
uint32 _ = 0

-- An io.Writer that fails after `room` more bytes.
pub record Writer : Type 0 where
  pub written : Str
  pub room : ℕ

-- w.Write(p)
unfoldable pub write : Writer → Str → Writer × Bool
write w p = (
  record { written = w.written ++ take w.room p; room = w.room - length p },
  leb (length p) w.room,
)

-- The header and the payload, one `Write` each.
unfoldable pub write_bytes : Writer → Str → Writer × Option FrameError
unfolding write
write_bytes w payload =
    let (w1, ok) = write w (put_uint32 (length payload % 2 ^ 32)) in
    let (w2, ok') = write w1 payload in
    if ok then (w2, if ok' then none else some short_write) else (w1, some short_write)

-- The value's JSON is given, where it has one.
unfoldable pub write_frame : Writer → Option Str → Writer × Option FrameError
unfolding write_bytes
write_frame w none = (w, some unmarshalable)
write_frame w (some payload) =
    if ltb max_frame_size (length payload)
    then (w, some (oversized (length payload)))
    else write_bytes w payload

-- io.ReadFull from a connection that ends after `s`: the bytes read, and the rest.
unfoldable pub read_full : ℕ → Str → FrameError ⊎ (Str × Str)
read_full n s =
    if leb n (length s)
    then inr (take n s, drop n s)
    else (if leb (length s) 0 then inl eof else inl unexpected_eof)

read_payload : Str → Str → FrameError ⊎ (Str × Str)
read_payload header s =
    let n = uint32 header in if ltb max_frame_size n then inl (oversized n) else read_full n s

unfoldable pub read_frame : Str → FrameError ⊎ (Str × Str)
unfolding read_payload
read_frame s = elim (read_full frame_header_size s) [ inl e ↦ inl e | inr p ↦ read_payload p.0 p.1 ]

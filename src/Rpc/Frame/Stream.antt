-- ===== src/Rpc/Frame/Stream.antt =====
-- Frames sent one after another over a connection that may break at any byte.
use mathlib.Core.List.{append-nil, append_assoc}
use claude_bridge.Base.{
  ℕ, suc, zero, ◌-◌, ◌≡◌, ◌≤◌, ◌<◌, refl, sym, ap, ◌∙◌, inl, inr, Option, none, some, List, [], ◌∷◌,
  ◌++◌, arith, leb, length, take, Bool-cases, if◌then◌else◌, All, take-append, take-length_le,
  take-append_le,
}
use claude_bridge.Text.{Str}
use claude_bridge.Rpc.Frame.{
  max_frame_size, FrameError, eof, short_write, Writer, write_frame, read_frame,
}
use claude_bridge.Rpc.Frame.RoundTrip.{
  frame, read_frame-frame, read_frame_cut, read_frame_short, write_frame-take,
}

-- Writes payloads until a write fails.
pub write_all : Writer → List Str → Writer × Option FrameError
write_all w [] = (w, none)
write_all w (p ∷ ps) =
    let (w1, failed) = write_frame w (some p) in
    let rest = write_all w1 ps in elim failed [ none ↦ rest | some e ↦ (w1, some e) ]

-- Reads payloads until a read fails, at most as many as the fuel.
pub read_all : ℕ → Str → List Str × Option FrameError
read_all zero s = ([], none)
read_all (suc fuel) s = elim (read_frame s) [
  | inl e ↦ ([], some e)
  | inr p ↦ (let (ps, e) = read_all fuel p.1 in (p.0 ∷ ps, e))
]

frames : List Str → Str
frames [] = []
frames (p ∷ ps) = frame p ++ frames ps

-- How many of the frames stand whole in the first n bytes.
pub whole_frames : ℕ → List Str → ℕ
whole_frames n [] = 0
whole_frames n (p ∷ ps) =
    let rest = whole_frames (n - length (frame p)) ps in
    if leb (length (frame p)) n then suc rest else 0

abbrev pub IsFrameable : Str → Type 0
IsFrameable payload = length payload ≤ max_frame_size

write_all-written :
    (w : Writer) (ps : List Str)
    → All IsFrameable ps
    → (write_all w ps).0.written ≡ w.written ++ take w.room (frames ps)
unfolding write_all frames
write_all-written w [] h =
    sym (rw (take-length_le {A = ℕ} w.room [] (omega arith)) (append-nil w.written))
write_all-written w (p ∷ ps) h =
    let (written, room, failed) = write_frame-take w p h.0 in
    let split = take-append w.room (frame p) (frames ps) in
    elim (Bool-cases (leb (length (frame p)) w.room)) [
      | inl fits ↦
          (let ok : (write_frame w (some p)).1 ≡ none = rw fits at failed in
            let whole = take-length_le w.room (frame p) (ground arith) in
            rw (ok, write_all)
              (write_all-written (write_frame w (some p)).0 ps h.1
                ∙ ap (λ (r : ℕ). (write_frame w (some p)).0.written ++ take r (frames ps)) room
                ∙ ap (λ (xs : Str). xs ++ take (w.room - length (frame p)) (frames ps)) written
                ∙ append_assoc w.written (take w.room (frame p))
                    (take (w.room - length (frame p)) (frames ps))
                ∙ ap (λ (xs : Str). w.written ++ xs) (sym split)))
      | inr short ↦
          (let broken : (write_frame w (some p)).1 ≡ some short_write = rw short at failed in
            rw (broken, write_all)
              (written
                ∙ ap (λ (xs : Str). w.written ++ xs)
                    (sym (take-append_le w.room (frame p) (frames ps) (ground arith)))))
    ]

read_all_fails :
    (fuel : ℕ) (s : Str) (e : FrameError)
    → read_frame s ≡ inl e
    → read_all (suc fuel) s ≡ ([], some e)
unfolding read_all
read_all_fails fuel s e r = rw (r, read_all) refl

read_all_goes_on :
    (fuel : ℕ) (s p rest : Str)
    → read_frame s ≡ inr (p, rest)
    → read_all (suc fuel) s ≡ (p ∷ (read_all fuel rest).0, (read_all fuel rest).1)
unfolding read_all
read_all_goes_on fuel s p rest r = rw (r, read_all) refl

read_all-take :
    (fuel n : ℕ) (ps : List Str)
    → All IsFrameable ps
    → length ps < fuel
    → (read_all fuel (take n (frames ps))).0 ≡ take (whole_frames n ps) ps
unfolding read_all frames whole_frames
read_all-take zero n ps h lt = absurd (omega arith)
read_all-take (suc fuel) n [] h lt =
    ap (λ (r : List Str × Option FrameError). r.0)
      (ap (read_all (suc fuel)) (take-length_le {A = ℕ} n [] (omega arith))
        ∙ read_all_fails fuel [] eof (read_frame_short [] (omega arith)))
read_all-take (suc fuel) n (p ∷ ps) h lt =
    let split = take-append n (frame p) (frames ps) in
    elim (Bool-cases (leb (length (frame p)) n)) [
      | inl fits ↦
          (let rest = take (n - length (frame p)) (frames ps) in
            let bytes =
              split ∙ ap (λ (xs : Str). xs ++ rest) (take-length_le n (frame p) (ground arith)) in
            rw (fits, ap read_frame bytes ∙ read_frame-frame p rest h.0, read_all)
              (ap (◌∷◌ p) (read_all-take fuel (n - length (frame p)) ps h.1 (omega arith))))
      | inr short ↦
          (let bytes = take-append_le n (frame p) (frames ps) (ground arith) in
            rw (short, ap read_frame bytes ∙ read_frame_cut p n h.0 (ground arith), read_all) refl)
    ]

-- Payloads within the limit are written one after another over a connection that breaks after `n`
-- bytes. The other side then reads exactly those payloads, in order, whose frames the connection took
-- whole.
pub read_all-write_all :
    (n : ℕ) (ps : List Str)
    → All IsFrameable ps
    → (read_all (suc (length ps)) (write_all (record { written = []; room = n }) ps).0.written).0
      ≡ take (whole_frames n ps) ps
read_all-write_all n ps h =
    ap (λ s. (read_all (suc (length ps)) s).0)
      (write_all-written (record { written = []; room = n }) ps h)
    ∙ read_all-take (suc (length ps)) n ps h (omega arith)

-- ===== src/Text/Words.antt =====
-- `strings.Fields`, `strings.Join` and `strings.ToLower`, for ASCII text: a byte from 128 up is no
-- space and has no lower case here.
use mathlib.Core.List.{append-nil, append_assoc, map-append}
use claude_bridge.Base.{
  ℕ, ◌+◌, ◌≡◌, ◌≢◌, refl, sym, ap, ◌∙◌, inl, inr, Bool, false, ◌&&◌, ◌||◌, List, [], ◌∷◌, ◌++◌, map,
  arith, leb, nat_eq, if◌then◌else◌, Bool-cases, All, All-append,
}
use claude_bridge.Text.{Str}

-- '\t', '\n', '\v', '\f', '\r' and ' '.
unfoldable pub is_space : ℕ → Bool
is_space c = leb 9 c && leb c 13 || nat_eq c 32

abbrev flush : Str → List Str → List Str
flush [] ws = ws
flush (c ∷ cs) ws = (c ∷ cs) ∷ ws

-- The words of a text whose first word has begun with `word`.
unfoldable pub fields_from : Str → Str → List Str
unfolding is_space
fields_from word [] = flush word []
fields_from word (c ∷ s) =
    let next = fields_from [] s in
    let longer = fields_from (word ++ c ∷ []) s in if is_space c then flush word next else longer

abbrev pub fields : Str → List Str
fields s = fields_from [] s

-- strings.Join(ws, " ")
unfoldable pub join : List Str → Str
join [] = []
join (w ∷ []) = w
join (w ∷ v ∷ ws) = w ++ 32 ∷ join (v ∷ ws)

unfoldable pub lower : ℕ → ℕ
lower c = if leb b'A' c && leb c b'Z' then c + 32 else c

abbrev pub to_lower : Str → Str
to_lower s = map lower s

abbrev IsSolid : Str → Type 0
IsSolid w = All (λ c. is_space c ≡ false) w

abbrev IsWord : Str → Type 0
IsWord w = IsSolid w × (w ≢ [])

is_space-lower : (c : ℕ) → is_space (lower c) ≡ is_space c
unfolding is_space lower
is_space-lower c = ground arith

lower_idem : (c : ℕ) → lower (lower c) ≡ lower c
unfolding lower
lower_idem c = ground arith

to_lower_idem : (s : Str) → to_lower (to_lower s) ≡ to_lower s
to_lower_idem [] = refl
to_lower_idem (c ∷ s) = cc (lower_idem c, to_lower_idem s)

to_lower_words_idem : (ws : List Str) → map to_lower (map to_lower ws) ≡ map to_lower ws
to_lower_words_idem [] = refl
to_lower_words_idem (w ∷ ws) = cc (to_lower_idem w, to_lower_words_idem ws)

flush-words : (w : Str) (ws : List Str) → IsSolid w → All IsWord ws → All IsWord (flush w ws)
flush-words [] ws h k = k
flush-words (c ∷ w) ws h k = ((h, λ e. cc), k)

fields_from-words : (w s : Str) → IsSolid w → All IsWord (fields_from w s)
unfolding fields_from
fields_from-words w [] h = flush-words w [] h tt
fields_from-words w (c ∷ s) h = elim (Bool-cases (is_space c)) [
  | inl e ↦ rw e (flush-words w _ h (fields_from-words [] s tt))
  | inr e ↦ rw e (
      fields_from-words (w ++ c ∷ []) s (All-append (λ x. is_space x ≡ false) w (c ∷ []) h (e, tt)))
]

flush-lower :
    (w : Str) (ws : List Str) → map to_lower (flush w ws) ≡ flush (to_lower w) (map to_lower ws)
flush-lower [] ws = refl
flush-lower (c ∷ w) ws = refl

fields_from-lower :
    (w s : Str) → fields_from (to_lower w) (to_lower s) ≡ map to_lower (fields_from w s)
unfolding fields_from
fields_from-lower w [] = sym (flush-lower w [])
fields_from-lower w (c ∷ s) = elim (Bool-cases (is_space c)) [
  | inl e ↦
      rw (is_space-lower c, e)
        (rw (fields_from-lower [] s) (sym (flush-lower w (fields_from [] s))))
  | inr e ↦
      rw (is_space-lower c, e)
        (rw (← map-append lower w (c ∷ [])) (fields_from-lower (w ++ c ∷ []) s))
]

-- A run of other bytes is read into the word that has begun.
fields_from-run :
    (w v rest : Str) → IsSolid v → fields_from w (v ++ rest) ≡ fields_from (w ++ v) rest
unfolding fields_from
fields_from-run w [] rest h = rw append-nil
fields_from-run w (c ∷ v) rest h = rw (h.0) (
    fields_from-run (w ++ c ∷ []) v rest h.1
    ∙ ap (λ x. fields_from x rest) (append_assoc w (c ∷ []) v))

flush-word : (w : Str) (ws : List Str) → w ≢ [] → flush w ws ≡ w ∷ ws
flush-word [] ws h = absurd (h refl)
flush-word (c ∷ w) ws h = refl

fields-join : (ws : List Str) → All IsWord ws → fields (join ws) ≡ ws
unfolding join fields_from
fields-join [] h = refl
fields-join (w ∷ []) h =
    ap fields (sym (append-nil w)) ∙ fields_from-run [] w [] h.0.0 ∙ flush-word w [] h.0.1
fields-join (w ∷ v ∷ ws) h =
    fields_from-run [] w (32 ∷ join (v ∷ ws)) h.0.0
    ∙ flush-word w (fields (join (v ∷ ws))) h.0.1
    ∙ ap (λ (x : List Str). w ∷ x) (fields-join (v ∷ ws) h.1)

pub to_lower-join : (ws : List Str) → to_lower (join ws) ≡ join (map to_lower ws)
unfolding join lower
to_lower-join [] = refl
to_lower-join (w ∷ []) = refl
to_lower-join (w ∷ v ∷ ws) =
    map-append lower w _ ∙ ap (λ (x : Str). to_lower w ++ 32 ∷ x) (to_lower-join (v ∷ ws))

pub fields-IsWord : (s : Str) → All IsWord (fields s)
fields-IsWord s = fields_from-words [] s tt

-- The words of a text in lower case, joined and split again, are those words.
pub fields-lower_join : (s : Str) → fields (to_lower (join (fields s))) ≡ map to_lower (fields s)
fields-lower_join s =
    fields_from-lower [] (join (fields s))
    ∙ ap (map to_lower) (fields-join (fields s) (fields-IsWord s))

-- One more pass changes nothing.
pub lower_join-fields_idem :
    (s : Str) → to_lower (join (fields (to_lower (join (fields s))))) ≡ to_lower (join (fields s))
lower_join-fields_idem s =
    ap (λ ws. to_lower (join ws)) (fields-lower_join s)
    ∙ to_lower-join (map to_lower (fields s))
    ∙ ap join (to_lower_words_idem (fields s))
    ∙ sym (to_lower-join (fields s))

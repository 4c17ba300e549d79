-- ===== src/Broker/Managed.antt =====
-- The relation between the map of pushers and the pushers at work, and what changes of both keep it.
use claude_bridge.Base.{
  ℕ, ◌≡◌, sym, ap, ◌∙◌, inl, inr, Bool, true, false, none, some, List, [], ◌∷◌, ◌++◌, arith, length,
  get_elem?, Bool-cases, subst,
}
use claude_bridge.Text.{Str, ◌==◌, eq_iff}
use claude_bridge.Dict.{
  Dict, lookup, insert, delete, lookup-insert, lookup-insert_self, lookup-delete-some,
  lookup-delete_self, lookup-delete_ne, lookup-insert_ne, lookup-insert-some,
}
use claude_bridge.Broker.Pusher.{Pusher, stop_push}
use claude_bridge.Broker.State.{update}
use claude_bridge.Broker.Liveness.{
  is_live, lives, set, lives-stop, lives-append, length-lives, length-update, get_elem?-set,
  get_elem?-set_ne, get_elem?-append_some, get_elem?-append_last, get_elem?-append_inv,
  get_elem?-lt,
}

-- The pushers of the map are live, no two sessions share one, and no other pusher is live.
pub record IsManaged (pushers : Dict ℕ) (ls : List Bool) : Type 0 where
  pub live : (id : Str) (a : ℕ) → lookup id pushers ≡ some a → get_elem? ls a ≡ some true
  pub apart : (id j : Str) (a : ℕ) → lookup id pushers ≡ some a → lookup j pushers ≡ some a → id ≡ j
  pub known : (a : ℕ) → get_elem? ls a ≡ some true → (id : Str) × (lookup id pushers ≡ some a)

-- A session's pusher is told to stop and leaves the map.
pub delete-IsManaged :
    (ps : Dict ℕ) (ls : List Bool) (id : Str) (a : ℕ)
    → lookup id ps ≡ some a
    → IsManaged ps ls
    → IsManaged (delete id ps) (set ls a false)
delete-IsManaged ps ls id a e m = record {
  live = λ j b f.
      let (ne, f') = lookup-delete-some id j ps f in
      get_elem?-set_ne ls a b false (λ p. ne (m.apart id j a e (f' ∙ ap some (sym p))))
      ∙ m.live j b f';
  apart =
      λ i j b f g. m.apart i j b (lookup-delete-some id i ps f).1 (lookup-delete-some id j ps g).1;
  known = λ b f.
      let (ne, f') = get_elem?-set ls a b f in
      let (j, g) = m.known b f' in
      (
        j,
        lookup-delete_ne id j ps
              (λ p. ne (let q : some a ≡ some b = sym e ∙ ap (λ i. lookup i ps) p ∙ g in cc))
            ∙ g,
      );
}

-- A new pusher comes into the map for a session that has none.
insert-IsManaged :
    (ps : Dict ℕ) (ls : List Bool) (id : Str)
    → lookup id ps ≡ none
    → IsManaged ps ls
    → IsManaged (insert id (length ls) ps) (ls ++ true ∷ [])
insert-IsManaged ps ls id n m = record {
  live = λ j b f. elim (lookup-insert-some id j (length ls) ps f) [
    | inl (e, v) ↦
        subst (λ i. get_elem? (ls ++ true ∷ []) i ≡ some true) v (get_elem?-append_last ls true)
    | inr (ne, f') ↦ get_elem?-append_some ls true b (m.live j b f')
  ];
  apart = λ i j b f g. elim (lookup-insert-some id i (length ls) ps f) [
    | inl (e, v) ↦ elim (lookup-insert-some id j (length ls) ps g) [
      | inl (e', v') ↦ sym e ∙ e'
      | inr (ne, g') ↦ absurd (omega (arith, get_elem?-lt ls b (m.live j b g'), v))
    ]
    | inr (ne, f') ↦ elim (lookup-insert-some id j (length ls) ps g) [
      | inl (e', v') ↦ absurd (omega (arith, get_elem?-lt ls b (m.live i b f'), v'))
      | inr (ne', g') ↦ m.apart i j b f' g'
    ]
  ];
  known = λ b f. elim (get_elem?-append_inv ls true b f) [
    | inl f' ↦
        (let (j, g) = m.known b f' in
          (
            j,
            lookup-insert_ne id j (length ls) ps
                  (λ p. ground (arith, g, n, ap (λ i. lookup i ps) p))
                ∙ g,
          ))
    | inr e ↦ (id, lookup-insert_self id (length ls) ps ∙ ap some (sym e))
  ];
}

IsManaged-ext :
    (ps qs : Dict ℕ) (ls : List Bool)
    → ((j : Str) → lookup j ps ≡ lookup j qs)
    → IsManaged ps ls
    → IsManaged qs ls
IsManaged-ext ps qs ls e m = record {
  live = λ j a f. m.live j a (e j ∙ f);
  apart = λ i j a f g. m.apart i j a (e i ∙ f) (e j ∙ g);
  known = λ a f. let (j, g) = m.known a f in (j, sym (e j) ∙ g);
}

replace_entry :
    (id j : Str) (a : ℕ) (ps : Dict ℕ)
    → lookup j (insert id a (delete id ps)) ≡ lookup j (insert id a ps)
replace_entry id j a ps = elim (Bool-cases (id == j)) [
  | inl e ↦ rw (lookup-insert id j a (delete id ps), lookup-insert id j a ps) (rw e)
  | inr e ↦
      rw (lookup-insert id j a (delete id ps), lookup-insert id j a ps)
        (rw e (lookup-delete_ne id j ps (λ p. ground (arith, eq_iff id j))))
]

-- A live pusher at the end of the heap comes into the map.
pub push-IsManaged :
    (ps : Dict ℕ) (heap : List Pusher) (id : Str) (p : Pusher)
    → is_live p ≡ true
    → lookup id ps ≡ none
    → IsManaged ps (lives heap)
    → IsManaged (insert id (length heap) ps) (lives (heap ++ p ∷ []))
push-IsManaged ps heap id p l n m =
    rw (lives-append heap p, l, ← length-lives heap) (insert-IsManaged ps (lives heap) id n m)

-- The new pusher takes the place of the old one.
pub replace-IsManaged :
    (ps : Dict ℕ) (heap : List Pusher) (id : Str) (a : ℕ) (p : Pusher)
    → is_live p ≡ true
    → lookup id ps ≡ some a
    → IsManaged ps (lives heap)
    → IsManaged (insert id (length heap) ps) (lives (update a stop_push heap ++ p ∷ []))
replace-IsManaged ps heap id a p l e m =
    let stopped : IsManaged (delete id ps) (lives (update a stop_push heap)) =
      rw (lives-stop a heap) (delete-IsManaged ps (lives heap) id a e m) in
    let pushed =
      push-IsManaged (delete id ps) (update a stop_push heap) id p l (lookup-delete_self id ps)
        stopped in
    subst (λ n. IsManaged (insert id n ps) (lives (update a stop_push heap ++ p ∷ [])))
      (length-update a stop_push heap) (IsManaged-ext _ _ _ (λ j. replace_entry id j _ ps) pushed)

-- ===== src/Broker/Soundness.antt =====
-- Sound sessions: bounded inboxes, and token buckets in range. What the run loop's helpers keep.
pub mod Lifecycle
use mathlib.Core.Option
use claude_bridge.Base.{
  ℕ, ◌≤◌, ◌<◌, ◌≡◌, refl, sym, subst, ◌∙◌, inl, inr, List, [], ◌∷◌, arith, length, drop,
  length-append, length-drop, Option-cases,
}
use claude_bridge.Text.{Str}
use claude_bridge.Dict.{
  Dict, lookup, insert, modify, keys_at, IsUnique, insert-IsUnique, modify-IsUnique,
}
use claude_bridge.Dict.Each.{Each, Each-insert, Each-modify}
use claude_bridge.Broker.Config.{Resolved, IsPositive}
use claude_bridge.Broker.Message.{Message, Event}
use claude_bridge.Broker.Bucket.{TokenBucket, new_bucket, refilled, take}
use claude_bridge.Broker.Livelock.{
  pair_key, extend_chain, current_chain, normalize_body, LivelockTracker, trip,
}
use claude_bridge.Broker.State.{
  SessEntry, State, append_inbox, enqueue_message, drop_pusher, deliver,
}
use claude_bridge.Broker.Reaping.{unexpired, expire_entry, expire_messages}

-- The bucket has the configured limits and holds no more than its burst.
pub record IsWithin (cfg : Resolved) (tb : TokenBucket) : Type 0 where
  pub burst : tb.burst ≡ cfg.broadcast_burst
  pub refill : tb.refill ≡ cfg.broadcast_refill
  pub tokens : tb.tokens ≤ cfg.broadcast_burst

pub record IsSound (cfg : Resolved) (e : SessEntry) : Type 0 where
  pub inbox : length e.inbox ≤ cfg.max_inbox_size
  pub bucket : IsWithin cfg e.bucket

pub record IsSoundState (cfg : Resolved) (st : State) : Type 0 where
  pub same : st.cfg ≡ cfg
  pub unique : IsUnique st.sessions
  pub entries : Each (IsSound cfg) st.sessions
  pub pairs : IsUnique st.livelock.pairs

pub new_bucket-IsWithin : (cfg : Resolved) (now : ℕ) → IsWithin cfg (new_bucket cfg now)
unfolding new_bucket
new_bucket-IsWithin cfg now = omega arith

pub take-IsWithin :
    (cfg : Resolved) (tb : TokenBucket) (now : ℕ) → IsWithin cfg tb → IsWithin cfg (take tb now).0
unfolding take refilled
take-IsWithin cfg tb now h = ground arith

enqueue-IsSound :
    (cfg : Resolved) (m : Message) (e : SessEntry)
    → 0 < cfg.max_inbox_size
    → IsSound cfg e
    → IsSound cfg (enqueue_message cfg m e)
unfolding enqueue_message append_inbox
enqueue-IsSound cfg m e p h = record {
  inbox = ground (
    arith,
    length-append (drop 1 e.inbox) (m ∷ []),
    length-append e.inbox (m ∷ []),
    length-drop 1 e.inbox,
  );
  bucket = h.bucket;
}

length-unexpired : (now : ℕ) (inbox : List Message) → length (unexpired now inbox) ≤ length inbox
unfolding unexpired
length-unexpired now [] = omega arith
length-unexpired now (m ∷ inbox) = ground (arith, length-unexpired now inbox)

expire-IsSound :
    (cfg : Resolved) (now : ℕ) (e : SessEntry) → IsSound cfg e → IsSound cfg (expire_entry now e)
unfolding expire_entry
expire-IsSound cfg now e h = record {
  inbox = omega (arith, length-unexpired now e.inbox, h.inbox);
  bucket = h.bucket;
}

pub lookup-expire :
    (now : ℕ) (id : Str) (entries : Dict SessEntry)
    → lookup id (expire_messages now entries) ≡ Option.map (expire_entry now) (lookup id entries)
unfolding lookup expire_messages
lookup-expire now id [] = refl
lookup-expire now id ((j, e) ∷ entries) = ground (arith, lookup-expire now id entries)

keys_at-expire :
    (now : ℕ) (id : Str) (entries : Dict SessEntry)
    → keys_at id (expire_messages now entries) ≡ keys_at id entries
unfolding keys_at expire_messages
keys_at-expire now id [] = refl
keys_at-expire now id ((j, e) ∷ entries) = cc (keys_at-expire now id entries)

pub expire-IsUnique :
    (now : ℕ) (entries : Dict SessEntry) → IsUnique entries → IsUnique (expire_messages now entries)
unfolding expire_messages
expire-IsUnique now [] u = tt
expire-IsUnique now ((j, e) ∷ entries) u =
    (keys_at-expire now j entries ∙ u.0, expire-IsUnique now entries u.1)

pub expire-Each :
    (cfg : Resolved) (now : ℕ) (entries : Dict SessEntry)
    → Each (IsSound cfg) entries
    → Each (IsSound cfg) (expire_messages now entries)
expire-Each cfg now entries h id x e = elim (Option-cases (lookup id entries)) [
  | inl n ↦ absurd (ground (arith, lookup-expire now id entries, n))
  | inr (v, s) ↦
      (let q : expire_entry now v ≡ x = ground (arith, lookup-expire now id entries, s) in
        subst (IsSound cfg) q (expire-IsSound cfg now v (h id v s)))
]

pub trip-IsUnique :
    (t : LivelockTracker) (m : Message) (now : ℕ)
    → IsUnique t.pairs
    → IsUnique (trip t m now).0.pairs
unfolding trip
trip-IsUnique t m now u = ground (
  arith,
  insert-IsUnique (pair_key m.from m.to)
      (extend_chain (current_chain (lookup (pair_key m.from m.to) t.pairs) now t.reset_idle)
        (normalize_body m.content) now)
      t.pairs u,
)

module _ (cfg : Resolved) (positive : IsPositive cfg) where
  abbrev pub Sound : State → Type 0
  Sound st = IsSoundState cfg st

  -- The map is changed, the rest of the record is not.
  pub modify-Sound :
      (st : State) (id : Str) (f : SessEntry → SessEntry)
      → ((e : SessEntry) → IsSound cfg e → IsSound cfg (f e))
      → Sound st
      → Sound (record st { sessions = modify id f st.sessions })
  modify-Sound st id f keep h = record {
    same = h.same;
    unique = modify-IsUnique id f st.sessions h.unique;
    entries = Each-modify (IsSound cfg) id f st.sessions keep h.entries;
    pairs = h.pairs;
  }

  pub insert-Sound :
      (st : State) (id : Str) (e : SessEntry)
      → IsSound cfg e
      → Sound st
      → Sound (record st { sessions = insert id e st.sessions })
  insert-Sound st id e sound h = record {
    same = h.same;
    unique = insert-IsUnique id e st.sessions h.unique;
    entries = Each-insert (IsSound cfg) id e st.sessions sound h.entries;
    pairs = h.pairs;
  }

  pub enqueue-Sound :
      (m : Message) (id : Str) (st : State)
      → Sound st
      → Sound (record st { sessions = modify id (enqueue_message st.cfg m) st.sessions })
  enqueue-Sound m id st h =
      modify-Sound st id (enqueue_message st.cfg m)
        (λ e s.
          subst (λ c. IsSound cfg (enqueue_message c m e)) (sym h.same)
            (enqueue-IsSound cfg m e positive.max_inbox_size s))
        h

  pub deliver-Sound : (st : State) (id : Str) (ev : Event) → Sound st → Sound (deliver st id ev)
  unfolding deliver
  deliver-Sound st id ev h = elim (Option-cases (lookup id st.pushers)) [
    | inl e ↦ rw (e, deliver) h
    | inr (a, e) ↦
        rw (e, deliver)
          (record { same = h.same; unique = h.unique; entries = h.entries; pairs = h.pairs })
  ]

  pub drop_pusher-Sound : (st : State) (id : Str) → Sound st → Sound (drop_pusher st id)
  unfolding drop_pusher
  drop_pusher-Sound st id h = elim (Option-cases (lookup id st.pushers)) [
    | inl e ↦ rw (e, drop_pusher) h
    | inr (a, e) ↦
        rw (e, drop_pusher)
          (record { same = h.same; unique = h.unique; entries = h.entries; pairs = h.pairs })
  ]

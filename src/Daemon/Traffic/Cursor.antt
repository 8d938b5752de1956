-- ===== src/Daemon/Traffic/Cursor.antt =====
-- The cursors of the traffic sampler of daemon/traffic.go.
use em_xray.Daemon.Traffic.{
  StatCounter, add_counter, add_counters, delta_of, Agg, add_delta, stored_traffic, TagIndex,
  cursor_key, Sample, agg_of, lookup, tag_key, last_of, poll, Stored,
}
use mathlib.Core.Path.{subst}
use em_xray.Prelude.{
  ℕ, List, [], ◌∷◌, String, some, none, false, Bool, Option, Dict, All, get, ◌≡◌, AllValues, str_eq,
  put, refl, Option-cases, ◌∙◌, get-put, sym, ap, arith, eq_iff, inl, inr, AllValues-put,
  AllValues-get, if_elim, Bool-cases, ◌==◌, ◌&&◌,
}

-- The counters have different cursors, as xray's counters have different names.
abbrev pub AreDistinct : List StatCounter → Type 0
AreDistinct [] = Unit
AreDistinct (c ∷ cs) =
    All (λ (d : StatCounter). str_eq (cursor_key d) (cursor_key c) ≡ false) cs × AreDistinct cs

-- The cursor of a counter is at its value.
abbrev pub IsRead : Dict ℕ → StatCounter → Type 0
IsRead last c = get last (cursor_key c) ≡ some c.bytes

last-add_counter :
    (idx : TagIndex) (c : StatCounter) (st : Sample)
    → (add_counter idx c st).last ≡ put st.last (cursor_key c) c.bytes
unfolding add_counter
last-add_counter idx c st = elim (Option-cases (lookup idx c.kind c.tag)) [
  | inl e ↦ rw (e, add_counter) refl
  | inr (n, e) ↦ rw (e, add_counter) refl
]

get-add_counters :
    (idx : TagIndex) (cs : List StatCounter) (st : Sample) (k : String)
    → All (λ (d : StatCounter). str_eq (cursor_key d) k ≡ false) cs
    → get (add_counters idx cs st).last k ≡ get st.last k
unfolding add_counters
get-add_counters idx [] st k h = refl
get-add_counters idx (c ∷ cs) st k h =
    get-add_counters idx cs (add_counter idx c st) k h.1
    ∙ ap (λ d. get d k) (last-add_counter idx c st)
    ∙ get-put st.last (cursor_key c) k c.bytes
    ∙ (let apart = h.0 in ground arith)

add_counters-IsRead :
    (idx : TagIndex) (cs : List StatCounter) (st : Sample)
    → AreDistinct cs
    → All (IsRead (add_counters idx cs st).last) cs
unfolding add_counters
add_counters-IsRead idx [] st h = tt
add_counters-IsRead idx (c ∷ cs) st h = (
  get-add_counters idx cs (add_counter idx c st) (cursor_key c) h.0
      ∙ ap (λ d. get d (cursor_key c)) (last-add_counter idx c st)
      ∙ get-put st.last (cursor_key c) (cursor_key c) c.bytes
      ∙ (let same = eq_iff (cursor_key c) (cursor_key c) in ground arith),
  add_counters-IsRead idx cs (add_counter idx c st) h.1,
)

last_of-IsRead :
    (last : Dict ℕ) (c : StatCounter) → IsRead last c → last_of last (cursor_key c) ≡ c.bytes
unfolding last_of
last_of-IsRead last c h = ap (λ (o : Option ℕ). elim o [ some n ↦ n | none ↦ 0 ]) h

delta-IsRead : (last : Dict ℕ) (c : StatCounter) → IsRead last c → delta_of last c ≡ 0
unfolding delta_of
delta-IsRead last c h = (let was = last_of-IsRead last c h in ground (arith, was))

abbrev IsIdle : Agg → Type 0
IsIdle a = (a.up ≡ 0) × (a.down ≡ 0)

IsIdle-found :
    (by_tag : Dict Agg) (key name : String)
    → AllValues IsIdle by_tag
    → IsIdle (agg_of by_tag key name)
unfolding agg_of
IsIdle-found by_tag key name ha = elim (Option-cases (get by_tag key)) [
  | inl e ↦ rw (e, agg_of) (refl, refl)
  | inr (a, e) ↦ rw (e, agg_of) (AllValues-get IsIdle by_tag key ha e)
]

IsIdle-agg :
    (down : Bool) (by_tag : Dict Agg) (key name : String)
    → AllValues IsIdle by_tag
    → IsIdle (add_delta down 0 (agg_of by_tag key name))
unfolding add_delta
IsIdle-agg down by_tag key name ha =
    let found : IsIdle (agg_of by_tag key name) = IsIdle-found by_tag key name ha in
    if_elim IsIdle down (λ d. (found.0, omega (arith, found.1)))
      (λ d. (omega (arith, found.0), found.1))

All-IsRead-put :
    (last : Dict ℕ) (c : StatCounter) (ds : List StatCounter)
    → IsRead last c
    → All (IsRead last) ds
    → All (IsRead (put last (cursor_key c) c.bytes)) ds
All-IsRead-put last c [] h hs = tt
All-IsRead-put last c (d ∷ ds) h hs = (
  get-put last (cursor_key c) (cursor_key d) c.bytes
      ∙ (elim (Bool-cases (str_eq (cursor_key c) (cursor_key d))) [
        | inl e ↦ rw e (sym h ∙ ap (get last) ((eq_iff (cursor_key c) (cursor_key d)).0 e) ∙ hs.0)
        | inr e ↦ rw e hs.0
      ]),
  All-IsRead-put last c ds h hs.1,
)

IsIdle-counter :
    (idx : TagIndex) (c : StatCounter) (st : Sample)
    → IsRead st.last c
    → AllValues IsIdle st.by_tag
    → AllValues IsIdle (add_counter idx c st).by_tag
unfolding add_counter
IsIdle-counter idx c st h ha = elim (Option-cases (lookup idx c.kind c.tag)) [
  | inl e ↦ rw (e, add_counter) ha
  | inr (n, e) ↦
      rw (e, add_counter, delta-IsRead st.last c h)
        (AllValues-put IsIdle st.by_tag (tag_key c) _ (IsIdle-agg c.down st.by_tag (tag_key c) n ha)
          ha)
]

IsIdle-poll :
    (idx : TagIndex) (cs : List StatCounter) (st : Sample)
    → All (IsRead st.last) cs
    → AllValues IsIdle st.by_tag
    → AllValues IsIdle (add_counters idx cs st).by_tag
unfolding add_counters
IsIdle-poll idx [] st hs ha = ha
IsIdle-poll idx (c ∷ cs) st hs ha =
    IsIdle-poll idx cs (add_counter idx c st)
      (subst (λ (d : Dict ℕ). All (IsRead d) cs) (sym (last-add_counter idx c st))
        (All-IsRead-put st.last c cs hs.0 hs.1))
      (IsIdle-counter idx c st hs.0 ha)

stored-IsIdle : (by_tag : Dict Agg) → AllValues IsIdle by_tag → stored_traffic by_tag ≡ []
unfolding stored_traffic
stored-IsIdle [] h = refl
stored-IsIdle ((k, a) ∷ by_tag) h =
    let rest = stored-IsIdle by_tag h.1 in
    let up = h.0.0 in
    let down = h.0.1 in
    if_elim (λ (out : List Stored). out ≡ []) (a.up == 0 && a.down == 0) (λ yes. rest)
      (λ n. absurd (ground (arith, n, up, down)))

-- No byte is counted twice: a poll that reads the same counters again stores nothing. The counters of a
-- poll have different cursors.
pub poll_twice :
    (idx : TagIndex) (cs : List StatCounter) (last : Dict ℕ)
    → AreDistinct cs
    → (poll idx cs (poll idx cs last).0).1 ≡ []
unfolding poll
poll_twice idx cs last h =
    let first : Sample = add_counters idx cs (record { last = last; by_tag = [] }) in
    stored-IsIdle _ (
      IsIdle-poll idx cs (record { last = first.last; by_tag = [] })
        (add_counters-IsRead idx cs (record { last = last; by_tag = [] }) h) tt)

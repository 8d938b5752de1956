-- ===== src/Xray/Config/Tunnels.antt =====
-- What the outbound of a master does in the config of Generate of core/xray/config.go.
use em_xray.Xray.Config.Members.{Mem-sort}
use em_xray.Xray.Config.Masters.{slot_parts-Has, contains-tags_of}
use em_xray.Xray.Config.{
  entry_outbounds, generate, Outbound, Slot, Body, Config, outbound_tag, drops, slot_index_by_name,
  entry_body, dials, tags_of, block_tag, assemble, dialer_tag, onto_some, is_master,
  fixed_outbounds, inbound_rules, iface_outbounds, slot_parts, check_master_outbound, Rule,
  api_rule, listener_tags, api_tag, slot_in_tags,
}
use em_xray.Xray.Dialer.{XrayEntry}
use em_xray.Xray.Ports.{Inbound}
use em_xray.Prelude.{
  String, Option, Bool, List, Dict, ℕ, ◌≡◌, some, true, ◌⊎◌, sort, leb, ◌∷◌, contains, [], str_le,
  Option-cases, inl, arith, inr, false, ap, Bool-cases, is_some, ◌++◌, none, get, refl,
}
use mathlib.Core.List.{Memᴰ}
use mathlib.Core.List.Memᴰ
use mathlib.Core.Path.{subst}

module _ (protocol_of : String → Option String) (object_of : String → Option (Option String))
    (builds : Inbound → Bool) where
  -- The outbound of e drops, or dials through an outbound of the config: `block`, or its own hop.
  abbrev pub Tunnels : XrayEntry → List Outbound → Type 0
  Tunnels e outs =
      (b : Body) × Memᴰ (record { tag = outbound_tag e.name; body = b }) outs
      × ((b ≡ drops)
          ⊎ ((t : String) × (b ≡ dials e.outbound (some t))
              × (contains (tags_of outs) t ≡ true)
              × ((t ≡ block_tag) ⊎ (t ≡ dialer_tag e.name))))

  abbrev pub outbound_of : Dict ℕ → XrayEntry → Outbound
  outbound_of d e = record {
    tag = outbound_tag e.name;
    body = entry_body protocol_of object_of builds d e;
  }

  pub onto_some-some :
      (x : Outbound) (r : Option (List Outbound)) (outs : List Outbound)
      → onto_some x r ≡ some outs
      → (os : List Outbound) × (r ≡ some os) × (x ∷ os ≡ outs)
  onto_some-some x none outs h = absurd (ground (arith, h))
  onto_some-some x (some os) outs h = (os, refl, ground (arith, h))

  -- The outbounds of one entry more.
  pub entry_outbounds-cons :
      (d : Dict ℕ) (x : XrayEntry) (es : List XrayEntry) (outs : List Outbound)
      → entry_outbounds protocol_of object_of builds d (x ∷ es) ≡ some outs
      → ((x.enabled ≡ false) × (entry_outbounds protocol_of object_of builds d es ≡ some outs))
        ⊎ ((os : List Outbound) × (entry_outbounds protocol_of object_of builds d es ≡ some os)
            × (outbound_of d x ∷ os ≡ outs))
  unfolding entry_outbounds
  entry_outbounds-cons d x es outs h = elim (Bool-cases x.enabled) [
    | inr q ↦ inl (q, ground (arith, h, q))
    | inl q ↦ elim (Bool-cases (is_some (object_of x.outbound))) [
      | inl p ↦ inr (
          onto_some-some (outbound_of d x) (entry_outbounds protocol_of object_of builds d es) outs
            (ground (arith, h, q, p)))
      | inr p ↦ absurd (ground (arith, h, q, p))
    ]
  ]

  entry_outbounds-Mem :
      (d : Dict ℕ) (es : List XrayEntry) (outs : List Outbound) (e : XrayEntry)
      → entry_outbounds protocol_of object_of builds d es ≡ some outs
      → Memᴰ e es
      → e.enabled ≡ true
      → Memᴰ (outbound_of d e) outs
  entry_outbounds-Mem d [] outs e h m on = elim m [ ]
  entry_outbounds-Mem d (x ∷ es) outs e h (Memᴰ.head same) on =
      elim (entry_outbounds-cons d x es outs h) [
        | inl (off, rest) ↦ absurd (ground (arith, off, on, ap (λ (y : XrayEntry). y.enabled) same))
        | inr (os, rest, eq) ↦
            subst (Memᴰ (outbound_of d e)) eq (Memᴰ.head (ap (outbound_of d) same))
      ]
  entry_outbounds-Mem d (x ∷ es) outs e h (Memᴰ.tail m) on =
      elim (entry_outbounds-cons d x es outs h) [
        | inl (off, rest) ↦ entry_outbounds-Mem d es outs e rest m on
        | inr (os, rest, eq) ↦
            subst (Memᴰ (outbound_of d e)) eq (Memᴰ.tail (entry_outbounds-Mem d es os e rest m on))
      ]

  -- What the body of a master can be.
  entry_body-IsGuarded :
      (d : Dict ℕ) (e : XrayEntry)
      → is_master e ≡ true
      → (entry_body protocol_of object_of builds d e ≡ drops)
        ⊎ (entry_body protocol_of object_of builds d e ≡ dials e.outbound (some block_tag))
        ⊎ ((entry_body protocol_of object_of builds d e
              ≡ dials e.outbound (some (dialer_tag e.name)))
            × (is_some (get d e.name) ≡ true))
  unfolding entry_body
  entry_body-IsGuarded d e master =
      elim (Bool-cases (check_master_outbound (protocol_of e.outbound))) [
        | inr q ↦ inl (ground (arith, q, master))
        | inl q ↦ elim (Bool-cases (is_some (get d e.name))) [
          | inl p ↦ inr (inr (ground (arith, q, p, master), p))
          | inr p ↦ inr (inl (ground (arith, q, p, master)))
        ]
      ]

  abbrev pub config_outbounds : List Outbound → List Inbound → List Slot → List Outbound
  config_outbounds outs ins slots =
      fixed_outbounds
      ++ (outs
          ++ (iface_outbounds ins ("direct" ∷ block_tag ∷ tags_of outs)
              ++ (slot_parts protocol_of object_of builds slots).0))

  -- The tags that a rule of an inbound can name.
  abbrev pub known_tags : List Outbound → List Inbound → List String
  known_tags outs ins =
      let have = "direct" ∷ block_tag ∷ tags_of outs in have ++ tags_of (iface_outbounds ins have)

  abbrev pub config_of : List Outbound → List Inbound → List Slot → List Rule → Config
  config_of outs ins slots rules = record {
    listeners = listener_tags ins ++ (api_tag ∷ slot_in_tags slots);
    outbounds = config_outbounds outs ins slots;
    rules = api_rule ∷ (rules ++ (slot_parts protocol_of object_of builds slots).2);
    balancers = (slot_parts protocol_of object_of builds slots).1;
  }

  pub assemble-parts :
      (outs : List Outbound) (ins : List Inbound) (slots : List Slot) (cfg : Config)
      → assemble protocol_of object_of builds outs ins slots ≡ some cfg
      → (rules : List Rule) × (inbound_rules protocol_of object_of builds (known_tags outs ins) ins
          ≡ some rules)
        × (config_of outs ins slots rules ≡ cfg)
  unfolding assemble
  assemble-parts outs ins slots cfg h =
      elim (Option-cases (inbound_rules protocol_of object_of builds (known_tags outs ins) ins)) [
        | inl q ↦ absurd (ground (arith, h, q))
        | inr (rules, q) ↦ (rules, q, ground (arith, h, q))
      ]

  -- An enabled master never has an outbound that leaves by itself.
  entry-Tunnels :
      (outs : List Outbound) (ins : List Inbound) (slots : List Slot) (es : List XrayEntry)
      (e : XrayEntry)
      → entry_outbounds protocol_of object_of builds (slot_index_by_name slots []) es ≡ some outs
      → Memᴰ e es
      → e.enabled ≡ true
      → is_master e ≡ true
      → Tunnels e (config_outbounds outs ins slots)
  unfolding tags_of contains get
  entry-Tunnels outs ins slots es e h m on master =
      let d = slot_index_by_name slots [] in
      let ifaces = iface_outbounds ins ("direct" ∷ block_tag ∷ tags_of outs) in
      let parts = (slot_parts protocol_of object_of builds slots).0 in
      let there = entry_outbounds-Mem d es outs e h m on in
      (
        entry_body protocol_of object_of builds d e,
        Memᴰ.tail (Memᴰ.tail (Memᴰ.append_left (ifaces ++ parts) there)),
        elim (entry_body-IsGuarded d e master) [
          | inl q ↦ inl q
          | inr (inl q) ↦ inr (block_tag, q, refl, inl refl)
          | inr (inr (q, p)) ↦ inr (
            dialer_tag e.name,
            q,
            (let hop = slot_parts-Has protocol_of object_of builds slots [] e.name p in
                let e1 = contains-tags_of outs (ifaces ++ parts) (dialer_tag e.name) in
                let e2 = contains-tags_of ifaces parts (dialer_tag e.name) in
                ground (arith, hop, e1, e2)),
            inr refl,
          )
        ],
      )

  -- The parts of a config that was generated.
  pub generate-parts :
      (entries : List XrayEntry) (inbounds : List Inbound) (slots : List Slot) (cfg : Config)
      → generate protocol_of object_of builds entries inbounds slots ≡ some cfg
      → (outs : List Outbound) × (entry_outbounds protocol_of object_of builds
            (slot_index_by_name (sort (λ (a : Slot) (b : Slot). leb a.index b.index) slots) [])
            (sort (λ (a : XrayEntry) (b : XrayEntry). str_le a.name b.name) entries)
          ≡ some outs)
        × (assemble protocol_of object_of builds outs
              (sort (λ (a : Inbound) (b : Inbound). str_le a.name b.name) inbounds)
              (sort (λ (a : Slot) (b : Slot). leb a.index b.index) slots)
            ≡ some cfg)
  unfolding generate
  generate-parts entries inbounds slots cfg h =
      let ents = sort (λ (a : XrayEntry) (b : XrayEntry). str_le a.name b.name) entries in
      let sl = sort (λ (a : Slot) (b : Slot). leb a.index b.index) slots in
      elim (Option-cases
        (entry_outbounds protocol_of object_of builds (slot_index_by_name sl []) ents)) [
          | inl q ↦ absurd (ground (arith, h, q))
          | inr (outs, q) ↦ (outs, q, ground (arith, h, q))
        ]

  -- In a config that is generated, an enabled master has an outbound that drops, or that dials through
  -- an outbound of the config, which is `block` or the hop of the master.
  pub generate-Tunnels :
      (entries : List XrayEntry) (inbounds : List Inbound) (slots : List Slot) (cfg : Config)
      (e : XrayEntry)
      → generate protocol_of object_of builds entries inbounds slots ≡ some cfg
      → Memᴰ e entries
      → e.enabled ≡ true
      → is_master e ≡ true
      → Tunnels e cfg.outbounds
  generate-Tunnels entries inbounds slots cfg e h m on master =
      let le = λ (a : XrayEntry) (b : XrayEntry). str_le a.name b.name in
      let ins = sort (λ (a : Inbound) (b : Inbound). str_le a.name b.name) inbounds in
      let sl = sort (λ (a : Slot) (b : Slot). leb a.index b.index) slots in
      let (outs, some_outs, some_cfg) = generate-parts entries inbounds slots cfg h in
      let (rules, _, same) = assemble-parts outs ins sl cfg some_cfg in
      subst (λ (c : Config). Tunnels e c.outbounds) same
        (entry-Tunnels outs ins sl (sort le entries) e some_outs (Mem-sort le e entries m) on
          master)

-- ===== src/Xray/Config/Closed.antt =====
-- The whole config of Generate of core/xray/config.go: every reference in it is to a part of it.
use em_xray.Xray.Config.Balancers.{NamesOnly}
use em_xray.Xray.Config.Slots.{IsSafe, bal_tags, Leads}
use em_xray.Xray.Config.{Config, Outbound, Rule, block_tag, drops, tags_of}
use em_xray.Xray.Ports.{Inbound}
use em_xray.Prelude.{String, Option, Bool, List, take, ◌≡◌, All, ◌∷◌, []}

module _ (protocol_of : String → Option String) (object_of : String → Option (Option String))
    (builds : Inbound → Bool) where
  -- The default of xray, its first outbound, drops; rules and balancers name only what is in the
  -- config, and so does a dialerProxy that is not in the stored JSON; every member of a slot tunnels.
  abbrev pub IsClosed : Config → Type 0
  IsClosed cfg =
      (take 1 cfg.outbounds ≡ record { tag = block_tag; body = drops } ∷ [])
      × All (λ (o : Outbound). IsSafe protocol_of object_of (tags_of cfg.outbounds) o.body)
          cfg.outbounds
      × All (NamesOnly (tags_of cfg.outbounds)) cfg.balancers
      × All (Leads cfg.listeners (tags_of cfg.outbounds) (bal_tags cfg.balancers)) cfg.rules

  module _ (ls tags bals : List String) where
    abbrev Safe : Outbound → Type 0
    Safe o = IsSafe protocol_of object_of tags o.body

    abbrev Sent : Rule → Type 0
    Sent r = Leads ls tags bals r

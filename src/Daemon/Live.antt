-- ===== src/Daemon/Live.antt =====
-- Live config application: planLive, diffTagged, dependentsFirst and applyLiveLocked of
-- daemon/xray_live.go, on configs that are parsed already (parseLiveConfig reads JSON by Go's
-- library). The text that says why a restart is needed is left out.
pub mod Order
pub mod Diff
pub mod Plan
pub mod Process
pub mod Masters
pub mod NoLeak
pub mod Converge
use em_xray.Prelude.{
  String, Bool, true, false, ◌&&◌, ◌||◌, not, List, [], ◌∷◌, ◌++◌, Dict, length, if◌then◌else◌,
  str_eq, sort, filter, Option, ◌+◌, get, str_le, put, contains, ◌==◌, is_some, some, holds, none,
}

-- liveConfig
pub record LiveConfig : Type 0 where
  pub fixed : String
  pub inbounds : Dict String
  pub outbounds : Dict String
  pub dialer_of : Dict String
  pub creds : Dict (Dict Bool)
  pub first_out : String
  pub routing : String

-- livePlan
pub record LivePlan : Type 0 where
  pub restart : Bool
  pub rm_out : List String
  pub add_out : List String
  pub rm_in : List String
  pub add_in : List String
  pub routing : Bool
  pub dialer_of : Dict String

abbrev no_plan : LivePlan
no_plan = record {
  restart = false;
  rm_out = [];
  add_out = [];
  rm_in = [];
  add_in = [];
  routing = false;
  dialer_of = [];
}

-- livePlan.empty
unfoldable pub is_empty : LivePlan → Bool
is_empty p =
    not p.restart
    && not p.routing
    && length p.rm_out + length p.add_out + length p.rm_in + length p.add_in == 0

-- m[k] of a map to texts: "" where there is no entry
unfoldable pub text_at : Dict String → String → String
text_at d k = elim (get d k) [ some s ↦ s | none ↦ "" ]

-- want.creds[tag][c]
unfoldable pub accepts : Dict (Dict Bool) → String → String → Bool
accepts creds tag c = elim (get creds tag) [ some cs ↦ holds cs c | none ↦ false ]

-- The loops over the old credentials: whether the new config revokes one.
unfoldable pub any_revoked : Dict (Dict Bool) → String → Dict Bool → Bool
any_revoked want tag [] = false
any_revoked want tag ((c, b) ∷ cs) = not (accepts want tag c) || any_revoked want tag cs

unfoldable pub revokes : Dict (Dict Bool) → Dict (Dict Bool) → Bool
revokes want [] = false
revokes want ((tag, cs) ∷ old) = any_revoked want tag cs || revokes want old

-- diffTagged: w, ok := want[tag]; !ok || w != o
unfoldable pub differs : Dict String → String → String → Bool
differs other tag o = elim (get other tag) [ some w ↦ not (str_eq w o) | none ↦ true ]

unfoldable pub diff_keys : Dict String → Dict String → List String
diff_keys other [] = []
diff_keys other ((tag, o) ∷ objects) =
    let rest = diff_keys other objects in if differs other tag o then tag ∷ rest else rest

unfoldable pub diff_tagged : Dict String → Dict String → List String × List String
diff_tagged old want = (sort str_le (diff_keys want old), sort str_le (diff_keys old want))

-- p.dialerOf: the old dialers, and over them the new ones that are not ""
unfoldable pub merge_dialers : Dict String → Dict String → Dict String
merge_dialers old [] = old
merge_dialers old ((tag, d) ∷ want) =
    merge_dialers (if str_eq d "" then old else put old tag d) want

-- The loop that takes a master down when its dialer is replaced or removed: its tags.
unfoldable pub moved_masters : List String → Dict String → Dict String → List String
moved_masters gone old_outbounds [] = []
moved_masters gone old_outbounds ((tag, d) ∷ want) =
    let rest = moved_masters gone old_outbounds want in
    if str_eq d "" || (not (contains gone d) || contains gone tag)
    then rest
    else if is_some (get old_outbounds tag)
    then tag ∷ rest
    else rest

-- The changes that no API call can make, and a revoked credential.
unfoldable pub needs_restart : LiveConfig → LiveConfig → Bool
needs_restart old want =
    not (str_eq old.fixed want.fixed)
    || not (str_eq old.first_out want.first_out)
    || revokes want.creds old.creds

-- The masters that go with their dialers.
abbrev pub moved_of : LiveConfig → LiveConfig → List String
moved_of old want =
    moved_masters (diff_tagged old.outbounds want.outbounds).0 old.outbounds want.dialer_of

-- The plan where none is needed.
unfoldable pub live_plan : LiveConfig → LiveConfig → LivePlan
live_plan old want =
    let (rm, add) = diff_tagged old.outbounds want.outbounds in
    let (rm_in, add_in) = diff_tagged old.inbounds want.inbounds in
    record {
      restart = false;
      rm_out = sort str_le (rm ++ moved_of old want);
      add_out = sort str_le (add ++ moved_of old want);
      rm_in = rm_in;
      add_in = add_in;
      routing = not (str_eq old.routing want.routing);
      dialer_of = merge_dialers old.dialer_of want.dialer_of;
    }

-- planLive
unfoldable pub plan_live : LiveConfig → LiveConfig → LivePlan
plan_live old want =
    if needs_restart old want then record no_plan { restart = true } else live_plan old want

-- p.dialerOf[tag] != ""
unfoldable pub is_dependent : LivePlan → String → Bool
is_dependent p tag = not (str_eq (text_at p.dialer_of tag) "")

-- dependentsFirst
unfoldable pub dependents_first : LivePlan → List String → List String
dependents_first p = sort (λ a b. is_dependent p a || not (is_dependent p b))

-- reversed
unfoldable pub reversed : List String → List String
reversed [] = []
reversed (x ∷ xs) = reversed xs ++ (x ∷ [])

-- intersect, minus
abbrev pub intersect : List String → List String → List String
intersect xs set = filter (contains set) xs

abbrev pub minus : List String → List String → List String
minus xs set = filter (λ x. not (contains set x)) xs

-- The calls of `xray api`. An ado call has one outbound, with its object of the new config.
pub data ApiCall : Type 0 where
  rmo : List String → ApiCall
  ado : String → Option String → ApiCall
  rmi : List String → ApiCall
  adi : List String → ApiCall
  adrules : String → ApiCall

-- A call that is made only if it has something to do.
abbrev pub unless_none : (List String → ApiCall) → List String → List ApiCall
unless_none call [] = []
unless_none call (x ∷ xs) = call (x ∷ xs) ∷ []

abbrev pub add_calls : Dict String → List String → List ApiCall
add_calls outbounds [] = []
add_calls outbounds (tag ∷ tags) = ado tag (get outbounds tag) ∷ add_calls outbounds tags

-- applyLiveLocked: the calls in their order; the first that fails ends the sequence
unfoldable pub live_calls : LivePlan → LiveConfig → List ApiCall
live_calls p want =
    unless_none rmo (dependents_first p (intersect p.rm_out p.add_out))
    ++ (add_calls want.outbounds (reversed (dependents_first p p.add_out))
        ++ (unless_none rmi (intersect p.rm_in p.add_in)
            ++ (unless_none adi p.add_in
                ++ ((if p.routing then adrules want.routing ∷ [] else [])
                    ++ (unless_none rmi (minus p.rm_in p.add_in)
                        ++ unless_none rmo (dependents_first p (minus p.rm_out p.add_out)))))))

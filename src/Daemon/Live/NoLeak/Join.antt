-- ===== src/Daemon/Live/NoLeak/Join.antt =====
-- The calls of applyLiveLocked (daemon/xray_live.go) taken one tag at a time, part by part.
use em_xray.Daemon.Live.NoLeak.Along.{reversed-append}
use em_xray.Daemon.Live.Order.{dependents_first_lem}
use em_xray.Daemon.Live.{
  add_calls, LivePlan, unless_none, reversed, rmo, dependents_first, ado, is_dependent, ApiCall,
  rmi, adi, adrules,
}
use em_xray.Daemon.Live.NoLeak.{
  one_by_one, singles, singles-append, XrayProcess, run_all, SafeAlong, SafeAlong-append,
  one_by_one-append, append_assoc,
}
use mathlib.Core.Path.{subst}
use mathlib.Core.List.{append-nil}
use em_xray.Prelude.{
  List, [], ◌∷◌, String, Dict, ◌≡◌, ◌++◌, ap, filter, get, not, refl, ◌∙◌, Bool, if◌then◌else◌,
  true, false, sym,
}

pub one_by_one-unless_rmo : (ts : List String) → one_by_one (unless_none rmo ts) ≡ singles ts
one_by_one-unless_rmo [] = refl
one_by_one-unless_rmo (t ∷ ts) = append-nil (singles (t ∷ ts))

pub one_by_one-add_calls :
    (objects : Dict String) (ts : List String)
    → one_by_one (add_calls objects ts) ≡ add_calls objects ts
one_by_one-add_calls objects [] = refl
one_by_one-add_calls objects (t ∷ ts) =
    ap (λ r. ado t (get objects t) ∷ r) (one_by_one-add_calls objects ts)

pub add_calls-append :
    (objects : Dict String) (ts us : List String)
    → add_calls objects (ts ++ us) ≡ add_calls objects ts ++ add_calls objects us
add_calls-append objects [] us = refl
add_calls-append objects (t ∷ ts) us =
    ap (λ r. ado t (get objects t) ∷ r) (add_calls-append objects ts us)

-- The removal of a list, the dependents first.
pub removal :
    (p : LivePlan) (ts : List String)
    → one_by_one (unless_none rmo (dependents_first p ts))
      ≡ singles (filter (is_dependent p) ts) ++ singles (filter (λ t. not (is_dependent p t)) ts)
removal p ts =
    one_by_one-unless_rmo (dependents_first p ts)
    ∙ ap singles (dependents_first_lem p ts)
    ∙ singles-append (filter (is_dependent p) ts) (filter (λ t. not (is_dependent p t)) ts)

-- The additions of a list, the plain ones first.
pub additions :
    (p : LivePlan) (objects : Dict String) (ts : List String)
    → one_by_one (add_calls objects (reversed (dependents_first p ts)))
      ≡ add_calls objects (reversed (filter (λ t. not (is_dependent p t)) ts))
        ++ add_calls objects (reversed (filter (is_dependent p) ts))
additions p objects ts =
    one_by_one-add_calls objects (reversed (dependents_first p ts))
    ∙ ap (λ us. add_calls objects (reversed us)) (dependents_first_lem p ts)
    ∙ ap (add_calls objects)
        (reversed-append (filter (is_dependent p) ts) (filter (λ t. not (is_dependent p t)) ts))
    ∙ add_calls-append objects (reversed (filter (λ t. not (is_dependent p t)) ts))
        (reversed (filter (is_dependent p) ts))

module _ (x : XrayProcess) (dial : String → String) where
  pub join :
      (cs ds : List ApiCall) (s : x.State)
      → SafeAlong x dial (one_by_one cs) s
      → SafeAlong x dial (one_by_one ds) (run_all x (one_by_one cs) s)
      → SafeAlong x dial (one_by_one (cs ++ ds)) s
  join cs ds s hc hd =
      subst (λ (l : List ApiCall). SafeAlong x dial l s) (sym (one_by_one-append cs ds))
        (SafeAlong-append x dial (one_by_one cs) (one_by_one ds) s hc hd)

  pub join_two :
      (cs us vs ds : List ApiCall) (s : x.State)
      → one_by_one cs ≡ us ++ vs
      → SafeAlong x dial us s
      → SafeAlong x dial vs (run_all x us s)
      → SafeAlong x dial (one_by_one ds) (run_all x vs (run_all x us s))
      → SafeAlong x dial (one_by_one (cs ++ ds)) s
  join_two cs us vs ds s e hu hv hd =
      subst (λ (l : List ApiCall). SafeAlong x dial l s)
        (sym (
          one_by_one-append cs ds
          ∙ ap (λ l. l ++ one_by_one ds) e
          ∙ append_assoc us vs (one_by_one ds)))
        (SafeAlong-append x dial us (vs ++ one_by_one ds) s hu
          (SafeAlong-append x dial vs (one_by_one ds) (run_all x us s) hv hd))

  pub same_rmi :
      (ts : List String) (s : x.State) (k : String)
      → x.outbound (run_all x (one_by_one (unless_none rmi ts)) s) k ≡ x.outbound s k
  same_rmi [] s k = refl
  same_rmi (t ∷ ts) s k = x.outbound-rmi (t ∷ ts) s k

  pub same_adi :
      (ts : List String) (s : x.State) (k : String)
      → x.outbound (run_all x (one_by_one (unless_none adi ts)) s) k ≡ x.outbound s k
  same_adi [] s k = refl
  same_adi (t ∷ ts) s k = x.outbound-adi (t ∷ ts) s k

  pub same_routing :
      (b : Bool) (rules : String) (s : x.State) (k : String)
      → x.outbound (run_all x (one_by_one (if b then adrules rules ∷ [] else [])) s) k
        ≡ x.outbound s k
  same_routing true rules s k = x.outbound-adrules rules s k
  same_routing false rules s k = refl

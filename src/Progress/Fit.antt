-- ===== src/Progress/Fit.antt =====
-- The condition that holds throughout a provisioning on a good day, and which keys are harmless.
use ninekube.Prelude.{
  String, StringMap, ◌≡◌, ◌≢◌, sym, ◌∙◌, ap, ◌==◌, eq_iff, false, false-ne-true, none, some, index,
  lookup, refl, [], ◌∷◌,
}
use ninekube.World.Healthy.{HasKeysOf}
use ninekube.Kube.{tls, Key, Object, secret_kind, ingress_route_tcp_kind, secret_data}
use ninekube.World.{World}
use ninekube.World.Lawful.{Lawful}
use ninekube.Exec.{Exec}
use ninekube.Exec.Moves.{Moves, Returns}
use ninekube.Exec.Succeeds.{Ends}
use ninekube.World.Grows.{Grows, Present}
use ninekube.Controller.Ensure.{key}
use ninekube.Progress.Room.{IsHarmless, IsRoomy, route_key, ca_key}
use ninekube.Progress.Crypto.{IsReadable}

pub IsHarmless-of_kind :
    (ns : String) (k : Key)
    → k.kind ≢ ingress_route_tcp_kind
    → k.kind ≢ secret_kind
    → IsHarmless ns k
IsHarmless-of_kind ns k route secret =
    (λ e. route (ap (λ (j : Key). j.kind) e), λ e. secret (ap (λ (j : Key). j.kind) e))

pub IsHarmless-of_name :
    (ns name : String) → (name == "ca") ≡ false → IsHarmless ns (key secret_kind ns name)
IsHarmless-of_name ns name other = (
  λ e. secret_not_route (ap (λ (j : Key). j.kind) e),
  λ e. false-ne-true (sym other ∙ (eq_iff name "ca").1 (ap (λ (j : Key). j.name) e)),
)
  where
    secret_not_route : secret_kind ≡ ingress_route_tcp_kind → ⊥
    secret_not_route e = cc

-- The two keys of a certificate's Secret are there.
pub HasKeysOf-pems : (cert key : String) → HasKeysOf tls (("tls.crt", cert) ∷ ("tls.key", key) ∷ [])
unfolding lookup
HasKeysOf-pems cert key = ((cert, refl), (key, refl))

-- The data of a Secret that `ParseCA` accepts.
abbrev pub IsAuthority : {W : World} → Lawful W → Object → Type 0
IsAuthority {W} L x =
    IsReadable W (index "tls.crt" (secret_data x.body)) (index "tls.key" (secret_data x.body))

module _ {W : World} (L : Lawful W) (ns : String) where
  -- There is no LDAPS route yet, and a CA's Secret, if there is one, holds a CA.
  pub record Fit (s : W.State) : Type 0 where
    pub route : L.object s (route_key ns) ≡ none
    pub ca : (x : Object) → L.object s (ca_key ns) ≡ some x → IsAuthority L x

  pub Fit-IsRoomy : IsRoomy L ns Fit
  Fit-IsRoomy = record {
    objectwise = λ s t same fit. record {
      route = same (route_key ns) ∙ fit.route;
      ca = λ x held. fit.ca x (sym (same (ca_key ns)) ∙ held);
    };
    create = λ o s harmless fit gone. record {
      route = L.create_other o s (route_key ns) (λ e. harmless.0 (sym e)) ∙ fit.route;
      ca = λ x held.
          fit.ca x (sym (L.create_other o s (ca_key ns) (λ e. harmless.1 (sym e))) ∙ held);
    };
  }

module _ {W : World} (L : Lawful W) where
  -- A condition, and that an object is there.
  abbrev pub With : (W.State → Type 0) → Key → W.State → Type 0
  With I k s = I s × Present L k s

  pub With-IsRoomy :
      (ns : String) (I : W.State → Type 0) (k : Key) → IsRoomy L ns I → IsRoomy L ns (With I k)
  With-IsRoomy ns I k room = record {
    objectwise = λ s t same (i, (x, held)). (room.objectwise s t same i, (x, same k ∙ held));
    create = λ o s harmless (i, (x, held)) gone.
        (room.create o s harmless i gone, (x, L.create_kept o s k x held));
  }

  -- What only adds objects keeps it.
  pub Ends-With :
      {A : Type 0} {I J : W.State → Type 0} (ns : String) (labels : StringMap) (k : Key)
      (m : Exec W.State A)
      → Moves (Grows L ns labels) m
      → Ends I J m
      → Ends (With I k) (With J k) m
  Ends-With ns labels k m grows ends = record {
    at = λ s (i, (x, held)).
        let (a, e, u, j) = ends.at s i in (a, e, tt, (j, (x, (grows.at s).kept k x held)));
  }

  -- What it makes sure of, it leaves.
  pub Ends-made :
      {A : Type 0} {I J : W.State → Type 0} (k : Key) (m : Exec W.State A)
      → Returns (λ _. Present L k) m
      → Ends I J m
      → Ends I (With J k) m
  Ends-made k m made ends = record {
    at = λ s i. let (a, e, u, j) = ends.at s i in (a, e, tt, (j, made.at s a e));
  }

-- After the route is made, nothing is in the way of what is left to do.
abbrev pub Anything : {S : Type 0} → S → Type 0
Anything s = Unit {0}

pub Anything-IsRoomy :
    {W : World} (L : Lawful W) (ns : String) → IsRoomy L ns (Anything {S = W.State})
Anything-IsRoomy L ns = record { objectwise = λ s t same i. tt; create = λ o s harmless i gone. tt }

-- ===== src/World/Grows/Rules.antt =====
-- The rules for `Grows`, one for each call of the world and each way to build an action.
use ninekube.Prelude.{ℕ, String, StringMap, Option, List}
use ninekube.Exec.{Exec, Error, Outcome, pure, raise, crash, lift, total, ◌>>=◌, for_each}
use ninekube.Exec.Moves.{
  Moves, Moves-pure, Moves-raise, Moves-crash, Moves-lift, Moves-bind, Moves-for_each,
}
use ninekube.Api.{ClientNamespace, NamespacedName}
use ninekube.Kube.{Key}
use ninekube.World.{World, Certificate}
use ninekube.World.Lawful.{Lawful}
use ninekube.World.Grows.{Grows, Grows-IsPreorder, Grows-of_same, Grows-create}
use ninekube.World.Permits.{Permits, IsClients}

module _ {W : World} (L : Lawful W) (ns : String) (labels : StringMap) where
  pub Grows-get : (k : Key) → Moves (Grows L ns labels) (W.get k)
  Grows-get k = record { at = λ s. Grows-of_same L ns labels s _ (L.get_same k s) }

  pub Grows-get_client_namespace :
      (n : NamespacedName) → Moves (Grows L ns labels) (W.get_client_namespace n)
  Grows-get_client_namespace n = record {
    at = λ s. Grows-of_same L ns labels s _ (L.get_client_namespace_same n s);
  }

  pub Grows-update : (cn : ClientNamespace) → Moves (Grows L ns labels) (W.update cn)
  Grows-update cn = record { at = λ s. Grows-of_same L ns labels s _ (L.update_same cn s) }

  pub Grows-update_status : (cn : ClientNamespace) → Moves (Grows L ns labels) (W.update_status cn)
  Grows-update_status cn = record {
    at = λ s. Grows-of_same L ns labels s _ (L.update_status_same cn s);
  }

  pub Grows-now : Moves (Grows L ns labels) (total W.now)
  unfolding total
  Grows-now = record { at = λ s. Grows-of_same L ns labels s _ (L.now_same s) }

  pub Grows-rand_int : (n : ℕ) → Moves (Grows L ns labels) (W.rand_int n)
  Grows-rand_int n = record { at = λ s. Grows-of_same L ns labels s _ (L.rand_int_same n s) }

  pub Grows-generate_rsa_key : (n : ℕ) → Moves (Grows L ns labels) (W.generate_rsa_key n)
  Grows-generate_rsa_key n = record {
    at = λ s. Grows-of_same L ns labels s _ (L.generate_rsa_key_same n s);
  }

  pub Grows-create_certificate :
      (t : Certificate) (p : Option Certificate) (a b : W.PrivateKey)
      → Moves (Grows L ns labels) (W.create_certificate t p a b)
  Grows-create_certificate t p a b = record {
    at = λ s. Grows-of_same L ns labels s _ (L.create_certificate_same t p a b s);
  }

  module _ {A : Type 0} where
    pub Grows-pure : (a : A) → Moves (Grows L ns labels) (pure a)
    Grows-pure a = Moves-pure (Grows-IsPreorder L ns labels) a

    pub Grows-raise : (e : Error) → Moves (Grows L ns labels) (raise {A = A} e)
    Grows-raise e = Moves-raise (Grows-IsPreorder L ns labels) e

    pub Grows-crash : Moves (Grows L ns labels) (crash {A = A})
    Grows-crash = Moves-crash (Grows-IsPreorder L ns labels)

    pub Grows-lift : (r : Outcome A) → Moves (Grows L ns labels) (lift r)
    Grows-lift r = Moves-lift (Grows-IsPreorder L ns labels) r

    pub Grows-for_each :
        (xs : List A) (f : A → Exec W.State (Unit {0}))
        → ((x : A) → Moves (Grows L ns labels) (f x))
        → Moves (Grows L ns labels) (for_each xs f)
    Grows-for_each xs f h = Moves-for_each (Grows-IsPreorder L ns labels) xs f h

  module _ {A B : Type 0} where
    pub Grows-bind :
        (m : Exec W.State A) (f : A → Exec W.State B)
        → Moves (Grows L ns labels) m
        → ((a : A) → Moves (Grows L ns labels) (f a))
        → Moves (Grows L ns labels) (m >>= f)
    Grows-bind m f hm hf = Moves-bind (Grows-IsPreorder L ns labels) m f hm hf

  -- Provisioning may move along it.
  pub Grows-Permits : Permits W (Grows L ns labels) (IsClients ns labels)
  Grows-Permits = record {
    pre = Grows-IsPreorder L ns labels;
    get = Grows-get;
    now = Grows-now;
    rand_int = Grows-rand_int;
    generate_rsa_key = Grows-generate_rsa_key;
    create_certificate = Grows-create_certificate;
    create = λ o clients. Grows-create L ns labels o clients.0 clients.1;
  }

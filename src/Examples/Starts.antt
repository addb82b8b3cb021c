-- ===== src/Examples/Starts.antt =====
-- The theorems on the wiring of the objects and on the manager's start at concrete inputs.
use ninekube.Prelude.{[], ◌∷◌, refl, ◌≡◌, ℕ, some, none, true, List, map, ◌+◌, All}
use ninekube.Exec.{ok, plain}
use ninekube.Exec.{err}
use ninekube.Kube.{Object}
use ninekube.Ingress.{IngressDef, ingress_defs}
use ninekube.Services.Wiring.{
  is_linked, workloads, workloads-linked, unbacked, optional_names, ingresses-unbacked,
}
use ninekube.Exec.{Exec, Outcome, wrapped}
use ninekube.Manager.Options.{default_flags, manager_options, Runtime, main}
use ninekube.Manager.Start.{applied, manager_options-http1, steps, main-stops}
use ninekube.Examples.{all_services, acme}

workloads-linked_example :
    All
      (λ (w : Object × Object). is_linked w.0.body w.1.body ≡ true)
      (workloads acme "acme-ns" none)
workloads-linked_example = workloads-linked acme "acme-ns" none

ingresses-unbacked_example :
    (defs : List IngressDef) × ((ingress_defs "acme.example" (some all_services) tt).0 ≡ ok defs)
    × (unbacked acme "acme-ns" ""
          (map (λ (w : Object × Object). w.1) (workloads acme "acme-ns" none))
          defs
        ≡ "rustfs-api" ∷ optional_names all_services)
ingresses-unbacked_example =
    ingresses-unbacked acme "acme-ns" "acme.example" "" none all_services tt

manager_options-http1_example :
    ((applied
        (manager_options default_flags).metrics.tls_opts
        (record { next_protos = "h2" ∷ [] })).next_protos
      ≡ "http/1.1" ∷ [])
    × ((applied
          (manager_options default_flags).webhook.tls_opts
          (record { next_protos = "h2" ∷ [] })).next_protos
        ≡ "http/1.1" ∷ [])
manager_options-http1_example =
    manager_options-http1 default_flags (record { next_protos = "h2" ∷ [] }) refl

-- A step of the start that counts the calls.
abbrev counted : Outcome (Unit {0}) → Exec ℕ (Unit {0})
counted r n = (r, n + 1)

-- A manager whose controller cannot be set up.
abbrev no_controller : Runtime ℕ
no_controller = record {
  new_manager = λ options. counted (ok tt);
  setup_with_manager = counted (err (plain "no kind"));
  add_healthz_check = counted (ok tt);
  add_readyz_check = counted (ok tt);
  start = counted (ok tt);
}

main-stops_example :
    main no_controller default_flags 0
    ≡ (err (wrapped "Failed to create controller" (plain "no kind")), 2)
unfolding steps
main-stops_example =
    main-stops no_controller default_flags (("Failed to start manager", counted (ok tt)) ∷ [])
      (("Failed to set up health check", counted (ok tt))
        ∷ ("Failed to set up ready check", counted (ok tt))
        ∷ ("Failed to run manager", counted (ok tt))
        ∷ [])
      "Failed to create controller" (counted (err (plain "no kind"))) 0 1 (plain "no kind") refl
      (refl, refl) refl

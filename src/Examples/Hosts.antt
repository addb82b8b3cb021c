-- ===== src/Examples/Hosts.antt =====
-- The theorem on the certificates and the ingresses at a concrete input.
use ninekube.Prelude.{◌≡◌, refl, [], ◌∷◌, some, List, All}
use ninekube.Exec.{ok, attempt, ◌>>=◌, pure, lift, total, for_each, is_not_found}
use ninekube.Kube.{Object, secret, secret_kind, tls}
use ninekube.World.Memory.{
  Memory, memory, get, create, create_at, set_cell, admit, fresh, find, found, now, rand_int,
  generate_rsa_key, create_certificate,
}
use ninekube.World.Memory.Laws.{memory-Lawful}
use ninekube.Ca.{
  Ca, wrapping, or_undecoded, only_rsa, parse_ca, or_nil, encode_key, sign, sign_cert_multi_san,
}
use ninekube.Controller.Secrets.{or_wrapped}
use ninekube.Controller.Ensure.{key, if_missing, on_missing}
use ninekube.Api.Services.{optional_enabled}
use ninekube.Certs.{
  get_ca, service_certs, core_certs, optional_certs, create_cert, ensure_cert_secret,
  ensure_service_certs,
}
use ninekube.Certs.Served.{IsServed, ensure_service_certs-IsServed}
use ninekube.Ingress.{IngressDef, ingress_defs}
use ninekube.Examples.{holding, going, all_services}

-- A CA of the client `acme`.
abbrev ca_secret : Object
ca_secret = record {
  meta = record { name = "ca"; namespace = "acme-ns"; labels = []; annotations = [] };
  body =
      secret (record {
        type = tls;
        binary = ("tls.crt", "c") ∷ ("tls.key", "k") ∷ [];
        string_data = [];
      });
}

with_ca : Memory
unfolding fresh
with_ca = record (holding going) { entries = (key secret_kind "acme-ns" "ca", ca_secret) ∷ [] }

signed : (ensure_service_certs memory going "acme-ns" with_ca).0 ≡ ok tt
unfolding with_ca ensure_service_certs get_ca wrapping parse_ca or_undecoded only_rsa or_wrapped
    attempt ◌>>=◌ pure lift get find found service_certs core_certs optional_certs optional_enabled
    for_each ensure_cert_secret if_missing on_missing create_cert sign_cert_multi_san sign or_nil
    encode_key total now rand_int generate_rsa_key create_certificate create create_at set_cell
    admit is_not_found fresh
signed = refl

ensure_service_certs-IsServed_example :
    (ca : Ca memory) × ((get_ca memory "acme-ns" with_ca).0 ≡ ok ca)
    × ((defs : List IngressDef) × ((ingress_defs "acme.example" (some all_services) with_ca).0
          ≡ ok defs)
        × All
            (IsServed memory-Lawful going "acme-ns" ca with_ca
              (ensure_service_certs memory going "acme-ns" with_ca).1)
            defs)
ensure_service_certs-IsServed_example =
    ensure_service_certs-IsServed memory-Lawful going "acme-ns" all_services with_ca refl signed

-- ===== src/Services/Ninegate/Wiring.antt =====
-- The variables of Ninegate's container and the Secret that they are read from:
-- operator/internal/controller/ninegate_controller.go, and `ensureNinegateSecret` of
-- operator/internal/controller/clientnamespace_controller.go.
use ninekube.Prelude.{String, StringMap, ◌≡◌, refl, some, All, lookup}
use ninekube.Api.{ClientNamespace}
use ninekube.Kube.Workload.{EnvSource, secret_key_ref}
use ninekube.Controller.Secrets.{ninegate_values}
use ninekube.Services.Ninegate.{environment}

-- The source of a variable is a literal, or a key of the Secret of that name, which has a value.
abbrev pub Finds : String → StringMap → EnvSource → Type 0
Finds name values (EnvSource.value text) = Unit
Finds name values (secret_key_ref secret key) =
    (secret ≡ name) × ((v : String) × (lookup key values ≡ some v))

-- Every variable of Ninegate's container that is read from ninegate-secret has a value among those
-- that `ensureNinegateSecret` puts there, for every resource and every password.
pub environment-Finds :
    (cn : ClientNamespace) (pg rustfs admin app oidc : String)
    → All
        (λ v. Finds "ninegate-secret" (ninegate_values cn pg rustfs admin app oidc) v.source)
        environment
unfolding environment lookup ninegate_values
environment-Finds cn pg rustfs admin app oidc = (
  tt,
  (
    (refl, (_, refl)),
    (
      (refl, (_, refl)),
      (
        (refl, (_, refl)),
        (
          tt,
          (
            tt,
            (
              (refl, (_, refl)),
              (
                (refl, (_, refl)),
                (
                  tt,
                  (
                    (refl, (_, refl)),
                    (
                      (refl, (_, refl)),
                      (
                        (refl, (_, refl)),
                        (
                          tt,
                          (
                            tt,
                            (
                              (refl, (_, refl)),
                              (
                                tt,
                                (
                                  (refl, (_, refl)),
                                  (
                                    (refl, (_, refl)),
                                    (
                                      (refl, (_, refl)),
                                      ((refl, (_, refl)), ((refl, (_, refl)), tt)),
                                    ),
                                  ),
                                ),
                              ),
                            ),
                          ),
                        ),
                      ),
                    ),
                  ),
                ),
              ),
            ),
          ),
        ),
      ),
    ),
  ),
)

-- ===== src/Controller/Status.antt =====
-- The status of a ClientNamespace: `updateServiceStatus`, `setFailed`, `serviceName` and the final
-- `Ready` of operator/internal/controller/clientnamespace_controller.go.
pub mod Entries
use ninekube.Prelude.{
  ℕ, String, ◌<>◌, ◌==◌, Bool, none, some, List, [], ◌∷◌, ◌++◌, get_elem?, if◌then◌else◌,
}
use ninekube.Exec.{Exec, Error, Attempt, got, failed, message, pure, raise, total, attempt, ◌>>=◌}
use ninekube.Api.{
  ClientNamespace, ClientNamespaceStatus, ClientNamespacePhase, ready, ServiceStatus, Condition,
  condition_true, condition_false,
}
use ninekube.World.{World}

abbrev pub service_names : List String
service_names =
    "Namespace" ∷ "PostgreSQL" ∷ "Redis" ∷ "RustFS" ∷ "Ninegate" ∷ "Glauth" ∷ "Dex" ∷ "Nextcloud"
    ∷ "WordPress" ∷ "Dolibarr" ∷ []

-- serviceName; `decimal` is `fmt`'s `%d`
module _ (decimal : ℕ → String) where
  unfoldable pub service_name : ℕ → String
  service_name i = elim (get_elem? service_names i) [ some n ↦ n | none ↦ "service-" <> decimal i ]

-- The loop of updateServiceStatus: the first entry of that name, or a new one at the end.
unfoldable pub upsert_service : String → Bool → String → List ServiceStatus → List ServiceStatus
upsert_service name is_up msg [] = record { name = name; ready = is_up; message = msg } ∷ []
upsert_service name is_up msg (s ∷ rest) =
    if s.name == name
    then record s { ready = is_up; message = msg } ∷ rest
    else s ∷ upsert_service name is_up msg rest

unfoldable pub update_service_status : ClientNamespace → String → Bool → String → ClientNamespace
unfolding upsert_service
update_service_status cn name is_up msg = record cn {
  status = record (cn.status) { services = upsert_service name is_up msg cn.status.services };
}

-- The loop of setFailed: the first condition of the type, or a new one at the end.
unfoldable pub set_condition : Condition → List Condition → List Condition
set_condition new [] = new ∷ []
set_condition new (c ∷ rest) = if c.type == "Ready" then new ∷ rest else c ∷ set_condition new rest

unfoldable pub failed_condition : ℕ → String → Error → Condition
unfolding message
failed_condition time reason e = record {
  type = "Ready";
  status = condition_false;
  last_transition_time = time;
  reason = reason;
  message = message e;
}

unfoldable pub failed_status : ℕ → String → Error → ClientNamespaceStatus → ClientNamespaceStatus
unfolding set_condition failed_condition
failed_status time reason e status = record status {
  phase = ClientNamespacePhase.failed;
  conditions = set_condition (failed_condition time reason e) status.conditions;
}

-- The condition that the end of `Reconcile` appends.
unfoldable pub ready_condition : ℕ → Condition
ready_condition time = record {
  type = "Ready";
  status = condition_true;
  last_transition_time = time;
  reason = "Provisioned";
  message = "All services are provisioned";
}

unfoldable pub ready_status : ℕ → String → ClientNamespaceStatus → ClientNamespaceStatus
unfolding ready_condition
ready_status time domain status = record status {
  phase = ready;
  endpoint = "https://" <> domain;
  conditions = status.conditions ++ ready_condition time ∷ [];
}

-- `Status().Update` fills in its argument where it succeeds; where it fails, the error is logged.
unfoldable pub refreshed : ClientNamespace → Attempt ClientNamespace → ClientNamespace
refreshed cn (got new) = new
refreshed cn (failed e) = cn

module _ (W : World) where
  unfoldable pub set_failed : {A : Type 0} → ClientNamespace → String → Error → Exec W.State A
  unfolding failed_status
  set_failed cn reason e = do
    time ← total W.now
    logged ←
        attempt (W.update_status (record cn { status = failed_status time reason e cn.status }))
    raise e

  -- if err := step; err != nil { return r.setFailed(ctx, &cn, reason, err) }
  abbrev pub checked : {A : Type 0} → ClientNamespace → String → Attempt A → Exec W.State A
  checked cn reason (got a) = pure a
  checked cn reason (failed e) = set_failed cn reason e

  unfoldable pub or_failed :
      {A : Type 0} → ClientNamespace → String → Exec W.State A → Exec W.State A
  unfolding set_failed
  or_failed cn reason step = do outcome ← attempt step; checked cn reason outcome

  unfoldable pub mark_ready : ClientNamespace → Exec W.State (Unit {0})
  unfolding ready_status
  mark_ready cn = do
    time ← total W.now
    updated ← W.update_status (record cn { status = ready_status time cn.spec.domain cn.status })
    pure tt

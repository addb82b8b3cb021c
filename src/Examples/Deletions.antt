-- ===== src/Examples/Deletions.antt =====
-- The theorems on deletions at concrete inputs.
use ninekube.Prelude.{refl, sym, ◌∙◌, ◌≡◌, some, none, true}
use ninekube.World.Memory.{Memory, memory, get_client_namespace, fresh, find}
use ninekube.World.Memory.Laws.{memory-Lawful, memory-object}
use ninekube.Controller.Labels.{client_labels}
use ninekube.Controller.Reconcile.{reconcile}
use ninekube.Manager.{services}
use ninekube.Kube.{Key}
use ninekube.Controller.Ensure.{key}
use ninekube.World.Memory.Laws.Clearing.{memory-Clearing}
use ninekube.World.Clearing.{of_secret, of_service}
use ninekube.Outcomes.Undone.{reconcile-clears, reconcile-undoes}
use ninekube.Kube.{Object, has_labels, service_kind}
use ninekube.Services.Redis
use ninekube.Examples.{
  leftover, with_leftover, wildcard_key, now_dying, request, holding, order, decimal, going, dying,
}
use ninekube.Examples.Run.{redis_held}

leftover_there : memory-Lawful.object with_leftover wildcard_key ≡ some leftover
unfolding with_leftover fresh find
leftover_there = memory-object with_leftover wildcard_key ∙ refl

leftover_labelled : has_labels leftover.meta.labels (client_labels dying) ≡ true
unfolding has_labels client_labels
leftover_labelled = refl

reconcile-clears_example :
    memory-Lawful.object
      (reconcile memory decimal order (services memory order) request with_leftover).1
      wildcard_key
    ≡ none
unfolding get_client_namespace fresh find with_leftover
reconcile-clears_example =
    reconcile-clears memory-Clearing decimal order request with_leftover dying leftover refl refl
      leftover_there of_secret refl leftover_labelled

-- The cluster after a provisioning of `acme`, once its deletion is asked for.
abbrev provisioned : Memory
provisioned =
    now_dying (reconcile memory decimal order (services memory order) request (holding going)).1

abbrev redis_service : Object
redis_service = Redis.service_object going "acme-ns"

redis_there :
    memory-Lawful.object provisioned (key service_kind "acme-ns" "redis") ≡ some redis_service
redis_there = memory-object provisioned (key service_kind "acme-ns" "redis") ∙ redis_held

nothing_before : (k : Key) → memory-Lawful.object (holding going) k ≡ none
unfolding fresh find
nothing_before k = memory-object (holding going) k

provisioned_same :
    (k : Key)
    → memory-Lawful.object provisioned k
      ≡ memory-Lawful.object
          (reconcile memory decimal order (services memory order) request (holding going)).1
          k
provisioned_same k =
    memory-object provisioned k
    ∙ sym (
        memory-object
          (reconcile memory decimal order (services memory order) request (holding going)).1 k)

reconcile-undoes_example :
    memory-Lawful.object
      (reconcile memory decimal order (services memory order) request provisioned).1
      (key service_kind "acme-ns" "redis")
    ≡ none
unfolding get_client_namespace fresh Redis.service_object
reconcile-undoes_example =
    reconcile-undoes memory-Clearing decimal order request (holding going) provisioned going dying
      redis_service refl refl provisioned_same refl refl of_service refl (nothing_before _)
      redis_there

-- ===== src/Controller/Labels.antt =====
-- The labels of the objects that the operator creates.
use ninekube.Prelude.{String, StringMap, [], ◌∷◌, ◌<>◌, ◌≡◌, true, eq_refl}
use ninekube.Api.{ClientNamespace}
use ninekube.Kube.{has_labels}

-- clientLabels
unfoldable pub client_labels : ClientNamespace → StringMap
client_labels cn =
    ("app.kubernetes.io/part-of", "ninekube")
    ∷ ("app.kubernetes.io/managed-by", "ninekube-operator")
    ∷ ("ninekube.io/client", cn.name)
    ∷ []

-- The literal that the service controllers repeat, with the application's name first.
unfoldable pub app_labels : String → ClientNamespace → StringMap
app_labels app cn =
    ("app.kubernetes.io/name", app)
    ∷ ("app.kubernetes.io/part-of", "ninekube")
    ∷ ("app.kubernetes.io/managed-by", "ninekube-operator")
    ∷ ("ninekube.io/client", cn.name)
    ∷ []

-- fmt.Sprintf("%s-ns", cn.Name)
abbrev pub ns_name : ClientNamespace → String
ns_name cn = cn.name <> "-ns"

-- Both sets are found by the selector of the cleanup.
pub has_labels-client_labels :
    (cn : ClientNamespace) → has_labels (client_labels cn) (client_labels cn) ≡ true
unfolding has_labels client_labels
has_labels-client_labels cn = rw eq_refl

pub has_labels-app_labels :
    (app : String) (cn : ClientNamespace) → has_labels (app_labels app cn) (client_labels cn) ≡ true
unfolding has_labels client_labels app_labels
has_labels-app_labels app cn = rw eq_refl

-- The labels depend on the resource's name only.
pub client_labels_of_name :
    (new cn : ClientNamespace) → new.name ≡ cn.name → client_labels new ≡ client_labels cn
unfolding client_labels
client_labels_of_name new cn h = cc

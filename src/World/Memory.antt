-- ===== src/World/Memory.antt =====
-- A cluster in memory with no other client and no failures but those of the documented API: the
-- concrete world at which the theorems are applied.
pub mod Laws
pub mod Cells
pub mod Clients
use ninekube.Prelude.{
  ℕ, zero, suc, ◌+◌, ◌%◌, String, StringMap, ◌<>◌, ◌==◌, Bool, true, false, ◌&&◌, ◌||◌, not, Option,
  none, some, List, [], ◌∷◌, ◌++◌, if◌then◌else◌, String-discrete,
}
use ninekube.Exec.{
  Exec, Outcome, ok, err, panic, Error, api, not_found, already_exists, other_reason, plain,
}
use ninekube.Api.{ClientNamespace, NamespacedName, Condition}
use ninekube.Kube.{
  Kind, Kind-discrete, Key, Key-discrete, Object, Body, secret, key_of, kind_of, has_labels,
}
use ninekube.World.{World, Certificate, AnyKey, rsa}
use ninekube.World.Lawful.{name_of}
use ninekube.World.Conditions.{is_condition}
use ninekube.Prelude.Order.{eqb}

unfoldable pub NamespacedName-discrete : Discrete NamespacedName
unfolding String-discrete
NamespacedName-discrete = hlevel String-discrete

pub record Memory : Type 0 where
  pub entries : List (Key × Object)
  pub clients : NamespacedName → Option ClientNamespace
  pub ticks : ℕ

abbrev pub is : {P : Type 0} → Dec P → Bool
is (yes p) = true
is (no n) = false

unfoldable pub find : Key → List (Key × Object) → Option Object
unfolding Key-discrete
find k [] = none
find k ((j, o) ∷ rest) = let later = find k rest in if is (Key-discrete k j) then some o else later

unfoldable pub without_key : Key → List (Key × Object) → List (Key × Object)
unfolding Key-discrete
without_key k [] = []
without_key k ((j, o) ∷ rest) =
    let others = without_key k rest in if is (Key-discrete k j) then others else (j, o) ∷ others

unfoldable pub set_cell : List (Key × Object) → Key → Option Object → List (Key × Object)
unfolding without_key
set_cell entries k none = without_key k entries
set_cell entries k (some o) = (k, o) ∷ entries

abbrev pub cell : Memory → Key → Option Object
cell s k = find k s.entries

-- `StringData` is merged over `Data`.
unfoldable pub admit_body : Body → Body
admit_body (secret s) = secret (record s { binary = s.string_data ++ s.binary; string_data = [] })
admit_body b = b

unfoldable pub admit : Object → Object
unfolding admit_body
admit o = record o { body = admit_body o.body }

unfoldable pub found : {A : Type 0} → Option A → Outcome A
found none = err (api not_found "not found")
found (some a) = ok a

unfoldable pub get : Key → Exec Memory Object
unfolding found
get k s = (found (cell s k), s)

unfoldable pub create_at : Option Object → Object → Exec Memory (Unit {0})
create_at (some old) o s = (err (api already_exists "already exists"), s)
create_at none o s = (ok tt, record s { entries = set_cell s.entries (key_of o) (some (admit o)) })

unfoldable pub create : Object → Exec Memory (Unit {0})
unfolding create_at set_cell admit
create o s = create_at (cell s (key_of o)) o s

unfoldable pub delete : Key → Exec Memory (Unit {0})
unfolding set_cell
delete k s = (ok tt, record s { entries = set_cell s.entries k none })

-- whether an object is what `list` is asked for, and stands under its own key
unfoldable pub is_listed : Kind → String → StringMap → Key → Object → Bool
unfolding Key-discrete Kind-discrete String-discrete has_labels
is_listed kind ns labels k o =
    is (Kind-discrete (kind_of o.body) kind)
    && (is (String-discrete o.meta.namespace ns)
        && (has_labels o.meta.labels labels && is (Key-discrete (key_of o) k)))

unfoldable pub listed_at :
    Kind → String → StringMap → Key → Option Object → List Object → List Object
unfolding is_listed
listed_at kind ns labels k none rest = rest
listed_at kind ns labels k (some o) rest = if is_listed kind ns labels k o then o ∷ rest else rest

unfoldable pub listed :
    Kind → String → StringMap → (Key → Option Object) → List (Key × Object) → List Object
unfolding listed_at
listed kind ns labels held [] = []
listed kind ns labels held ((k, o) ∷ rest) =
    listed_at kind ns labels k (held k) (listed kind ns labels held rest)

unfoldable pub list : Kind → String → StringMap → Exec Memory (List Object)
unfolding listed
list kind ns labels s = (ok (listed kind ns labels (cell s) s.entries), s)

unfoldable pub found_client : NamespacedName → Option ClientNamespace → Outcome ClientNamespace
unfolding NamespacedName-discrete
found_client n none = err (api not_found "not found")
found_client n (some cn) =
    if is (NamespacedName-discrete (name_of cn) n) then ok cn else err (plain "corrupt")

unfoldable pub get_client_namespace : NamespacedName → Exec Memory ClientNamespace
unfolding found_client
get_client_namespace n s = (found_client n (s.clients n), s)

unfoldable pub set_client : ClientNamespace → Memory → Memory
unfolding NamespacedName-discrete
set_client cn s = record s {
  clients = λ n. if is (NamespacedName-discrete n (name_of cn)) then some cn else s.clients n;
}

abbrev pub bump : ClientNamespace → ClientNamespace
bump cn = record cn { resource_version = cn.resource_version + 1 }

abbrev pub with_stored_status : Option ClientNamespace → ClientNamespace → ClientNamespace
with_stored_status none cn = cn
with_stored_status (some old) cn = record cn { status = old.status }

-- Whether the resource is stored, at the version of the copy.
abbrev pub is_current : Option ClientNamespace → ClientNamespace → Bool
is_current none cn = false
is_current (some old) cn = eqb old.resource_version cn.resource_version

abbrev pub refusal : Option ClientNamespace → Error
refusal none = api not_found "not found"
refusal (some old) = api other_reason "conflict"

unfoldable pub update : ClientNamespace → Exec Memory ClientNamespace
unfolding set_client
update cn s =
    let old = s.clients (name_of cn) in
    let new = bump (with_stored_status old cn) in
    if is_current old cn then (ok new, set_client new s) else (err (refusal old), s)

unfoldable pub is_new_type : Condition → List Condition → Bool
unfolding String-discrete
is_new_type c [] = true
is_new_type c (d ∷ rest) = not (is (String-discrete d.type c.type)) && is_new_type c rest

unfoldable pub unique_types : List Condition → Bool
unfolding is_new_type
unique_types [] = true
unique_types (c ∷ rest) = is_new_type c rest && unique_types rest

unfoldable pub all_conditions : List Condition → Bool
unfolding is_condition
all_conditions [] = true
all_conditions (c ∷ rest) = is_condition c && all_conditions rest

-- A status of the version that is stored, with conditions that the schema allows.
unfoldable pub is_storable : Option ClientNamespace → ClientNamespace → Bool
unfolding unique_types all_conditions
is_storable old cn =
    is_current old cn && (unique_types cn.status.conditions && all_conditions cn.status.conditions)

unfoldable pub update_status : ClientNamespace → Exec Memory ClientNamespace
unfolding set_client is_storable
update_status cn s =
    let old = s.clients (name_of cn) in
    if is_storable old cn then (ok (bump cn), set_client (bump cn) s) else (err (refusal old), s)

unfoldable pub now : Memory → ℕ × Memory
now s = (s.ticks, record s { ticks = s.ticks + 1 })

unfoldable pub rand_int : ℕ → Exec Memory ℕ
rand_int zero s = (panic, s)
rand_int (suc n) s = (ok (s.ticks % suc n), record s { ticks = s.ticks + 1 })

unfoldable pub generate_rsa_key : ℕ → Exec Memory (Unit {0})
generate_rsa_key bits s = (ok tt, record s { ticks = s.ticks + 1 })

unfoldable pub create_certificate :
    Certificate → Option Certificate → Unit {0} → Unit {0} → Exec Memory String
create_certificate template parent key signer s = (ok template.common_name, s)

unfoldable pub blank_certificate : String → Certificate
blank_certificate name = record {
  serial_number = some 1;
  common_name = name;
  organization = [];
  not_before = 0;
  not_after = 0;
  key_usage = [];
  ext_key_usage = [];
  basic_constraints_valid = true;
  is_ca = true;
  max_path_len = 2;
  dns_names = [];
}

unfoldable pub contains : String → List String → Bool
contains f [] = false
contains f (g ∷ rest) = g == f || contains f rest

unfoldable pub without : String → List String → List String
without f [] = []
without f (g ∷ rest) = let others = without f rest in if g == f then others else g ∷ others

unfoldable pub fresh : Memory
fresh = record { entries = []; clients = λ n. none; ticks = 0 }

abbrev pub memory : World
memory = record {
  State = Memory;
  PrivateKey = Unit;
  get = get;
  create = create;
  delete = delete;
  list = list;
  get_client_namespace = get_client_namespace;
  update = update;
  update_status = update_status;
  contains_finalizer = λ cn f. contains f cn.finalizers;
  add_finalizer = λ cn f. record cn { finalizers = f ∷ cn.finalizers };
  remove_finalizer = λ cn f. record cn { finalizers = without f cn.finalizers };
  now = now;
  rand_int = rand_int;
  generate_rsa_key = generate_rsa_key;
  create_certificate = create_certificate;
  parse_certificate = λ der. ok (blank_certificate der);
  marshal_pkcs8 = λ key. ok "key";
  parse_pkcs8 = λ der. ok (rsa tt);
  pem_encode = λ type bytes. bytes;
  pem_decode = λ pem. some pem;
}

-- ===== src/Api/Services.antt =====
-- The tests that the controllers make on the optional parts of a spec.
use ninekube.Prelude.{Bool, false, Option, none, some}
use ninekube.Api.{CoreServiceSpec, OptionalServiceSpec, StatefulServiceSpec, ServicesSpec}

-- `spec != nil && spec.Enabled`, for the three shapes of a service's spec
unfoldable pub core_enabled : Option CoreServiceSpec → Bool
core_enabled none = false
core_enabled (some spec) = spec.enabled

unfoldable pub optional_enabled : Option OptionalServiceSpec → Bool
optional_enabled none = false
optional_enabled (some spec) = spec.enabled

unfoldable pub stateful_enabled : Option StatefulServiceSpec → Bool
stateful_enabled none = false
stateful_enabled (some spec) = spec.enabled

-- `cn.Spec.Services != nil && ...`
unfoldable pub when_services : Option ServicesSpec → (ServicesSpec → Bool) → Bool
when_services none enabled = false
when_services (some services) enabled = enabled services

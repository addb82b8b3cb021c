-- ===== src/World/Conditions.antt =====
-- What the API server asks of the conditions in a status before it stores it: the schema of
-- operator/config/crd/bases/provisioning.ninekube.io_clientnamespaces.yaml. A type is taken without
-- the DNS name that may stand before it, which the operator never writes.
use Prim.Native.Char.{Char, code}
use Prim.Native.String.{count}
use ninekube.Prelude.{ℕ, String, Bool, true, false, ◌&&◌, ◌||◌, not, ◌≡◌, refl, List, All}
use ninekube.Prelude.Order.{ltb, ◌==◌}
use ninekube.Api.{Condition}
use ninekube.World.Lawful.{UniqueTypes}

abbrev between : ℕ → ℕ → ℕ → Bool
between low high n = not (ltb n low) && not (ltb high n)

abbrev is_letter : Char → Bool
is_letter c = between 65 90 (code c) || between 97 122 (code c)

abbrev is_alphanumeric : Char → Bool
is_alphanumeric c = is_letter c || between 48 57 (code c)

-- The letters, digits and `_` with which a reason may end, and `,` and `:` besides.
abbrev is_reason_end : Char → Bool
is_reason_end c = is_alphanumeric c || code c == 95

abbrev is_reason_char : Char → Bool
is_reason_char c = is_reason_end c || (code c == 44 || code c == 58)

abbrev is_type_char : Char → Bool
is_type_char c = is_alphanumeric c || (between 45 46 (code c) || code c == 95)

-- Each character is of the first kind and the last is of the second; `ends` says it of what was read.
unfoldable goes_on : (Char → Bool) → (Char → Bool) → Bool → String → Bool
goes_on inner last ends String.[] = ends
goes_on inner last ends (String.◌∷◌ c rest) = inner c && goes_on inner last (last c) rest

-- ^[A-Za-z]([A-Za-z0-9_,:]*[A-Za-z0-9_])?$
unfoldable pub is_reason : String → Bool
unfolding goes_on
is_reason String.[] = false
is_reason (String.◌∷◌ c rest) =
    is_letter c
    && (goes_on is_reason_char is_reason_end true rest
        && not (ltb 1024 (count (String.◌∷◌ c rest))))

-- ^([A-Za-z0-9][-A-Za-z0-9_.]*)?[A-Za-z0-9]$
unfoldable is_type : String → Bool
unfolding goes_on
is_type String.[] = false
is_type (String.◌∷◌ c rest) =
    is_alphanumeric c
    && (goes_on is_type_char is_alphanumeric true rest && not (ltb 316 (count (String.◌∷◌ c rest))))

unfoldable pub is_message : String → Bool
is_message m = not (ltb 32768 (count m))

unfoldable pub is_condition : Condition → Bool
unfolding is_reason is_type is_message
is_condition c = is_type c.type && (is_reason c.reason && is_message c.message)

-- What the API server takes as the conditions of a status.
abbrev pub Accepted : List Condition → Type 0
Accepted cs = UniqueTypes cs × All (λ c. is_condition c ≡ true) cs

pub is_condition-Ready :
    (c : Condition)
    → c.type ≡ "Ready"
    → is_reason c.reason ≡ true
    → is_message c.message ≡ true
    → is_condition c ≡ true
unfolding is_condition
is_condition-Ready c type reason message = rw (type, reason, message) refl

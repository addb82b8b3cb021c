-- ===== src/Controller/Domain.antt =====
-- `replaceDotsWithDC` of operator/internal/controller/glauth_controller.go: an LDAP base DN from a
-- domain name.
pub mod Names
use Prim.Native.Char.{code}
use ninekube.Prelude.{String, ◌<>◌, ◌≡◌, refl, if◌then◌else◌}
use ninekube.Prelude.Order.{◌==◌}

-- The loop over the runes of the domain, from what it has built so far.
unfoldable pub replace_dots_from : String → String → String
replace_dots_from result String.[] = result
replace_dots_from result (String.◌∷◌ c rest) =
    replace_dots_from
      (if code c == b'.' then result <> ",dc=" else result <> String.◌∷◌ c String.[]) rest

unfoldable pub replace_dots_with_dc : String → String
unfolding replace_dots_from
replace_dots_with_dc domain = "dc=" <> replace_dots_from "" domain

three_labels : replace_dots_with_dc "a.example.com" ≡ "dc=a,dc=example,dc=com"
unfolding replace_dots_with_dc
three_labels = refl

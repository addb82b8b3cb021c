-- ===== src/Controller/Domain/Names.antt =====
-- What `replaceDotsWithDC` of operator/internal/controller/glauth_controller.go makes of a domain
-- that is put together from two.
use text.Mathlib.TextLemmas.{append-nil, nil-append, cons-append, append_assoc}
use ninekube.Prelude.{String, ◌<>◌, ◌≡◌, sym, ◌∙◌, ap, Bool, true, false, if◌then◌else◌}
use ninekube.Controller.Domain.{replace_dots_from, replace_dots_with_dc}

module _ (rest : String)
    (ih : (r : String) → replace_dots_from r rest ≡ r <> replace_dots_from "" rest) where
  from_both :
      (result x : String)
      → replace_dots_from (result <> x) rest ≡ result <> replace_dots_from x rest
  from_both result x =
      ih (result <> x) ∙ (append_assoc result x _ ∙ ap (λ y. result <> y) (sym (ih x)))

  from_piece :
      (result letter : String) (b : Bool)
      → replace_dots_from (if b then result <> ",dc=" else result <> letter) rest
        ≡ result <> replace_dots_from (if b then "" <> ",dc=" else "" <> letter) rest
  from_piece result letter true = from_both result ",dc="
  from_piece result letter false =
      from_both result letter
      ∙ ap (λ x. result <> replace_dots_from x rest) (sym (nil-append letter))

-- What was built so far stands in front.
from_lem : (s result : String) → replace_dots_from result s ≡ result <> replace_dots_from "" s
unfolding replace_dots_from
from_lem String.[] result = sym (append-nil result)
from_lem (String.◌∷◌ c rest) result =
    from_piece rest (from_lem rest) result (String.◌∷◌ c String.[]) _

from_append :
    (s result t : String)
    → replace_dots_from result (s <> t) ≡ replace_dots_from (replace_dots_from result s) t
unfolding replace_dots_from
from_append String.[] result t = ap (replace_dots_from result) (nil-append t)
from_append (String.◌∷◌ c rest) result t =
    ap (replace_dots_from result) (cons-append c rest t) ∙ from_append rest _ t

dot : (b : String) → replace_dots_from "" ("." <> b) ≡ "," <> ("dc=" <> replace_dots_from "" b)
unfolding replace_dots_from
dot b =
    ap (replace_dots_from "") (cons-append _ String.[] b)
    ∙ (ap (replace_dots_from ",dc=") (nil-append b)
        ∙ (from_lem b ",dc=" ∙ append_assoc "," "dc=" _))

-- The distinguished name of `a.b` is that of `a`, a comma, and that of `b`.
pub replace_dots_with_dc_dot :
    (a b : String)
    → replace_dots_with_dc (a <> ("." <> b))
      ≡ replace_dots_with_dc a <> ("," <> replace_dots_with_dc b)
unfolding replace_dots_with_dc
replace_dots_with_dc_dot a b =
    ap (λ x. "dc=" <> x)
      (from_append a "" ("." <> b)
        ∙ (from_lem ("." <> b) (replace_dots_from "" a)
            ∙ ap (λ x. replace_dots_from "" a <> x) (dot b)))
    ∙ sym (append_assoc "dc=" (replace_dots_from "" a) _)

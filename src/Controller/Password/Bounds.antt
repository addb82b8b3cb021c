-- ===== src/Controller/Password/Bounds.antt =====
-- What `generateRandomPassword` of operator/internal/controller/clientnamespace_controller.go gives.
use Prim.Native.Char.{Char, len_utf8}
use Prim.Native.String.{len}
use Prim.Native.String.len
use text.Mathlib.TextPositions.{len-append}
use text.Mathlib.TextLemmas.{nil-append, cons-append}
use ninekube.Prelude.{
  ℕ, zero, suc, ◌<◌, ◌+◌, String, ◌<>◌, ◌≡◌, ◌≢◌, refl, arith, ◌⊎◌, inl, inr, Bool, true, ◌&&◌,
}
use mathlib.Core.Path.{subst}
use ninekube.Prelude.Order.{◌==◌}
use ninekube.Exec.{Exec, Outcome, ok, err, panic, continue, pure, ◌>>=◌}
use ninekube.World.{World}
use ninekube.World.Lawful.{Lawful}
use ninekube.Controller.Password.{charset, char_at, generate_random_password}

abbrev pub IsIn : Char → String → Type 0
IsIn c String.[] = ⊥
IsIn c (String.◌∷◌ d s) = (c ≡ d) ⊎ IsIn c s

-- Every character is one of the charset.
abbrev pub IsDrawn : String → Type 0
IsDrawn String.[] = Unit
IsDrawn (String.◌∷◌ c s) = IsIn c charset × IsDrawn s

-- Every character takes one byte, so an index of bytes is one of characters.
unfoldable pub is_ascii : String → Bool
is_ascii String.[] = true
is_ascii (String.◌∷◌ c s) = (len_utf8 c == 1) && is_ascii s

len_cons :
    (c : Char) (s : String)
    → is_ascii (String.◌∷◌ c s) ≡ true
    → (len (String.◌∷◌ c s) ≡ 1 + len s) × (is_ascii s ≡ true)
unfolding is_ascii
len_cons c s h = ground (arith, len.cons c s)

-- Within the text there is a character, of one byte.
pub char_at-IsIn :
    {S : Type 0} (s : String) (i : ℕ) (t : S)
    → is_ascii s ≡ true
    → i < len s
    → (c : Char) × (char_at s i t ≡ (ok (String.◌∷◌ c String.[]), t))
      × IsIn c s
      × (len (String.◌∷◌ c String.[]) ≡ 1)
unfolding char_at pure is_ascii
char_at-IsIn String.[] i t ascii h = absurd (omega (arith, len.nil))
char_at-IsIn (String.◌∷◌ c s) zero t ascii h =
    (c, refl, inl refl, ground (arith, len.cons c String.[], len.nil))
char_at-IsIn (String.◌∷◌ c s) (suc i) t ascii h =
    let law = len_cons c s ascii in
    let (d, e, found, one) = char_at-IsIn s i t law.1 (omega arith) in (d, e, inr found, one)

pub charset-is_ascii : is_ascii charset ≡ true
unfolding is_ascii
charset-is_ascii = refl

pub charset-pos : 0 < len charset
charset-pos = omega arith

-- A password of the length, or an error, but no panic.
abbrev pub IsPassword : ℕ → Outcome String → Type 0
IsPassword n (ok p) = (len p ≡ n) × IsDrawn p
IsPassword n (err e) = Unit
IsPassword n panic = ⊥

-- One more character in front.
drawn_more :
    (n : ℕ) (c : Char) (p : String)
    → IsIn c charset
    → len (String.◌∷◌ c String.[]) ≡ 1
    → IsPassword n (ok p)
    → IsPassword (suc n) (ok (String.◌∷◌ c String.[] <> p))
drawn_more n c p found one (size, drawn) = (
  omega (arith, len-append (String.◌∷◌ c String.[]) p, one, size),
  rw (cons-append c String.[] p, nil-append p) (found, drawn),
)

continue-IsPassword :
    {S A : Type 0} (n : ℕ) (r : Outcome A) (f : A → Exec S String) (t : S)
    → r ≢ panic
    → ((a : A) → r ≡ ok a → IsPassword n (f a t).0)
    → IsPassword n (continue r f t).0
continue-IsPassword n (ok a) f t h k = k a refl
continue-IsPassword n (err e) f t h k = tt
continue-IsPassword n panic f t h k = h refl

not_panic : (n : ℕ) (r : Outcome String) → IsPassword n r → r ≢ panic
not_panic n (ok p) h e = cc
not_panic n (err m) h e = cc
not_panic n panic h e = h

module _ {W : World} (L : Lawful W) where
  -- With a source of randomness that may fail but does not panic where it is asked for a number
  -- below a positive bound, `generateRandomPassword` never panics: it gives an error, or a text of
  -- exactly the asked length whose characters are all of the charset.
  pub generate_random_password-IsPassword :
      (n : ℕ) (s : W.State)
      → ((m : ℕ) (t : W.State) → 0 < m → (W.rand_int m t).0 ≢ panic)
      → IsPassword n (generate_random_password W n s).0
  unfolding generate_random_password ◌>>=◌ pure
  generate_random_password-IsPassword zero s calm = (len.nil, tt)
  generate_random_password-IsPassword (suc n) s calm =
      continue-IsPassword (suc n) (W.rand_int (len charset) s).0 _ _ (calm _ s charset-pos)
        (λ i drawn.
          let t = (W.rand_int (len charset) s).1 in
          let (c, here, found, one) =
            char_at-IsIn charset i t charset-is_ascii (L.rand_int_lt _ s i drawn) in
          let rest = generate_random_password-IsPassword n t calm in
          rw here (
            continue-IsPassword (suc n) (generate_random_password W n t).0 _ _ (not_panic n _ rest)
              (λ p more. drawn_more n c p found one (subst (IsPassword n) more rest))))

-- ===== src/Progress/Room.antt =====
-- The condition that provisioning needs and keeps: no one else's object stands in the way of a step
-- that does not look for it, and what the steps read they can parse.
use ninekube.Prelude.{
  ℕ, String, ◌≡◌, ◌≢◌, refl, ◌∙◌, none, ◌<◌, inl, inr, Option-cases, ◌⊎◌, ap, true,
}
use ninekube.Exec.{
  Exec, got, failed, ok, err, is_not_found, pure, attempt, attempted, continue, Outcome, Error,
  total, ◌>>=◌,
}
use ninekube.Exec.Succeeds.{Succeeds, Ends}
use ninekube.Kube.{Key, Object, key_of, ingress_route_tcp_kind, secret_kind}
use ninekube.World.{World}
use ninekube.World.Lawful.{Lawful}
use ninekube.World.Grows.{Present}
use ninekube.World.Healthy.{Healthy, IsComplete}
use ninekube.Controller.Ensure.{key, on_missing, if_missing}

abbrev pub route_key : String → Key
route_key ns = key ingress_route_tcp_kind ns "glauth-ldaps"

abbrev pub ca_key : String → Key
ca_key ns = key secret_kind ns "ca"

-- An object that is neither the route nor the client's CA.
abbrev pub IsHarmless : String → Key → Type 0
IsHarmless ns k = (k ≢ route_key ns) × (k ≢ ca_key ns)

module _ {W : World} (L : Lawful W) where
  -- A condition on the objects only.
  abbrev pub IsObjectwise : (W.State → Type 0) → Type 0
  IsObjectwise I = (s t : W.State) → ((k : Key) → L.object t k ≡ L.object s k) → I s → I t

  -- The condition, and that the object of the key is not there.
  abbrev pub Missing : (W.State → Type 0) → Key → W.State → Type 0
  Missing I k s = I s × (L.object s k ≡ none)

  -- A condition that new objects of other keys do not disturb.
  pub record IsRoomy (ns : String) (I : W.State → Type 0) : Type 0 where
    pub objectwise : IsObjectwise I
    pub create :
        (o : Object) (s : W.State)
        → IsHarmless ns (key_of o)
        → I s
        → L.object s (key_of o) ≡ none
        → I (W.create o s).1

  pub Missing-objectwise :
      (I : W.State → Type 0) (k : Key) → IsObjectwise I → IsObjectwise (Missing I k)
  Missing-objectwise I k h s t same (i, gone) = (h s t same i, same k ∙ gone)

module _ {W : World} {L : Lawful W} (H : Healthy L) {I : W.State → Type 0}
    (h : IsObjectwise L I) where
  pub now-Ends : Ends I I (total W.now)
  unfolding total
  now-Ends = record { at = λ s i. (_, refl, tt, h s _ (L.now_same s) i) }

  pub rand_int-Succeeds : (n : ℕ) → 0 < n → Succeeds I I (λ i. i < n) (W.rand_int n)
  rand_int-Succeeds n pos = record {
    at = λ s i.
        let (a, e) = H.rand_int_done n s pos in
        (a, e, L.rand_int_lt n s a e, h s _ (L.rand_int_same n s) i);
  }

  pub generate_rsa_key-Ends : (n : ℕ) → Ends I I (W.generate_rsa_key n)
  generate_rsa_key-Ends n = record {
    at = λ s i.
        let (a, e) = H.generate_rsa_key_done n s in
        (a, e, tt, h s _ (L.generate_rsa_key_same n s) i);
  }

  -- A read gives the object or "not found", so `attempt` always goes on.
  pub get-Ends : (k : Key) → Ends I I (attempt (W.get k))
  unfolding attempt
  get-Ends k = record {
    at = λ s i.
        let kept = h s _ (L.get_same k s) i in
        elim (Option-cases (L.object s k)) [
          | inl gone ↦
              let (e, failing, _) = H.get_gone k s gone in
              (failed e, ap attempted failing, tt, kept)
          | inr (x, held) ↦ (got x, ap attempted (H.get_held k s x held), tt, kept)
        ];
  }

  -- A read of what is there.
  pub get_held-Ends : (k : Key) → ((s : W.State) → I s → Present L k s) → Ends I I (W.get k)
  get_held-Ends k there = record {
    at = λ s i.
        let (x, held) = there s i in (x, H.get_held k s x held, tt, h s _ (L.get_same k s) i);
  }

module _ {W : World} {L : Lawful W} (H : Healthy L) {ns : String} {I : W.State → Type 0}
    (room : IsRoomy L ns I) where
  pub create-Ends :
      (o : Object)
      → IsHarmless ns (key_of o)
      → IsComplete o.body
      → Ends (Missing L I (key_of o)) I (W.create o)
  create-Ends o harmless complete = record {
    at = λ s (i, gone). (tt, H.create_gone o s gone complete, tt, room.create o s harmless i gone);
  }

  on_missing-Ends :
      (k : Key) (absent : Exec W.State (Unit {0})) (r : Outcome Object) (t : W.State)
      → Ends (Missing L I k) I absent
      → I t
      → ((x : Object) × (r ≡ ok x))
        ⊎ ((e : Error) × (r ≡ err e) × (is_not_found e ≡ true) × (L.object t k ≡ none))
      → (u : Unit {0}) × ((continue (attempted r) (λ found. on_missing found absent) t).0 ≡ ok u)
        × Unit {0}
        × I (continue (attempted r) (λ found. on_missing found absent) t).1
  unfolding on_missing pure
  on_missing-Ends k absent r t ends i (inl (x, held)) = rw held (tt, refl, tt, i)
  on_missing-Ends k absent r t ends i (inr (e, failing, missing, gone)) =
      rw (failing, missing) (ends.at t (i, gone))

  pub if_missing-Ends :
      (k : Key) (absent : Exec W.State (Unit {0}))
      → Ends (Missing L I k) I absent
      → Ends I I (if_missing W k absent)
  unfolding if_missing ◌>>=◌ attempt
  if_missing-Ends k absent ends = record {
    at = λ s i.
        let same = L.get_same k s k in
        on_missing-Ends k absent (W.get k s).0 (W.get k s).1 ends
          (room.objectwise s _ (L.get_same k s) i)
          (elim (Option-cases (L.object s k)) [
            | inl gone ↦
                let (e, failing, missing) = H.get_gone k s gone in
                inr (e, failing, missing, same ∙ gone)
            | inr (x, held) ↦ inl (x, H.get_held k s x held)
          ]);
  }

  -- An object of its own key, where it is missing.
  pub ensure-Ends :
      (o : Object)
      → IsHarmless ns (key_of o)
      → IsComplete o.body
      → Ends I I (if_missing W (key_of o) (W.create o))
  ensure-Ends o harmless complete = if_missing-Ends (key_of o) _ (create-Ends o harmless complete)

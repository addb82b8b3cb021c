-- ===== src/Manager/Start.antt =====
-- What `main` of operator/cmd/main.go does with its flags, and how it starts.
use std.Path.{fun_ext}
use ninekube.Prelude.{String, ◌≡◌, refl, sym, ◌∙◌, ap, false, List, [], ◌∷◌, ◌++◌}
use ninekube.Exec.{
  Exec, Outcome, ok, err, Error, wrapped, pure, raise, attempt, continue, ◌>>=◌, ◌>>◌,
}
use ninekube.Manager.Options.{
  Flags, TlsConfig, disable_http2, tls_opts_of, metrics_options, webhook_options, manager_options,
  Runtime, exit_if_failed, or_exit, main,
}

-- A server runs its options over the configuration, one after the other.
abbrev pub applied : List (TlsConfig → TlsConfig) → TlsConfig → TlsConfig
applied [] c = c
applied (f ∷ fs) c = applied fs (f c)

-- Without --enable-http2, the options of the metrics server and of the webhook server leave of every
-- TLS configuration one that offers http/1.1 and nothing else.
pub manager_options-http1 :
    (flags : Flags) (c : TlsConfig)
    → flags.enable_http2 ≡ false
    → ((applied (manager_options flags).metrics.tls_opts c).next_protos ≡ "http/1.1" ∷ [])
      × ((applied (manager_options flags).webhook.tls_opts c).next_protos ≡ "http/1.1" ∷ [])
unfolding manager_options metrics_options webhook_options tls_opts_of disable_http2
manager_options-http1 flags c off = rw off (refl, refl)

module _ {S : Type 0} where
  -- The five steps, with the text that each one logs where it fails.
  unfoldable pub steps : Runtime S → Flags → List (String × Exec S (Unit {0}))
  steps r flags =
      ("Failed to start manager", r.new_manager (manager_options flags))
      ∷ ("Failed to create controller", r.setup_with_manager)
      ∷ ("Failed to set up health check", r.add_healthz_check)
      ∷ ("Failed to set up ready check", r.add_readyz_check)
      ∷ ("Failed to run manager", r.start)
      ∷ []

  -- Each of them returns without an error, and they lead from the one state to the other.
  abbrev pub Run : List (String × Exec S (Unit {0})) → S → S → Type 0
  Run [] s t = s ≡ t
  Run ((text, m) ∷ rest) s t = ((m s).0 ≡ ok tt) × Run rest (m s).1 t

  unfoldable run_steps : List (String × Exec S (Unit {0})) → Exec S (Unit {0})
  run_steps [] = pure tt
  run_steps ((text, m) ∷ rest) = or_exit text m >> run_steps rest

  or_exit_ok :
      (text : String) (m : Exec S (Unit {0})) (s : S)
      → (m s).0 ≡ ok tt
      → or_exit text m s ≡ (ok tt, (m s).1)
  unfolding or_exit exit_if_failed ◌>>=◌ attempt pure
  or_exit_ok text m s e = rw e

  or_exit_err :
      (text : String) (m : Exec S (Unit {0})) (s : S) (e : Error)
      → (m s).0 ≡ err e
      → or_exit text m s ≡ (err (wrapped text e), (m s).1)
  unfolding or_exit exit_if_failed ◌>>=◌ attempt raise
  or_exit_err text m s e h = rw h

  or_exit-last :
      (text : String) (m : Exec S (Unit {0})) (s : S)
      → (or_exit text m >> pure tt) s ≡ or_exit text m s
  unfolding ◌>>=◌ pure
  or_exit-last text m s = kept (or_exit text m s)
    where
      kept : (r : Outcome (Unit {0}) × S) → continue r.0 (λ _. pure tt) r.1 ≡ r
      kept (ok u, t) = refl
      kept (err e, t) = refl
      kept (Outcome.panic, t) = refl

  run_steps-stops :
      (before after : List (String × Exec S (Unit {0}))) (text : String) (m : Exec S (Unit {0}))
      (s t : S) (e : Error)
      → Run before s t
      → (m t).0 ≡ err e
      → run_steps (before ++ (text, m) ∷ after) s ≡ (err (wrapped text e), (m t).1)
  unfolding run_steps ◌>>=◌
  run_steps-stops [] after text m s t e here fails =
      rw here (ap (λ r. continue r.0 (λ _. run_steps after) r.1) (or_exit_err text m t e fails))
  run_steps-stops ((first, n) ∷ before) after text m s t e (done, run) fails =
      ap (λ r. continue r.0 (λ _. run_steps (before ++ (text, m) ∷ after)) r.1)
        (or_exit_ok first n s done)
      ∙ run_steps-stops before after text m (n s).1 t e run fails

  main-steps : (r : Runtime S) (flags : Flags) → main r flags ≡ run_steps (steps r flags)
  unfolding main run_steps steps
  main-steps r flags =
      ap
        (λ m.
          or_exit "Failed to start manager" (r.new_manager (manager_options flags))
          >> (or_exit "Failed to create controller" r.setup_with_manager
              >> (or_exit "Failed to set up health check" r.add_healthz_check
                  >> (or_exit "Failed to set up ready check" r.add_readyz_check >> m))))
        (sym (fun_ext (or_exit-last "Failed to run manager" r.start)))

  -- Where one of the five steps of the start fails, after those before it returned without an error,
  -- `main` ends with that step's error under its text, in the state that the step left: it runs
  -- nothing after it.
  pub main-stops :
      (r : Runtime S) (flags : Flags) (before after : List (String × Exec S (Unit {0})))
      (text : String) (m : Exec S (Unit {0})) (s t : S) (e : Error)
      → steps r flags ≡ before ++ (text, m) ∷ after
      → Run before s t
      → (m t).0 ≡ err e
      → main r flags s ≡ (err (wrapped text e), (m t).1)
  main-stops r flags before after text m s t e split run fails =
      ap (λ f. f s) (main-steps r flags)
      ∙ ap (λ l. run_steps l s) split
      ∙ run_steps-stops before after text m s t e run fails

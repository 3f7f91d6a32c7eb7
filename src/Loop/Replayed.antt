-- ===== src/Loop/Replayed.antt =====
-- The repair loop of src/pqpatch/loop.py over the backends of src/pqpatch/proposer/base.py.
use nesy_pqpatch.Prelude.{ℕ, ◌≡◌, ap, Text, true}
use mathlib.Core.Path.{fun_ext}
use nesy_pqpatch.Model.{Site, Context, Policy}
use nesy_pqpatch.Python.{Result}
use nesy_pqpatch.Verify.{Env}
use nesy_pqpatch.Cache.{CacheStore, Clock}
use nesy_pqpatch.Proposer.Backend.{Backend, Services, propose}
use nesy_pqpatch.Proposer.Backend.Offline.{with_generate, propose-offline}
use nesy_pqpatch.Loop.{Propose, Options, migrate_site}

-- The backend as the loop calls it: a proposal from a store that the run does not change. The clock
-- is given by the number of the attempt.
abbrev pub proposals : Services → Backend → CacheStore → (ℕ → Clock) → Propose
proposals services backend store clock context policy feedback attempt seed prompt_version =
    (propose services backend seed store (clock attempt) context policy feedback attempt
      prompt_version).1

module _ (services : Services) (backend : Backend)
    (generate_raw : Text → ℕ → Text → ℕ → Result (Text × ℕ)) (store : CacheStore)
    (clock clock' : ℕ → Clock) where
  proposals-offline :
      store.offline ≡ true
      → proposals services backend store clock
        ≡ proposals services (with_generate generate_raw backend) store clock'
  proposals-offline off = fun_ext (λ context. fun_ext (λ policy. fun_ext (λ feedback.
      fun_ext (λ attempt. fun_ext (λ seed. fun_ext (λ version.
        ap (λ r. r.1)
          (propose-offline services backend seed generate_raw store (clock attempt) (clock' attempt)
            context policy feedback attempt version off)))))))

  -- With the network off, a whole run of the loop gives the same verdict and the same trace, or
  -- raises the same, whatever a call of the model would give and whatever the clock of the cache
  -- says.
  pub migrate_site-offline :
      (env : ℕ → Env) (site : Site) (context : Context) (policy : Policy) (options : Options)
      → store.offline ≡ true
      → migrate_site services.sha256_hex
          (proposals services backend store clock)
          env
          site
          context
          policy
          options
        ≡ migrate_site services.sha256_hex
            (proposals services (with_generate generate_raw backend) store clock')
            env
            site
            context
            policy
            options
  migrate_site-offline env site context policy options off =
      ap (λ p. migrate_site services.sha256_hex p env site context policy options)
        (proposals-offline off)

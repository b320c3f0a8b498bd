-- ===== src/Agent/Config/Laws.antt =====
-- internal/config/config.go: what `Load` lets through, and that it is stable.
-- A configuration that the agent can run with.
use pingachock.Agent.Config.{
  save, refused, read, File, validated, Loaded, load, config, is_historical, validate,
  poll_interval_or_default, with_defaults, Config, max_concurrent_or_default,
}
use pingachock.Base.{
  true, some, inr, inl, Bool-cases, refl, arith, false, is_empty, Option, ◌≡◌, Bytes,
}
use pingachock.Base.Int.{negsuc, pos, not_positive, ℤ}

pub record IsRunnable (c : Config) : Type 0 where
  pub has_secret : is_empty c.node_secret ≡ false
  pub has_url : is_empty c.direct_url ≡ false
  pub polls : not_positive c.poll_interval_seconds ≡ false
  pub checks : not_positive c.max_concurrent_checks ≡ false
  pub not_old : is_historical c.max_concurrent_checks ≡ false

poll_interval-positive : (n : ℤ) → not_positive (poll_interval_or_default n) ≡ false
unfolding poll_interval_or_default
poll_interval-positive (pos n) = ground arith
poll_interval-positive (negsuc n) = refl

max_concurrent-fits :
    (n : ℤ)
    → (not_positive (max_concurrent_or_default n) ≡ false)
      × (is_historical (max_concurrent_or_default n) ≡ false)
unfolding max_concurrent_or_default
max_concurrent-fits (pos n) = ground arith
max_concurrent-fits (negsuc n) = (refl, refl)

pub with_defaults-IsRunnable :
    (c : Config)
    → is_empty c.node_secret ≡ false
    → is_empty c.direct_url ≡ false
    → IsRunnable (with_defaults c)
unfolding with_defaults
with_defaults-IsRunnable c s u = record {
  has_secret = s;
  has_url = u;
  polls = poll_interval-positive c.poll_interval_seconds;
  checks = (max_concurrent-fits c.max_concurrent_checks).0;
  not_old = (max_concurrent-fits c.max_concurrent_checks).1;
}

with_defaults-same : (c : Config) → IsRunnable c → with_defaults c ≡ c
unfolding with_defaults poll_interval_or_default max_concurrent_or_default
with_defaults-same c r = rw (r.polls, r.checks, r.not_old) refl

-- What holds of the configuration, where one is let through.
abbrev pub Passes : (Config → Type 0) → Loaded → Type 0
Passes P (config c) = P c
Passes P (refused e) = Unit

validate-IsRunnable : (c : Config) → Passes IsRunnable (validate c)
unfolding validate
validate-IsRunnable c = elim (Bool-cases (is_empty c.node_secret)) [
  | inl none_given ↦ rw none_given tt
  | inr secret ↦ elim (Bool-cases (is_empty c.direct_url)) [
    | inl none_given ↦ rw (secret, none_given) tt
    | inr url ↦ rw (secret, url) (with_defaults-IsRunnable c secret url)
  ]
]

validated-IsRunnable : (l : Loaded) → Passes IsRunnable (validated l)
unfolding validated
validated-IsRunnable (refused e) = tt
validated-IsRunnable (config c) = validate-IsRunnable c

validate-same : (c : Config) → IsRunnable c → validate c ≡ config c
unfolding validate
validate-same c r = rw (r.has_secret, r.has_url, with_defaults-same c r) refl

module _ (decode : Bytes → Option Config) where
  -- A configuration that `Load` lets through has a secret and a backend, a poll interval of at least a
  -- second, and a number of concurrent checks that is positive and not the former default of 10.
  pub load-IsRunnable : (f : File) → Passes IsRunnable (load decode f)
  unfolding load
  load-IsRunnable f = validated-IsRunnable (read decode f)

  -- Such a configuration is read back as it was saved, where the codec reads back what it writes.
  pub load-save :
      (encode : Config → Bytes) (c : Config) (old : File)
      → decode (encode c) ≡ some c
      → IsRunnable c
      → load decode (save encode true c old) ≡ config c
  unfolding load validated read save
  load-save encode c old e r = rw e (validate-same c r)

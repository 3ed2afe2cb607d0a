-- ===== src/Driver/Channel/Schemes.antt =====
-- The scheme of a channel (rust/src/connection/network/channel.rs).
use typedb_driver.Common.{
  ◌≡◌, refl, ap, ◌∙◌, ◌⊎◌, inl, inr, Bool, true, false, Option, none, some, Bytes, codes, Outcome,
  ok, err, ◌>>=◌, Outcome-cases, Option-cases, Bool-cases, unwrap, bytes_eq, ◌=?◌,
}
use typedb_driver.Errors.{Error, connection, scheme_tls_settings_mismatch}
use typedb_driver.Driver.Options.{DriverOptions, is_enabled}
use typedb_driver.Driver.Channel.{
  Parts, Uri, with_scheme, connection_scheme, check_scheme, with_tls, open_callcred_channel,
}

-- What the http crate documents: a URI that is made of parts has their scheme.
pub record UriLaws {A : Type 0} (uri : Uri A) : Type 0 where
  pub scheme_of_parts :
      (p : Parts uri.Rest) (u : uri.Value) → uri.from_parts p ≡ some u → uri.scheme u ≡ p.scheme

-- The scheme for a TLS configuration: https with one, http without.
abbrev pub expected_scheme : {N : Type 0} → Option N → Bytes
expected_scheme none = codes "http"
expected_scheme (some n) = codes "https"

-- Whether there is a TLS configuration.
abbrev pub has_tls : {N : Type 0} → Option N → Bool
has_tls none = false
has_tls (some n) = true

-- What is opened: an endpoint with the scheme that is expected, and the TLS configuration as it is.
abbrev pub IsSecured :
    {A N : Type 0} (uri : Uri A) → Option N → Outcome (Error A) (uri.Value × Option N) → Type 0
IsSecured uri config (ok opened) =
    (uri.scheme (opened.0) ≡ some (expected_scheme config)) × (opened.1 ≡ config)
IsSecured uri config _ = Unit

-- An address with another scheme of its own is refused with both, and any other address is opened as
-- `IsSecured` says, if it is.
abbrev pub IsOpening :
    {A N : Type 0} (uri : Uri A)
    → Option N
    → uri.Value
    → Outcome (Error A) (uri.Value × Option N)
    → Type 0
IsOpening uri config u outcome =
    ((own : Bytes) × (uri.scheme u ≡ some own)
      × ((own =? expected_scheme config) ≡ false)
      × (outcome ≡ err (connection (scheme_tls_settings_mismatch own (has_tls config)))))
    ⊎ (((uri.scheme u ≡ none) ⊎ (uri.scheme u ≡ some (expected_scheme config)))
        × IsSecured uri config outcome)

module _ {A : Type 0} {uri : Uri A} (laws : UriLaws uri) where
  unwrapped :
      (scheme : Bytes) (p : Parts uri.Rest) (o : Option uri.Value) (u : uri.Value)
      → p.scheme ≡ some scheme
      → uri.from_parts p ≡ o
      → unwrap {E = Error A} o ≡ ok u
      → uri.scheme u ≡ some scheme
  unwrapped scheme p none u h e got = cc
  unwrapped scheme p (some v) u h e got =
      (let same : v ≡ u = cc in laws.scheme_of_parts p u (e ∙ ap (λ x. some x) same) ∙ h)

  with_scheme-scheme :
      (scheme : Bytes) (u v : uri.Value)
      → with_scheme uri scheme u ≡ ok v
      → uri.scheme v ≡ some scheme
  unfolding with_scheme
  with_scheme-scheme scheme u v made = unwrapped scheme _ _ v refl refl made

  with_tls-IsSecured :
      {N : Type 0} (accept : N → Outcome (Error A) (Unit {0})) (v : uri.Value) (config : Option N)
      → uri.scheme v ≡ some (expected_scheme config)
      → IsSecured uri config (with_tls uri accept v config)
  with_tls-IsSecured accept v none h = (h, refl)
  with_tls-IsSecured accept v (some n) h = elim (Outcome-cases (accept n)) [
    | inl (u, took) ↦ rw took (h, refl)
    | inr (inl (x, failed)) ↦ rw failed tt
    | inr (inr unwound) ↦ rw unwound tt
  ]

  made-IsSecured :
      {N : Type 0} (accept : N → Outcome (Error A) (Unit {0})) (scheme : Bytes) (u : uri.Value)
      (config : Option N)
      → scheme ≡ expected_scheme config
      → IsSecured uri config (with_scheme uri scheme u >>= λ v. with_tls uri accept v config)
  made-IsSecured accept scheme u config same = elim (Outcome-cases (with_scheme uri scheme u)) [
    | inl (v, made) ↦ rw made (
        with_tls-IsSecured accept v config
          (with_scheme-scheme scheme u v made ∙ ap (λ x. some x) same))
    | inr (inl (x, failed)) ↦ rw failed tt
    | inr (inr unwound) ↦ rw unwound tt
  ]

  -- The scheme that the settings ask for, against the one that is expected.
  scheme-expected :
      {N : Type 0} (options : DriverOptions N)
      → connection_scheme uri (is_enabled options.tls_config)
        ≡ expected_scheme options.tls_config.network_config
  unfolding is_enabled
  scheme-expected options =
      elim options.tls_config.network_config
        as (λ o.
          connection_scheme uri (elim o [ none ↦ false | some _ ↦ true ]) ≡ expected_scheme o) [
            | none ↦ refl
            | some n ↦ refl
          ]

  enabled-has_tls :
      {N : Type 0} (options : DriverOptions N)
      → is_enabled options.tls_config ≡ has_tls options.tls_config.network_config
  unfolding is_enabled
  enabled-has_tls options =
      elim options.tls_config.network_config
        as (λ o. elim o [ none ↦ false | some _ ↦ true ] ≡ has_tls o) [
          | none ↦ refl
          | some n ↦ refl
        ]

  -- If a URI that is made of parts has their scheme, then an address whose own scheme is not the
  -- expected one, https with a TLS configuration and http without, is refused with the mismatch of
  -- its scheme and of whether there is a TLS configuration. For every other address the channel, if
  -- one is opened, is to an endpoint with the expected scheme and has the TLS configuration of the
  -- options.
  pub open_callcred_channel-IsOpening :
      {N : Type 0} (accept : N → Outcome (Error A) (Unit {0})) (u : uri.Value)
      (options : DriverOptions N)
      → IsOpening uri options.tls_config.network_config u
          (open_callcred_channel uri accept u options)
  unfolding open_callcred_channel check_scheme is_enabled
  open_callcred_channel-IsOpening accept u options =
      let same = scheme-expected options in
      let wanted = connection_scheme uri (is_enabled options.tls_config) in
      let config = options.tls_config.network_config in
      let rest = with_scheme uri wanted u >>= λ v. with_tls uri accept v config in
      let opened = made-IsSecured accept wanted u config same in
      let passed : check_scheme uri (is_enabled options.tls_config) u ≡ ok tt
          → open_callcred_channel uri accept u options ≡ rest =
        λ h. ap (λ o. o >>= λ _. rest) h in
      elim (Option-cases (uri.scheme u)) [
        | inl bare ↦ inr (inl bare, rw (passed (rw (bare, check_scheme) refl)) opened)
        | inr (own, has) ↦ elim (Bool-cases (own =? wanted)) [
          | inl agrees ↦ inr (
            inr (has ∙ ap (λ x. some x) ((bytes_eq.beq_iff own wanted).0 agrees ∙ same)),
            rw (passed (rw (has, agrees, check_scheme) refl)) opened,
          )
          | inr differs ↦
              (let refused : check_scheme uri (is_enabled options.tls_config) u
                    ≡ err (
                        connection
                          (scheme_tls_settings_mismatch own (is_enabled options.tls_config))) =
                  rw (has, differs, check_scheme) refl in
                inl (
                  own,
                  has,
                  rw (← same) differs,
                  ap (λ o. o >>= λ _. rest) refused
                      ∙ ap (λ b. err (connection (scheme_tls_settings_mismatch own b)))
                          (enabled-has_tls options),
                ))
        ]
      ]

-- ===== src/Config/Tests.antt =====
-- The built-in configuration and one that is valid, and the theorems at them.
use gokvx.Prelude.{String, true, false, Option, map, ◌≡◌, refl, [], ◌∷◌, none, some}
use gokvx.Kverr.Error.{FieldViolation}
use gokvx.Config.Types.{Config}
use gokvx.Config.Defaults.{defaults, default_auth, default_tls}
use gokvx.Prelude.Int.{pos}
use gokvx.Config.Checks.{
  Texts, require_value, require_one_of, require_positive, require_host_port, require_https_url,
  require_entries, require_non_negative, require_positive_float, times_ten, float_outside, ltz,
}
use gokvx.Config.Rules.{found, validate}
use gokvx.Config.Announce.{Urls, warnings, fsync_warnings, redacted}
use gokvx.Config.Announce.Safe.{warnings-Secure}
use gokvx.Config.Announce.Hidden.{IsHidden, redacted-IsHidden}
use gokvx.Config.Rules.{mode_enabled, fsync_always}
use gokvx.Config.Secure.{Secure, validate-Secure}
use gokvx.Config.Reports.{Reported, validate-Reported}

-- Text functions that find every address and every URL well formed.
abbrev texts : Texts
texts = record {
  split_host_port = λ a. some ("localhost", "1");
  parse_port = λ p. some 1;
  parse_url = λ u. some ("https", "host");
  parse_ip = λ h. none;
  trim_space = λ s. s;
  cut = λ s sep. none;
  quote = λ s. s;
  less = λ a b. false;
}

-- What the built-in configuration leaves to be configured.
defaults_found :
    map (λ (v : FieldViolation). v.field) (found texts defaults)
    ≡ "auth.jwt.issuer_url" ∷ "auth.jwt.jwks_url" ∷ "tls.allowed_client_sans" ∷ []
unfolding found require_value require_one_of require_positive require_host_port require_https_url
    require_entries require_non_negative require_positive_float times_ten float_outside
defaults_found = refl

abbrev configured : Config
configured = record defaults {
  auth = record default_auth {
    jwt = record default_auth.jwt {
      issuer_url = "https://issuer";
      jwks_url = "https://issuer/keys";
    };
  };
  tls = record default_tls { allowed_client_sans = "client" ∷ [] };
}

configured_valid : validate texts configured ≡ none
unfolding validate require_value require_one_of require_positive require_host_port require_https_url
    require_entries require_non_negative require_positive_float times_ten float_outside
configured_valid = refl

-- The product by 10 wraps around, so this heartbeat is no lower bound for an election of one tick.
wrapped_ticks : ltz (pos 1) (times_ten (pos 922337203685477581)) ≡ false
unfolding times_ten ltz
wrapped_ticks = refl

validate-Secure_example : Secure texts configured
validate-Secure_example = validate-Secure texts configured configured_valid

validate-Reported_example : Reported (found texts defaults) (validate texts defaults)
validate-Reported_example = validate-Reported texts defaults

no_warnings : warnings configured ≡ []
unfolding warnings fsync_warnings
no_warnings = refl

warnings-Secure_example :
    (configured.auth.mode ≡ mode_enabled)
    × (configured.tls.enabled ≡ true)
    × (configured.auth.insecure_allow_remote ≡ false)
    × (configured.storage.fsync ≡ fsync_always)
warnings-Secure_example = warnings-Secure texts configured configured_valid no_warnings

-- Every text is a URL here that consists of its user.
abbrev urls : Urls
urls = record {
  Url = Option String;
  Userinfo = String;
  parse = λ s. some (some s);
  user = λ u. u;
  with_user = λ i u. some i;
  redacted_user = "REDACTED";
  text = λ u. elim u [ none ↦ "" | some i ↦ i ];
}

redacted-IsHidden_example :
    IsHidden urls (redacted urls configured).auth.jwt.issuer_url
    × IsHidden urls (redacted urls configured).auth.jwt.jwks_url
    × IsHidden urls (redacted urls configured).observability.tracing.otlp_endpoint
    × (record (redacted urls configured) {
      auth = record (redacted urls configured).auth {
        jwt = record (redacted urls configured).auth.jwt {
          issuer_url = configured.auth.jwt.issuer_url;
          jwks_url = configured.auth.jwt.jwks_url;
        };
      };
      observability = record (redacted urls configured).observability {
        tracing = record (redacted urls configured).observability.tracing {
          otlp_endpoint = configured.observability.tracing.otlp_endpoint;
        };
      };
    }
        ≡ configured)
redacted-IsHidden_example = redacted-IsHidden urls configured (λ s w j i p q. (some i, refl, refl))

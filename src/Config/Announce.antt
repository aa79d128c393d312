-- ===== src/Config/Announce.antt =====
-- internal/config/report.go: the warnings about settings that weaken safety, and the copy of a
-- configuration that is safe to log. The functions of net/url are a parameter.
pub mod Safe
pub mod Hidden
use text.Mathlib.Text.{◌==◌}
use gokvx.Prelude.{
  String, Bool, true, false, not, if◌then◌else◌, List, [], ◌∷◌, ◌++◌, Option, none, some,
}
use gokvx.Config.Types.{Config}
use gokvx.Config.Rules.{mode_disabled, fsync_interval, fsync_os}

pub record Warning : Type 0 where
  pub setting : String
  pub consequence : String

abbrev pub warn_if : Bool → String → String → List Warning
warn_if b setting consequence =
    if b then record { setting = setting; consequence = consequence } ∷ [] else []

-- The switch on storage.fsync.
unfoldable pub fsync_warnings : Config → List Warning
fsync_warnings c =
    if c.storage.fsync == fsync_interval
    then record {
      setting = "storage.fsync=interval";
      consequence = "a crash can lose writes acknowledged within the last storage.fsync_interval";
    }
      ∷ []
    else warn_if (c.storage.fsync == fsync_os) "storage.fsync=os"
        "a crash can lose any acknowledged write the operating system has not flushed"

unfoldable pub warnings : Config → List Warning
unfolding fsync_warnings
warnings c =
    warn_if (c.auth.mode == mode_disabled) "auth.mode=disabled"
      "mutual TLS and token verification are off; any caller that can connect may read and write every key"
    ++ (warn_if c.auth.insecure_allow_remote "auth.insecure_allow_remote=true"
          "a node with authentication disabled may accept connections from the network"
        ++ (warn_if (not c.tls.enabled) "tls.enabled=false"
              "traffic is unencrypted and callers are not identified by certificate"
            ++ fsync_warnings c))

-- url.Parse, the field User, a URL with another user, url.User("REDACTED"), and URL.String.
pub record Urls : Type 1 where
  pub Url : Type 0
  pub Userinfo : Type 0
  pub parse : String → Option Url
  pub user : Url → Option Userinfo
  pub with_user : Userinfo → Url → Url
  pub redacted_user : Userinfo
  pub text : Url → String

module _ (urls : Urls) where
  -- redactURL, on what Parse answers and on the URL's user.
  abbrev pub redact_user : String → urls.Url → Option urls.Userinfo → String
  redact_user s u none = s
  redact_user s u (some _) = urls.text (urls.with_user urls.redacted_user u)

  abbrev pub redact_parsed : String → Option urls.Url → String
  redact_parsed s none = s
  redact_parsed s (some u) = redact_user s u (urls.user u)

  unfoldable pub redact_url : String → String
  redact_url s = redact_parsed s (urls.parse s)

  -- Redacted. A copied list is the same list here.
  unfoldable pub redacted : Config → Config
  unfolding redact_url
  redacted c = record c {
    auth = record c.auth {
      jwt = record c.auth.jwt {
        issuer_url = redact_url c.auth.jwt.issuer_url;
        jwks_url = redact_url c.auth.jwt.jwks_url;
      };
    };
    observability = record c.observability {
      tracing = record c.observability.tracing {
        otlp_endpoint = redact_url c.observability.tracing.otlp_endpoint;
      };
    };
  }

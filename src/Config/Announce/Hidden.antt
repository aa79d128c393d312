-- ===== src/Config/Announce/Hidden.antt =====
-- internal/config/report.go: what is left of credentials in URLs.
use gokvx.Prelude.{String, none, some, Option-cases, ◌≡◌, refl, ap, sym, ◌∙◌, ◌⊎◌, inl, inr}
use mathlib.Core.Path.{subst}
use gokvx.Config.Types.{Config}
use gokvx.Config.Announce.{Urls, redact_user, redact_parsed, redact_url, redacted}

-- The text is no URL, or one without a user, or with the user REDACTED.
abbrev pub IsHidden : Urls → String → Type 0
IsHidden urls s =
    (urls.parse s ≡ none)
    ⊎ ((u : urls.Url) × (urls.parse s ≡ some u)
        × ((urls.user u ≡ none) ⊎ (urls.user u ≡ some urls.redacted_user)))

-- What net/url documents of String: a URL that was read with a user is written with another user so
-- that it is read back with that one.
abbrev pub IsReadBack : Urls → Type 0
IsReadBack urls =
    (s : String) (w : urls.Url) (j i : urls.Userinfo)
    → urls.parse s ≡ some w
    → urls.user w ≡ some j
    → (v : urls.Url) × (urls.parse (urls.text (urls.with_user i w)) ≡ some v)
      × (urls.user v ≡ some i)

redact_url-IsHidden :
    (urls : Urls) → IsReadBack urls → (s : String) → IsHidden urls (redact_url urls s)
unfolding redact_url
redact_url-IsHidden urls back s = elim (Option-cases (urls.parse s)) [
  | inl e ↦ subst (IsHidden urls) (sym (ap (redact_parsed urls s) e)) (inl e)
  | inr (u, e) ↦ elim (Option-cases (urls.user u)) [
    | inl n ↦
        subst (IsHidden urls) (sym (ap (redact_parsed urls s) e ∙ ap (redact_user urls s u) n))
          (inr (u, e, inl n))
    | inr (i, n) ↦
        let (v, p, q) = back s u i urls.redacted_user e n in
        subst (IsHidden urls) (sym (ap (redact_parsed urls s) e ∙ ap (redact_user urls s u) n))
          (inr (v, p, inr q))
  ]
]

-- In the copy that Redacted makes, each of the three URL settings is no URL or has no user but
-- REDACTED, as far as net/url reads back a user that it has written; and with the three settings of
-- the original put back, the copy is the original.
pub redacted-IsHidden :
    (urls : Urls) (c : Config)
    → IsReadBack urls
    → IsHidden urls (redacted urls c).auth.jwt.issuer_url
      × IsHidden urls (redacted urls c).auth.jwt.jwks_url
      × IsHidden urls (redacted urls c).observability.tracing.otlp_endpoint
      × (record (redacted urls c) {
        auth = record (redacted urls c).auth {
          jwt = record (redacted urls c).auth.jwt {
            issuer_url = c.auth.jwt.issuer_url;
            jwks_url = c.auth.jwt.jwks_url;
          };
        };
        observability = record (redacted urls c).observability {
          tracing = record (redacted urls c).observability.tracing {
            otlp_endpoint = c.observability.tracing.otlp_endpoint;
          };
        };
      }
          ≡ c)
unfolding redacted
redacted-IsHidden urls c back = (
  redact_url-IsHidden urls back c.auth.jwt.issuer_url,
  redact_url-IsHidden urls back c.auth.jwt.jwks_url,
  redact_url-IsHidden urls back c.observability.tracing.otlp_endpoint,
  refl,
)

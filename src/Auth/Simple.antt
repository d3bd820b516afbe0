-- ===== src/Auth/Simple.antt =====
-- auth/external/external.go and auth/anonymous/anonymous.go: the mechanisms EXTERNAL and ANONYMOUS,
-- whose one response is an identity or a trace, with no credentials.
use imap_go.Auth.{Authenticator, Reply, answer, next_once}
use imap_go.Prelude.{Bool, [], Bytes, codes}

unfoldable pub start_external : Bytes → Bytes
start_external authz_id = authz_id

unfoldable pub start_anonymous : Bytes → Bytes
start_anonymous trace = trace

module _ {E : Type 0} where
  unfoldable pub next_external : Authenticator E → Bool → Bytes → Reply E × Bool
  next_external auth = next_once (λ authz_id. answer (auth (codes "EXTERNAL") authz_id []))

  unfoldable pub next_anonymous : Authenticator E → Bool → Bytes → Reply E × Bool
  next_anonymous auth = next_once (λ trace. answer (auth (codes "ANONYMOUS") trace []))

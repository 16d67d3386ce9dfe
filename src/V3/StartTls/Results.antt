-- ===== src/V3/StartTls/Results.antt =====
-- Which results the handler of 670 can have.
use libsrsirc.Base.{ℕ, some, none, Option}
use libsrsirc.Msg.Outcomes.{Gives, common, handler_rules}
use libsrsirc.Conn.{Sockets}
use libsrsirc.V3.Handlers.{V3State}
use libsrsirc.V3.Handlers.Results.{conclude-Gives}
use libsrsirc.V3.StartTls.{Tls, encrypted, sslized, with_ctx, handle_670}

module _ {W : Type 0} (s : Sockets W) (tls : Tls W) where
  encrypted-Gives : (v : V3State W) → Gives common (encrypted s tls v)
  unfolding encrypted
  encrypted-Gives v = search (handler_rules, conclude-Gives)

  sslized-Gives : (v : V3State W) (p : W × Option ℕ) → Gives common (sslized s tls v p)
  unfolding sslized
  sslized-Gives v (w, none) = search (handler_rules)
  sslized-Gives v (w, some k) = search (handler_rules, encrypted-Gives)

  with_ctx-Gives : (v : V3State W) (p : W × Option ℕ) → Gives common (with_ctx s tls v p)
  unfolding with_ctx
  with_ctx-Gives v (w, none) = search (handler_rules)
  with_ctx-Gives v (w, some k) = search (sslized-Gives)

  pub handle_670-Gives : (v : V3State W) → Gives common (handle_670 s tls v)
  unfolding handle_670
  handle_670-Gives v = search (handler_rules, with_ctx-Gives)

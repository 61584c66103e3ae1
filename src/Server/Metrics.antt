-- ===== src/Server/Metrics.antt =====
-- metricsInterceptor of services/wallet/metrics.go, around every handler of the gRPC server.
use Prim.Native.Char.{code}
use Prim.Native.String.{[] as no_text, ◌∷◌ as text_cons}
use wallet_ledger.Base.{String, Option, none, some, ◌≡◌, refl, ◌∷◌, ◌==◌, if◌then◌else◌}
use wallet_ledger.Server.{okay, Reply, reply, refuse, crash, Server}

-- What follows the last slash of a text, if there is one.
unfoldable pub after_slash : String → Option String
after_slash no_text = none
after_slash (text_cons c s) = elim (after_slash s) [
  | none ↦ if code c == b'/' then some s else none
  | some t ↦ some t
]

-- path.Base of a name with no slash at its end.
unfoldable pub base : String → String
unfolding after_slash
base s = elim (after_slash s) [ none ↦ s | some t ↦ t ]

module _ {A : Type 0} where
  -- status.Code(err).String(); a panic of the handler passes by the count.
  unfoldable pub counted : String → Reply A → Server → Server
  counted method (reply a) s = record s { grpc_requests = (method, okay) ∷ s.grpc_requests }
  counted method (refuse e) s = record s { grpc_requests = (method, e.code) ∷ s.grpc_requests }
  counted method crash s = s

  unfoldable pub metrics_interceptor :
      String → (Server → Reply A × Server) → Server → Reply A × Server
  unfolding base counted
  metrics_interceptor full_method handler s =
      let (r, s') = handler s in (r, counted (base full_method) r s')

  counted-world :
      (method : String) (r : Reply A) (s : Server) → (counted method r s).world ≡ s.world
  unfolding counted
  counted-world method (reply a) s = refl
  counted-world method (refuse e) s = refl
  counted-world method crash s = refl

  -- The interceptor leaves the answer and the database session to the handler.
  pub interceptor-world :
      (full_method : String) (handler : Server → Reply A × Server) (s : Server)
      → (metrics_interceptor full_method handler s).1.world ≡ (handler s).1.world
  unfolding metrics_interceptor
  interceptor-world full_method handler s =
      counted-world (base full_method) (handler s).0 (handler s).1

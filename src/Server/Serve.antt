-- ===== src/Server/Serve.antt =====
-- `NewServer`, `Start` and `Stop` of server.go. A gRPC server is what this code sets of it.
-- `net.Listen` is a parameter, by the listeners that the process has open; so is what `Serve` of each
-- gRPC server comes to. `Start` and its two
-- goroutines meet at an unbuffered channel: a turn of a goroutine is its next step, and a goroutine
-- that nobody receives from waits where it sends.
pub mod Sound
pub mod Begun
pub mod Turns
pub mod Received
pub mod Blocked
use example_envoy_xds.Base.{
  ℕ, List, [], ◌∷◌, ◌++◌, Text, codes, Option, none, some, Result, ok, err, Bool, false, true,
}
use example_envoy_xds.Server.{ServerOpt, ServerOptFunc, new_server_opt}

-- the services that are registered on a `grpc.Server`
pub data Service : Type 0 where
  cluster_discovery endpoint_discovery listener_discovery route_discovery : Service
  aggregated_discovery runtime_discovery secret_discovery access_log : Service

pub record GrpcServer : Type 0 where
  pub max_concurrent_streams : ℕ
  pub services : List Service
  pub stopped : Bool

pub record Server : Type 0 where
  pub opt : ServerOpt
  pub xds_svr : GrpcServer
  pub als_svr : GrpcServer

unfoldable pub new_grpc_server : ℕ → GrpcServer
new_grpc_server n = record { max_concurrent_streams = n; services = []; stopped = false }

-- the end of `NewServer`; the two handlers keep nothing that this file looks at
unfoldable pub server_with : ServerOpt → Server
unfolding new_grpc_server
server_with opt = record {
  opt = opt;
  xds_svr = new_grpc_server opt.max_concurrent_streams;
  als_svr = new_grpc_server opt.max_concurrent_streams;
}

-- `NewServer`
unfoldable pub new_server : List ServerOptFunc → Server
unfolding server_with
new_server funcs = server_with (new_server_opt funcs)

unfoldable pub register : Service → GrpcServer → GrpcServer
register service svr = record svr { services = svr.services ++ (service ∷ []) }

unfoldable pub register_xds_service : Server → Server
unfolding register
register_xds_service s = record s {
  xds_svr = register secret_discovery (
      register runtime_discovery (
        register aggregated_discovery (
          register route_discovery (
            register listener_discovery
              (register endpoint_discovery (register cluster_discovery s.xds_svr))))));
}

unfoldable pub register_als_service : Server → Server
unfolding register
register_als_service s = record s { als_svr = register access_log s.als_svr }

-- the listeners that the process has open, and the lines of its log, each with the newest first
pub record Process (L : Type 0) : Type 0 where
  pub listeners : List L
  pub log : List Text

abbrev pub print : {L : Type 0} → Text → Process L → Process L
print line q = record q { log = line ∷ q.log }

-- `Stop`, which returns `nil`
unfoldable pub stop : {L : Type 0} → Server → Process L → Server × Process L
stop s q = (
  record s {
    xds_svr = record s.xds_svr { stopped = true };
    als_svr = record s.als_svr { stopped = true };
  },
  print (codes "info: stop grpc server") q,
)

module _ {E L : Type 0} (error_text : E → Text) (net_listen : List L → Text → Result E L) where
  -- the two branches after `net.Listen`
  unfoldable pub listened : Text → Result E L → Process L → Process L × Result E L
  listened addr (ok listener) q = (record q { listeners = listener ∷ q.listeners }, ok listener)
  listened addr (err e) q =
      (print (codes "error: addr '" ++ addr ++ codes "' listen error: " ++ error_text e) q, err e)

  unfoldable pub listen_xds : Server → Process L → Process L × Result E L
  unfolding listened
  listen_xds s q =
      let addr = s.opt.xds_listen_addr in
      listened addr (net_listen q.listeners addr)
        (print (codes "info: xds server listen: " ++ addr) q)

  unfoldable pub listen_als : Server → Process L → Process L × Result E L
  unfolding listened
  listen_als s q =
      let addr = s.opt.als_listen_addr in
      listened addr (net_listen q.listeners addr)
        (print (codes "info: als server listen: " ++ addr) q)

  -- `Start` after its second listen
  unfoldable pub with_als :
      Server → L → Process L × Result E L → Server × Process L × Result E (L × L)
  unfolding register_xds_service register_als_service
  with_als s x (q, err e) = (s, q, err e)
  with_als s x (q, ok a) = (register_als_service (register_xds_service s), q, ok (x, a))

  -- `Start` after its first listen
  unfoldable pub with_xds : Server → Process L × Result E L → Server × Process L × Result E (L × L)
  unfolding listen_als with_als
  with_xds s (q, err e) = (s, q, err e)
  with_xds s (q, ok x) = with_als s x (listen_als s q)

  -- `Start` up to its goroutines
  unfoldable pub begin : Server → Process L → Server × Process L × Result E (L × L)
  unfolding listen_xds with_xds
  begin s q = with_xds s (listen_xds s q)

pub data Which : Type 0 where
  xds als : Which

-- what a call of `Serve` comes to: it may never return, and it returns `nil` or an error
pub data Serve (E : Type 0) : Type 0 where
  never : Serve E
  returns : Option E → Serve E

-- where a goroutine is: in `Serve`, at `errors <- err`, or at its end
pub data Goroutine (E : Type 0) : Type 0 where
  serving : Goroutine E
  sending : E → Goroutine E
  finished : Goroutine E

-- the two goroutines, what `Start` has received, which is what it returns, and the log
pub record Serving (E : Type 0) : Type 0 where
  pub xds : Goroutine E
  pub als : Goroutine E
  pub received : Option E
  pub log : List Text

module _ {E : Type 0} where
  abbrev pub at : Which → Serving E → Goroutine E
  at Which.xds s = s.xds
  at Which.als s = s.als

  abbrev pub put : Which → Goroutine E → Serving E → Serving E
  put Which.xds g s = record s { xds = g }
  put Which.als g s = record s { als = g }

  -- the one receive of `Start` takes the first error that is offered
  unfoldable pub send : Which → E → Option E → Serving E → Serving E
  send w e none s = record (put w finished s) { received = some e }
  send w e (some f) s = s

  module _ (error_text : E → Text) (serve : Which → Serve E) where
    abbrev pub serve_error : Which → E → Text
    serve_error Which.xds e = codes "error: xds serve error: " ++ error_text e
    serve_error Which.als e = codes "error: als serve error: " ++ error_text e

    unfoldable pub advance : Which → Goroutine E → Serve E → Serving E → Serving E
    unfolding send
    advance w serving never s = s
    advance w serving (returns none) s = put w finished s
    advance w serving (returns (some e)) s =
        put w (sending e) (record s { log = serve_error w e ∷ s.log })
    advance w (sending e) result s = send w e s.received s
    advance w finished result s = s

    -- the goroutines after some turns, in any order
    unfoldable pub turns : List Which → Serving E → Serving E
    unfolding advance
    turns [] s = s
    turns (w ∷ ws) s = turns ws (advance w (at w s) (serve w) s)

  abbrev pub launched : List Text → Serving E
  launched log = record { xds = serving; als = serving; received = none; log = log }

module _ {E L : Type 0} (error_text : E → Text) (serve : Which → Serve E) where
  -- what `Start` has returned after some turns of its goroutines; `none` while it waits
  unfoldable pub started : List Which → List Text → Result E (L × L) → Option E
  unfolding turns
  started ws log (err e) = some e
  started ws log (ok both) = (turns error_text serve ws (launched log)).received

  unfoldable pub start : (List L → Text → Result E L) → Server → Process L → List Which → Option E
  unfolding begin started
  start net_listen s q ws = let (s', q', r) = begin error_text net_listen s q in started ws q'.log r

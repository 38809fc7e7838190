-- ===== src/Server/ServeTests.antt =====
-- Tests of the gRPC servers and of the end of the program.
use example_envoy_xds.Base.{
  List, [], ◌∷◌, Text, codes, text_eq, none, some, Result, ok, err, apply_all, if◌then◌else◌, ◌≡◌,
  refl, ◌⊎◌, arith,
}
use example_envoy_xds.Samples.{sample_env, sample_reads, sample_proto}
use example_envoy_xds.Watch.World.{Reads}
use example_envoy_xds.Server.{
  Signal, hup, term, max_concurrent_streams, als_listen_addr, init_opt, new_server_opt,
}
use example_envoy_xds.Server.Tests.{flags, started, server_action-started}
use example_envoy_xds.Server.Serve.{
  Which, Serve, returns, Server, Process, new_server, server_with, begin, listened, listen_xds,
  listen_als, with_xds, with_als, start, turns, launched, sending, finished, advance,
}
use example_envoy_xds.Server.Serve
use example_envoy_xds.Server.Serve.Begun.{IsUnopened, IsHalfOpen, IsOpen, begin-Begun}
use example_envoy_xds.Server.Serve.Received.{IsCause, start-received, start-IsCause}
use example_envoy_xds.Server.Serve.Blocked.{turns-one_waits}
use example_envoy_xds.Server.Lifecycle.{main_action, IsDone, main_action-IsDone}

-- an address can be listened on once
abbrev net_listen : List Text → Text → Result Text Text
net_listen [] addr = ok addr
net_listen (a ∷ others) addr =
    let rest = net_listen others addr in if text_eq a addr then err (codes "in use") else rest

abbrev fresh : Process Text
fresh = record { listeners = []; log = [] }

abbrev svr : Server
svr = new_server (max_concurrent_streams 10 ∷ [])

-- both servers on one address
abbrev clash : Server
clash = new_server (als_listen_addr (codes "[0.0.0.0]:8000") ∷ [])

-- both servers fail
abbrev serve : Which → Serve Text
serve Which.xds = returns (some (codes "xds"))
serve Which.als = returns (some (codes "als"))

abbrev order : List Which
order = Which.als ∷ Which.xds ∷ Which.xds ∷ Which.als ∷ []

begin-Begun_example :
    IsUnopened (λ e. e) net_listen clash fresh (begin (λ e. e) net_listen clash fresh)
    ⊎ IsHalfOpen (λ e. e) net_listen clash fresh (begin (λ e. e) net_listen clash fresh)
    ⊎ IsOpen (λ e. e) net_listen clash fresh (begin (λ e. e) net_listen clash fresh)
begin-Begun_example = begin-Begun (λ e. e) net_listen clash fresh

start-received_example : (f : Text) × (start (λ e. e) serve net_listen svr fresh order ≡ some f)
start-received_example =
    start-received (λ e. e) net_listen serve svr fresh order Which.als (codes "als") refl
      (omega arith)

clash-start : start (λ e. e) serve net_listen clash fresh [] ≡ some (codes "in use")
unfolding start Serve.started begin listen_xds listen_als listened with_xds with_als new_server
    server_with new_server_opt init_opt als_listen_addr text_eq apply_all
clash-start = refl

start-IsCause_example : IsCause (λ e. e) net_listen serve clash fresh (codes "in use")
start-IsCause_example =
    start-IsCause (λ e. e) net_listen serve clash fresh [] (codes "in use") clash-start

turns-one_waits_example :
    (((turns (λ e. e) serve order (launched [])).xds ≡ finished)
      × ((turns (λ e. e) serve order (launched [])).als ≡ sending (codes "als")))
    ⊎ (((turns (λ e. e) serve order (launched [])).xds ≡ sending (codes "xds"))
        × ((turns (λ e. e) serve order (launched [])).als ≡ finished))
turns-one_waits_example =
    turns-one_waits (λ e. e) serve (codes "xds") (codes "als") order [] refl refl (omega arith)
      (omega arith)

abbrev signals : List (Signal × Reads sample_proto)
signals = (hup, sample_reads) ∷ (term, sample_reads) ∷ []

main_action-IsDone_example : IsDone sample_env Text signals started.wf (
    main_action sample_env Text
      (ok (codes "node"))
      flags
      sample_reads
      none
      (λ path. none)
      fresh
      signals)
main_action-IsDone_example =
    main_action-IsDone sample_env Text (ok (codes "node")) flags sample_reads none (λ path. none)
      fresh signals started server_action-started

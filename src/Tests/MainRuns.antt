-- ===== src/Tests/MainRuns.antt =====
-- The multi-worker server from its command line on, on the small kernel.
use linux_tcp_servers.Common.{pos, refl, [], ◌∷◌, true}
use linux_tcp_servers.Os.{Io, eagain}
use linux_tcp_servers.Connection.History.{received, sent}
use linux_tcp_servers.Server.{launch, server}
use linux_tcp_servers.Server.Start.{IsBlank, IsStarted, launch-IsStarted}
use linux_tcp_servers.Tests.Net.{
  Net, net, Opened, Watched, waiting, queue_limit, net-Kernel, net-Sockets,
}

-- Descriptors 0 to 2 are open, and two clients wait.
abbrev started : Io Net
started = record {
  world = record { clients = 2; next = 3; inbox = 7 ∷ 8 ∷ []; watching = [] };
  errno = eagain;
  trace = [];
}

started-IsBlank : IsBlank net Opened Watched waiting queue_limit net-Kernel net-Sockets started
unfolding received sent
started-IsBlank = record { unheard = λ k. (refl, refl); unwatched = λ d o. o }

launch-IsStarted_example :
    IsStarted net Opened Watched waiting queue_limit net-Kernel net-Sockets 4
      (launch net (server "1606" (pos 50) 4 true) started)
launch-IsStarted_example =
    launch-IsStarted net Opened Watched waiting queue_limit net-Kernel net-Sockets "1606" (pos 50) 4
      true started started-IsBlank

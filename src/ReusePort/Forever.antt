-- ===== src/ReusePort/Forever.antt =====
-- The end of a client's stream in the copied `epoll_event_loop`.
use linux_tcp_servers.Common.{ℕ, zero, suc, ℤ, ◌≡◌, refl, List, [], out_of_fuel, repeat}
use linux_tcp_servers.Os.{Os, Io, returned}
use linux_tcp_servers.Descriptor.{FdClass}
use linux_tcp_servers.EventLoop.{chunk_size}
use linux_tcp_servers.ReusePort.{handle_chunks}

module _ {W Fd : Type 0} (os : Os W) (cls : FdClass W Fd) (server_sfd epoll_fd : Fd)
    (read_handler : List ℕ → Io W → Io W) (n : ℤ) where
  -- Whatever the handler does: once every `read` of a client finds the end of its stream, the loop
  -- never ends, for no bound on its rounds is enough.
  pub handle_chunks_forever :
      (fuel : ℕ) (io : Io W)
      → ((w : W) → (os.read w n chunk_size).0 ≡ returned [])
      → handle_chunks os cls server_sfd epoll_fd read_handler fuel n io ≡ out_of_fuel
  unfolding handle_chunks repeat
  handle_chunks_forever zero io eof = refl
  handle_chunks_forever (suc fuel) io eof = rw (eof io.world) (handle_chunks_forever fuel _ eof)

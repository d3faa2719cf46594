-- ===== src/Select.antt =====
-- src/servers/nonblocking_io_multiplexing_select_server.cpp: the loop around `select`. A descriptor set
-- is the list of its members; FD_SET of a descriptor that the set has no bit for is undefined. The set
-- for writing is only cleared, never passed on.
pub mod Sets
pub mod Ends
pub mod Covered
pub mod Accepts
pub mod Echoes
pub mod Rounds
pub mod Main
pub mod Serving
use Prim.Native.String.{String}
use linux_tcp_servers.Common.{
  ℕ, zero, suc, ℤ, pos, negsuc, min, max, ◌-◌, ◌==◌, ltb, ◌==ℤ◌, if◌then◌else◌, not, Bool, true,
  false, ◌||◌, ◌&&◌, List, [], ◌∷◌, length, Result, leaving, ok, thrown, undefined, out_of_bounds,
  ◌>>=◌, Step, continue, break, repeat,
}
use linux_tcp_servers.Os.{
  Os, Io, Reply, returned, failed, would_block, sys_accept, sys_read, sys_write, sys_select,
}
use linux_tcp_servers.Setup.{as_int}
use linux_tcp_servers.Descriptor.{FdClass}

abbrev pub fd_setsize : ℕ
fd_setsize = 1024

-- BUFF_SIZE
abbrev pub buff_size : ℕ
buff_size = 1000

unfoldable pub fd_isset : ℕ → List ℕ → Bool
fd_isset n [] = false
fd_isset n (m ∷ ms) = (n == m) || fd_isset n ms

abbrev pub fd_set : {E : Type 0} → ℤ → List ℕ → Result E (List ℕ)
fd_set (pos n) set = if ltb n fd_setsize then ok (n ∷ set) else undefined out_of_bounds
fd_set (negsuc n) set = undefined out_of_bounds

unfoldable pub fd_clr : ℕ → List ℕ → List ℕ
fd_clr n [] = []
fd_clr n (m ∷ ms) = let rest = fd_clr n ms in if n == m then rest else m ∷ rest

abbrev pub max_int : ℤ → ℤ → ℤ
max_int (pos a) (pos b) = pos (max a b)
max_int (pos a) (negsuc b) = pos a
max_int (negsuc a) (pos b) = pos b
max_int (negsuc a) (negsuc b) = negsuc (min a b)

-- `for (max_sfd -= 1; max_sfd >= 0 and !FD_ISSET(max_sfd, ...); --max_sfd) {}`, from `max_sfd = i`.
unfoldable pub lower_max : ℕ → List ℕ → ℤ
lower_max zero set = negsuc 0
lower_max (suc n) set = let rest = lower_max n set in if fd_isset n set then pos n else rest

pub record Select (W : Type 0) : Type 0 where
  pub io : Io W
  pub max_sfd : ℤ
  pub read_fd_backup_set : List ℕ
  pub write_fd_backup_set : List ℕ

-- Where the scan of the ready descriptors stands.
pub record Scan (W : Type 0) : Type 0 where
  pub index : ℕ
  pub sfd_ready_no : ℕ
  pub server : Select W

pub record Accepting (W Fd : Type 0) : Type 0 where
  pub server : Select W
  pub client_sfd : Fd

module _ {W Fd : Type 0} (os : Os W) (cls : FdClass W Fd) (server_sfd : Fd) where
  abbrev pub add_client :
      Accepting W Fd → Result (String × Accepting W Fd) (Step (Accepting W Fd) (Accepting W Fd))
  add_client a = fd_set (cls.get_fd a.client_sfd) a.server.read_fd_backup_set >>= λ set. ok (
      continue (record a {
        server = record a.server {
          read_fd_backup_set = set;
          max_sfd = max_int a.server.max_sfd (cls.get_fd a.client_sfd);
        };
      }))

  abbrev pub no_client :
      Accepting W Fd → Result (String × Accepting W Fd) (Step (Accepting W Fd) (Accepting W Fd))
  no_client a =
      if would_block a.server.io.errno
      then ok (break a)
      else thrown ("Could not accept a new connection", a)

  abbrev pub accepted :
      Accepting W Fd
      → (Bool × Fd) × Io W
      → Result (String × Accepting W Fd) (Step (Accepting W Fd) (Accepting W Fd))
  accepted a ((good, client), io) =
      let b = record a { client_sfd = client; server = record a.server { io = io } } in
      if good then add_client b else no_client b

  abbrev pub accept_body :
      Accepting W Fd → Result (String × Accepting W Fd) (Step (Accepting W Fd) (Accepting W Fd))
  accept_body a =
      let (r, io) = sys_accept os (cls.get_fd server_sfd) true a.server.io in
      accepted a (cls.set_fd (as_int r) a.client_sfd io)

  -- The end of the scope of `client_sfd`.
  abbrev pub drop_accepting : Accepting W Fd → Io W
  drop_accepting a = cls.destroy a.client_sfd a.server.io

  -- The listening socket is readable.
  abbrev pub accept_all : ℕ → Select W → Result (String × Io W) (Select W)
  accept_all fuel s =
      leaving (λ x. (x.0, drop_accepting x.1)) (λ a. record a.server { io = drop_accepting a })
        (repeat fuel accept_body (record { server = s; client_sfd = cls.empty }))

  -- The loop leaves with `connection_is_closed`.
  abbrev pub after_echo_write : Reply ℕ × Io W → Result (String × Io W) (Step (Io W) (Bool × Io W))
  after_echo_write (returned n, io) = ok (continue io)
  after_echo_write (failed e, io) = ok (break (not (would_block io.errno), io))

  abbrev pub after_client_read :
      Fd → Reply (List ℕ) × Io W → Result (String × Io W) (Step (Io W) (Bool × Io W))
  after_client_read client (failed e, io) = ok (break (not (would_block io.errno), io))
  after_client_read client (returned [], io) = ok (break (true, io))
  after_client_read client (returned (b ∷ bytes), io) =
      after_echo_write (sys_write os (cls.get_fd client) (b ∷ bytes) io)

  abbrev pub echo_body : ℕ → Io W → Result (String × Io W) (Step (Io W) (Bool × Io W))
  echo_body i io = after_client_read (cls.holding (pos i)) (sys_read os (pos i) buff_size io)

  abbrev pub forget : ℕ → Select W → Select W
  forget i s =
      let set = fd_clr i s.read_fd_backup_set in
      record s {
        read_fd_backup_set = set;
        write_fd_backup_set = fd_clr i s.write_fd_backup_set;
        max_sfd = if pos i ==ℤ s.max_sfd then lower_max i set else s.max_sfd;
      }

  abbrev pub after_echo : ℕ → Select W → Bool × Io W → Select W
  after_echo i s (false, io) = record s { io = cls.destroy (cls.holding (pos i)) io }
  after_echo i s (true, io) =
      let (client, io') = cls.close_fd (cls.holding (pos i)) io in
      forget i (record s { io = cls.destroy client io' })

  -- A client's socket is readable.
  abbrev pub serve_client : ℕ → ℕ → Select W → Result (String × Io W) (Select W)
  serve_client fuel i s = repeat fuel (echo_body i) s.io >>= λ e. ok (after_echo i s e)

  abbrev pub handle_ready : ℕ → ℕ → Select W → Result (String × Io W) (Select W)
  handle_ready fuel i s =
      if cls.get_fd server_sfd ==ℤ pos i then accept_all fuel s else serve_client fuel i s

  -- `i <= max_sfd`
  abbrev pub within : ℕ → ℤ → Bool
  within i (pos m) = ltb i (suc m)
  within i (negsuc m) = false

  abbrev pub scan_body : ℕ → List ℕ → Scan W → Result (String × Io W) (Step (Scan W) (Select W))
  scan_body fuel ready c =
      if within c.index c.server.max_sfd && ltb 0 c.sfd_ready_no
      then (if fd_isset c.index ready
          then (handle_ready fuel c.index c.server >>= λ s. ok (
              continue
                (record { index = suc c.index; sfd_ready_no = c.sfd_ready_no - 1; server = s })))
          else ok (continue (record c { index = suc c.index })))
      else ok (break c.server)

  -- The scan of what `select` has found ready.
  unfoldable pub scan : ℕ → List ℕ → Select W → Result (String × Io W) (Select W)
  scan fuel ready s =
      repeat fuel (scan_body fuel ready)
        (record { index = 0; sfd_ready_no = length ready; server = s })

  -- `max_sfd + 1`
  abbrev pub nfds : ℤ → ℕ
  nfds (pos m) = suc m
  nfds (negsuc m) = 0

  abbrev pub after_select : ℕ → Select W → Reply (List ℕ) × Io W → Result (String × Io W) (Select W)
  after_select fuel s (failed e, io) = thrown ("select() failed", io)
  after_select fuel s (returned ready, io) = scan fuel ready (record s { io = io })

  -- One round of the server's loop.
  unfoldable pub select_round : ℕ → Select W → Result (String × Io W) (Select W)
  select_round fuel s =
      after_select fuel s (sys_select os (nfds s.max_sfd) s.read_fd_backup_set s.io)

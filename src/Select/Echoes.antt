-- ===== src/Select/Echoes.antt =====
-- `max_sfd` and the traffic where the socket of a client is readable.
use Prim.Native.String.{String}
use linux_tcp_servers.Common.{
  ℕ, ℤ, subst, sym, pos, ◌<◌, ◌≡◌, ◌==ℤ◌, if_rule, Bool, true, false, List, [], ◌∷◌, arith, Result,
  Round, repeat, repeat_rule,
}
use linux_tcp_servers.Os.{
  Os, Io, Reply, returned, failed, sys_write, write_call, errno_after, read_call,
}
use linux_tcp_servers.Descriptor.{FdClass}
use linux_tcp_servers.Descriptor.Closes.{Guard}
use linux_tcp_servers.Descriptor.Relays.{Relays, read-Relays, echo-Relays}
use linux_tcp_servers.Select.{
  buff_size, Select, after_echo_write, after_client_read, echo_body, after_echo, serve_client,
  handle_ready,
}
use linux_tcp_servers.Select.Sets.{IsGreatest-clr}
use linux_tcp_servers.Descriptor.Finite.{ReadTakes, Finite}
use linux_tcp_servers.Select.Ends.{Serves, Serves-bind, IsCovered}
use linux_tcp_servers.Select.Covered.{IsRelaying, IsServable, destroyed, closed}
use linux_tcp_servers.Select.Accepts.{accept_all-Serves}

module _ {W Fd : Type 0} (os : Os W) (cls : FdClass W Fd) (server_sfd : Fd) (amount : W → ℕ)
    (laws : Finite os cls amount) (guard : Guard cls)
    (held : (n : ℤ) → cls.get_fd (cls.holding n) ≡ n) (fuel : ℕ) where
  abbrev Servable : Select W → Type 0
  Servable = IsServable os cls server_sfd amount laws guard held fuel

  abbrev Relaying : Io W → Type 0
  Relaying = IsRelaying os cls server_sfd amount laws guard held fuel

  abbrev remaining : Io W → ℕ
  remaining io = amount io.world

  abbrev EchoGoal : Result (String × Io W) (Bool × Io W) → Type 0
  EchoGoal = Serves (λ e. Relaying e.1) Relaying

  written-Round :
      (io : Io W) (bound : ℕ) (r : Reply ℕ × Io W)
      → remaining r.1 < bound
      → Relaying r.1
      → Round Relaying EchoGoal remaining bound (after_echo_write os cls server_sfd r)
  written-Round io bound (returned n, t) less low = (low, less)
  written-Round io bound (failed e, t) less low = low

  echo_body-Round :
      (i : ℕ) (io : Io W)
      → Relaying io
      → Round Relaying EchoGoal remaining (remaining io) (echo_body os cls server_sfd i io)
  echo_body-Round i io u =
      let (r, v) = os.read io.world (pos i) buff_size in
      answer r v (laws.read_takes io.world (pos i) buff_size)
    where
      written_back :
          (v : W) (bytes : List ℕ) (x : Reply ℕ) {u : W}
          → amount u < fuel
          → (amount u < fuel)
            × Relays (
                write_call (cls.get_fd (cls.holding (pos i))) bytes x
                ∷ read_call (pos i) buff_size (returned bytes)
                ∷ io.trace)
      written_back v bytes x low = (
        low,
        subst
            (λ n.
              Relays
                (write_call n bytes x ∷ read_call (pos i) buff_size (returned bytes) ∷ io.trace))
            (sym (held (pos i))) (echo-Relays (pos i) buff_size bytes x io.trace u.1),
      )

      answer :
          (r : Reply (List ℕ)) (v : W)
          → ReadTakes amount io.world (r, v)
          → Round Relaying EchoGoal remaining (remaining io) (
              after_client_read os cls server_sfd (cls.holding (pos i)) (
                r,
                record {
                  world = v;
                  errno = errno_after io.errno r;
                  trace = read_call (pos i) buff_size r ∷ io.trace;
                },
              ))
      answer (returned []) v less =
          (omega (arith, u.0), read-Relays (pos i) buff_size (returned []) io.trace u.1)
      answer (returned (b ∷ bytes)) v less =
          written-Round io (remaining io)
            (sys_write os (cls.get_fd (cls.holding (pos i))) (b ∷ bytes) (record {
              world = v;
              errno = io.errno;
              trace = read_call (pos i) buff_size (returned (b ∷ bytes)) ∷ io.trace;
            }))
            (omega (arith, laws.write_adds_none v (cls.get_fd (cls.holding (pos i))) (b ∷ bytes)))
            (written_back v (b ∷ bytes)
              (os.write v (cls.get_fd (cls.holding (pos i))) (b ∷ bytes)).0
              (omega (
                arith,
                u.0,
                laws.write_adds_none v (cls.get_fd (cls.holding (pos i))) (b ∷ bytes),
              )))
      answer (failed e) v less =
          (omega (arith, u.0), read-Relays (pos i) buff_size (failed e) io.trace u.1)

  after_echo-IsServable :
      (i : ℕ) (s : Select W) (e : Bool × Io W)
      → IsCovered s
      → Relaying e.1
      → Servable (after_echo os cls server_sfd i s e)
  after_echo-IsServable i s (false, io) h low =
      (h, destroyed os cls server_sfd amount laws guard held fuel (cls.holding (pos i)) io low)
  after_echo-IsServable i s (true, io) h low =
      let (client, t) = cls.close_fd (cls.holding (pos i)) io in
      (
        IsGreatest-clr s.max_sfd i s.read_fd_backup_set h,
        destroyed os cls server_sfd amount laws guard held fuel client t
            (closed os cls server_sfd amount laws guard held fuel (cls.holding (pos i)) io low),
      )

  serve_client-Serves :
      (i : ℕ) (s : Select W)
      → Servable s
      → Serves Servable Relaying (serve_client os cls server_sfd fuel i s)
  serve_client-Serves i s h =
      Serves-bind (λ e. Relaying e.1) Servable Relaying
        (repeat fuel (echo_body os cls server_sfd i) s.io) _
        (repeat_rule Relaying EchoGoal remaining (echo_body os cls server_sfd i) (echo_body-Round i)
          fuel s.io h.1.0 h.1)
        (λ e k. after_echo-IsServable i s e h.0 k)

  pub handle_ready-Serves :
      (i : ℕ) (s : Select W)
      → Servable s
      → Serves Servable Relaying (handle_ready os cls server_sfd fuel i s)
  handle_ready-Serves i s h =
      if_rule (Serves Servable Relaying) (cls.get_fd server_sfd ==ℤ pos i)
        (λ e. accept_all-Serves os cls server_sfd amount laws guard held fuel s h)
        (λ e. serve_client-Serves i s h)

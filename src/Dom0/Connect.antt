-- ===== src/Dom0/Connect.antt =====
-- daemon/qrexec-daemon-common.c: connections to the socket of a daemon (`connect_unix_socket`,
-- `negotiate_connection_params`, `send_service_connect`).
use qubes_core_qrexec.Prelude.{
  c_string-same, c_string-padded, decimal-contains, decimal-length, ℕ, ◌+◌, ◌-◌, ◌≤◌, ◌<◌, ◌≡◌,
  refl, ap, ◌∙◌, Bool, true, false, not, Option, none, some, [], ◌++◌, arith, leb, ◌==◌,
  if◌then◌else◌, length, take, drop, replicate, take_all, Bytes, codes, contains, c_string,
}
use qubes_core_qrexec.Protocol.{
  u32_mod, msg_service_connect, MsgHeader, sizeof_header, header_bytes, header_at,
  sizeof_exec_params, exec_params_bytes, exec_params_at, sizeof_service_params,
}
use qubes_core_qrexec.Protocol.Header.{header_at-header_bytes, exec_params_at-exec_params_bytes}
use qubes_core_qrexec.Agent.Ident.{number, socket_ident, scan_socket, scan_socket-socket_ident}
use qubes_core_qrexec.Agent.Requests.{received_params}
use qubes_core_qrexec.Dom0.Link.{Link, write_link, read_link, and_write, read_link-append}
use qubes_core_qrexec.Dom0.Handshake.{handle_daemon_handshake}

-- What `connect` finds at the path of a socket: a daemon, none (ENOENT, ECONNREFUSED), or an error.
pub data Attempt : Type 0 where
  reached : Link → Attempt
  missing : Attempt
  unreachable : Attempt

-- A descriptor, -2 and -1.
pub data Socket : Type 0 where
  connected : Link → Socket
  not_running : Socket
  no_socket : Socket

abbrev pub sun_path_size : ℕ
sun_path_size = 108

abbrev pub after_handshake : Bool × Link → Socket
after_handshake (true, l) = connected l
after_handshake (false, l) = no_socket

-- `socket` is taken to succeed; the length is that of the directory and of the name.
unfoldable pub connect_unix_socket : Bytes → Bytes → Attempt → Socket
connect_unix_socket socket_dir domname attempt =
    if leb sun_path_size (length (socket_dir ++ (codes "/qrexec." ++ domname)))
    then no_socket
    else elim attempt [
      | reached l ↦ after_handshake (handle_daemon_handshake l)
      | missing ↦ not_running
      | unreachable ↦ no_socket
    ]

-- Domain and port, false, and the assertion on the type that the daemon answers with.
pub data Negotiated : Type 0 where
  granted : ℕ → ℕ → Negotiated
  denied : Negotiated
  asserts : Negotiated

abbrev pub after_params : Option (Bytes × Link) → Negotiated × Link → Negotiated × Link
after_params none (_, l) = (denied, l)
after_params (some (s, l')) _ =
    (granted (exec_params_at s).connect_domain (exec_params_at s).connect_port, l')

abbrev pub after_answer : ℕ → Link → Option (Bytes × Link) → Negotiated × Link
after_answer type l none = (denied, l)
after_answer type l (some (s, l')) =
    if not ((header_at s).type == type)
    then (asserts, l')
    else if not ((header_at s).len == sizeof_exec_params)
    then (denied, l')
    else after_params (read_link sizeof_exec_params l') (denied, l')

abbrev pub after_request : ℕ → Bool × Link → Negotiated × Link
after_request type (true, l) = after_answer type l (read_link sizeof_header l)
after_request type (false, l) = (denied, l)

abbrev pub request_header : ℕ → Bytes → Bytes
request_header type cmdline =
    header_bytes (record { type = type; len = sizeof_exec_params + length cmdline })

abbrev pub request_params : ℕ → Bytes
request_params domid =
    exec_params_bytes (record { connect_domain = domid; connect_port = 0; cmdline = [] })

unfoldable pub negotiate_connection_params : ℕ → ℕ → Bytes → Link → Negotiated × Link
negotiate_connection_params other_domid type cmdline l = after_request type (
    and_write cmdline
      (and_write (request_params other_domid) (write_link (request_header type cmdline) l)))

-- `strncpy` into the 32 bytes of an identifier, whose last byte is set to NUL.
abbrev pub ident_field : Bytes → Bytes
ident_field ident = take 31 (c_string ident) ++ replicate (32 - length (take 31 (c_string ident))) 0

abbrev pub granted_params : ℕ → ℕ → Bytes
granted_params domain port =
    exec_params_bytes (record { connect_domain = domain; connect_port = port; cmdline = [] })

abbrev pub service_connect_header : Bytes
service_connect_header =
    header_bytes
      (record { type = msg_service_connect; len = sizeof_exec_params + sizeof_service_params })

unfoldable pub send_service_connect : Bytes → ℕ → ℕ → Link → Bool × Link
send_service_connect conn_ident domain port l =
    and_write (ident_field conn_ident)
      (and_write (granted_params domain port) (write_link service_connect_header l))

-- A short identifier is read back from the field.
ident_field-ident :
    (ident : Bytes)
    → contains 0 ident ≡ false
    → length ident ≤ 31
    → c_string (take 31 (ident_field ident)) ≡ ident
ident_field-ident ident h l =
    let e : take 31 (c_string ident) ≡ ident =
      ap (λ x. take 31 x) (c_string-same ident h) ∙ take_all 31 ident l in
    ap (λ x. c_string (take 31 (x ++ replicate (32 - length x) 0))) e
    ∙ c_string-padded 31 (32 - length ident) ident h l

-- What the daemon answers to `negotiate_connection_params` is what it returns, and it has sent the request: the header of the type with the length of parameters and command line, the domain with port 0, and the command line.
pub negotiate-daemon :
    (other_domid type domain port : ℕ) (cmdline more : Bytes)
    → type < u32_mod
    → domain < u32_mod
    → port < u32_mod
    → negotiate_connection_params other_domid type cmdline (record {
      incoming =
          header_bytes (record { type = type; len = sizeof_exec_params })
          ++ (granted_params domain port ++ more);
      sent = [];
      send_results = [];
    })
      ≡ (
        granted domain port,
        record {
          incoming = more;
          sent = (request_header type cmdline ++ request_params other_domid) ++ cmdline;
          send_results = [];
        },
      )
unfolding negotiate_connection_params write_link
negotiate-daemon other_domid type domain port cmdline more t d p =
    let sent = (request_header type cmdline ++ request_params other_domid) ++ cmdline in
    ap (after_answer type _) (
      read_link-append sizeof_header
        (header_bytes (record { type = type; len = sizeof_exec_params }))
        (granted_params domain port ++ more) sent [] refl)
    ∙ (ap stage (
          header_at-header_bytes (record { type = type; len = sizeof_exec_params }) [] t
            (omega arith))
        ∙ (let same : (type == type) ≡ true = ground arith in
            rw same (
              ap (λ r. after_params r (denied, l'))
                (read_link-append sizeof_exec_params (granted_params domain port) more sent [] refl)
              ∙ ap
                  (λ q. (
                    granted q.connect_domain q.connect_port,
                    record { incoming = more; sent = sent; send_results = [] },
                  ))
                  (exec_params_at-exec_params_bytes
                    (record { connect_domain = domain; connect_port = port; cmdline = [] }) d p))))
  where
    l' : Link
    l' = record {
      incoming = granted_params domain port ++ more;
      sent = (request_header type cmdline ++ request_params other_domid) ++ cmdline;
      send_results = [];
    }

    stage : MsgHeader → Negotiated × Link
    stage hdr =
        if not (hdr.type == type)
        then (asserts, l')
        else if not (hdr.len == sizeof_exec_params)
        then (denied, l')
        else after_params (read_link sizeof_exec_params l') (denied, l')

-- The identifier that the agent gave a client's descriptor comes back to it: of the parameters in the message that `send_service_connect` sends with the identifier, after its header, the agent reads the number of that descriptor, and the domain and the port.
pub service_connect-socket :
    (fd domain port : ℕ)
    → fd < 0x8000_0000
    → domain < u32_mod
    → port < u32_mod
    → let sent =
        (send_service_connect
          (socket_ident fd)
          domain
          port
          (record { incoming = []; sent = []; send_results = [] })).1.sent in
      let params =
        received_params (sizeof_exec_params + sizeof_service_params) (drop sizeof_header sent) in
      (scan_socket params.cmdline ≡ number fd)
      × (params.connect_domain ≡ domain)
      × (params.connect_port ≡ port)
unfolding send_service_connect write_link
service_connect-socket fd domain port h d p = (
  ap scan_socket (
        ident_field-ident (socket_ident fd) (decimal-contains fd [])
          (omega (arith, decimal-length fd h)))
      ∙ scan_socket-socket_ident fd,
  omega arith,
  omega arith,
)

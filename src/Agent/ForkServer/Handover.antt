-- ===== src/Agent/ForkServer/Handover.antt =====
-- The fork server starts what the agent asked for.
use qubes_core_qrexec.Prelude.{
  by_test, ℕ, suc, ◌+◌, ◌-◌, ◌≤◌, ◌<◌, ◌≡◌, refl, sym, ap, ◌∙◌, true, false, not, Option, some, [],
  ◌∷◌, ◌++◌, arith, ltb, ◌==◌, length, length-append, drop-append, Bytes, split_at, contains,
  strlen, c_string, split_at_sound, contains-append,
}
use qubes_core_qrexec.Protocol.{u32_mod, max_qrexec_cmd_len}
use qubes_core_qrexec.Protocol.Header.{read_exact-append, read_exact_all}
use qubes_core_qrexec.Rpc.Command.{parse_qubes_rpc_command}
use qubes_core_qrexec.Agent.State.{Agent, NewProcess, Outside}
use qubes_core_qrexec.Agent.Requests.{cmd_info_bytes, send_to_fork_server, try_fork_server}
use qubes_core_qrexec.Agent.ForkServer.{
  CmdInfo, sizeof_cmd_info, cmd_info_at, byte_at, new_process, check_cmdline, handle_single_command,
  after_info, serve,
}

strlen-ended : (s : Bytes) → contains 0 s ≡ false → strlen (s ++ (0 ∷ [])) ≡ length s
strlen-ended [] h = refl
strlen-ended (c ∷ s) h =
    let z : (c == 0) ≡ false = ground arith in
    rw z (ap (λ n. suc n) (strlen-ended s (ground arith)))

c_string-end : (s : Bytes) → contains 0 s ≡ false → c_string (s ++ (0 ∷ [])) ≡ s
c_string-end [] h = refl
c_string-end (c ∷ s) h =
    let z : (c == 0) ≡ false = ground arith in
    rw z (ap (λ x. c ∷ x) (c_string-end s (ground arith)))

byte_at-end : (s : Bytes) → byte_at (length s) (s ++ (0 ∷ [])) ≡ 0
byte_at-end s = ap (λ x. (let n : ℕ = elim x [ [] ↦ 0 | c ∷ _ ↦ c ] in n)) (drop-append s (0 ∷ []))

-- A command line with its NUL is parsed.
checked :
    (info : CmdInfo) (s more : Bytes)
    → contains 0 s ≡ false
    → info.cmdline_len - 1 ≡ length s
    → check_cmdline info (some (s ++ (0 ∷ []), more))
      ≡ new_process info (parse_qubes_rpc_command s false)
unfolding check_cmdline
checked info s more n e =
    let b : (byte_at (info.cmdline_len - 1) (s ++ (0 ∷ [])) == 0) ≡ true =
      ap (λ k. byte_at k (s ++ (0 ∷ [])) == 0) e ∙ ap (λ c. c == 0) (byte_at-end s) in
    let l : (strlen (s ++ (0 ∷ [])) == info.cmdline_len - 1) ≡ true =
      ground (arith, strlen-ended s n, e) in
    let P : Option NewProcess → Type 0 =
      λ r. r ≡ new_process info (parse_qubes_rpc_command s false) in
    by_test P (not (byte_at (info.cmdline_len - 1) (s ++ (0 ∷ [])) == 0))
      (λ z. absurd (ground (arith, b, z)))
      (λ _.
        by_test P (not (strlen (s ++ (0 ∷ [])) == info.cmdline_len - 1))
          (λ z. absurd (ground (arith, l, z)))
          (λ _. ap (λ x. new_process info (parse_qubes_rpc_command x false)) (c_string-end s n)))

cmd_info_at-bytes :
    (type domain port len : ℕ)
    → type < u32_mod
    → domain < u32_mod
    → port < u32_mod
    → len < u32_mod
    → cmd_info_at (cmd_info_bytes type domain port len)
      ≡ record { type = type; connect_domain = domain; connect_port = port; cmdline_len = len }
cmd_info_at-bytes type domain port len t d p l = ground arith

single_command :
    (info : CmdInfo) (s : Bytes)
    → contains 0 s ≡ false
    → info.cmdline_len ≡ length s + 1
    → length s < 0x7fff_ffff
    → handle_single_command info (s ++ (0 ∷ []))
      ≡ new_process info (parse_qubes_rpc_command s false)
unfolding handle_single_command
single_command info s n e l =
    let a : ltb 0x7fff_ffff info.cmdline_len ≡ false = ground arith in
    let b : ltb info.cmdline_len 1 ≡ false = ground arith in
    let P : Option NewProcess → Type 0 =
      λ r. r ≡ new_process info (parse_qubes_rpc_command s false) in
    by_test P (ltb 0x7fff_ffff info.cmdline_len) (λ z. absurd (cc (z, a)))
      (λ _.
        by_test P (ltb info.cmdline_len 1) (λ z. absurd (cc (z, b)))
          (λ _.
            ap (check_cmdline info) (
              read_exact_all info.cmdline_len (s ++ (0 ∷ []))
                (omega (arith, e, length-append s (0 ∷ []))))
            ∙ checked info s [] n (omega (arith, e))))

-- The state after both writes.
abbrev pub handed_over : ℕ → Bytes → Bytes → Agent → Agent
handed_over s info text a = record a {
  written = (a.written ++ ((s, info) ∷ [])) ++ ((s, text) ∷ []);
}

written-both :
    (outside : Outside) (s : ℕ) (info text : Bytes) (a : Agent)
    → outside.info_written ≡ true
    → outside.cmdline_written ≡ true
    → send_to_fork_server outside s info text a ≡ (some s, handed_over s info text a)
unfolding send_to_fork_server
written-both outside s info text a i c =
    let P : Option ℕ × Agent → Type 0 = λ r. r ≡ (some s, handed_over s info text a) in
    by_test P (not outside.info_written) (λ z. absurd (ground (arith, i, z)))
      (λ _.
        by_test P (not outside.cmdline_written) (λ z. absurd (ground (arith, c, z))) (λ _. refl))

-- What `try_fork_server` writes for a command line of a user, where the fork server can be reached and the writes succeed, makes the fork server start the process of the same type, domain and port, with the command line behind the user as `parse_qubes_rpc_command` reads it, or none if that fails; the agent keeps the socket.
pub fork_server-same :
    (outside : Outside) (s type domain port : ℕ) (cmdline user rest : Bytes)
    (username : Option Bytes) (a : Agent)
    → outside.has_fork_server ≡ true
    → outside.fork_server username ≡ some s
    → outside.info_written ≡ true
    → outside.cmdline_written ≡ true
    → split_at b':' cmdline ≡ some (user, rest)
    → contains 0 cmdline ≡ false
    → length cmdline + 1 ≤ max_qrexec_cmd_len
    → type < u32_mod
    → domain < u32_mod
    → port < u32_mod
    → let info = cmd_info_bytes type domain port (length cmdline + 1 - (length user + 1)) in
      let text = rest ++ (0 ∷ []) in
      (try_fork_server outside type domain port cmdline username a
        ≡ (some s, handed_over s info text a))
      × (serve (info ++ text)
          ≡ new_process
              (record {
                type = type;
                connect_domain = domain;
                connect_port = port;
                cmdline_len = length cmdline + 1 - (length user + 1);
              })
              (parse_qubes_rpc_command rest false))
unfolding try_fork_server serve
fork_server-same outside s type domain port cmdline user rest username a f q i c h n l t d p = (
  by_test P (not outside.has_fork_server) (λ z. absurd (ground (arith, f, z)))
      (λ _.
        by_test P (ltb max_qrexec_cmd_len (length cmdline + 1)) (λ z. absurd (ground (arith, l, z)))
          (λ _.
            rw (h, q, try_fork_server)
              (written-both outside s (cmd_info_bytes type domain port len) (rest ++ (0 ∷ [])) a i
                c))),
  ap after_info (
        read_exact-append (cmd_info_bytes type domain port len) (rest ++ (0 ∷ [])) sizeof_cmd_info
          refl)
      ∙ (ap (λ x. handle_single_command x (rest ++ (0 ∷ [])))
            (cmd_info_at-bytes type domain port len t d p (omega (arith, l)))
          ∙ single_command _ rest nonul (omega (arith, split-length))
              (omega (arith, l, split-length))),
)
  where
    P : Option ℕ × Agent → Type 0
    P r = r ≡ (
      some s,
      handed_over s (cmd_info_bytes type domain port (length cmdline + 1 - (length user + 1)))
          (rest ++ (0 ∷ [])) a,
    )

    len : ℕ
    len = length cmdline + 1 - (length user + 1)

    split : (cmdline ≡ user ++ (b':' ∷ rest)) × (contains b':' user ≡ false)
    split = split_at_sound b':' cmdline user rest h

    split-length : length cmdline ≡ length user + suc (length rest)
    split-length = ap (λ x. length x) split.0 ∙ length-append user (b':' ∷ rest)

    nonul : contains 0 rest ≡ false
    nonul =
        let e : contains 0 (user ++ (b':' ∷ rest)) ≡ false =
          ap (λ x. contains 0 x) (sym split.0) ∙ n in
        ground (arith, contains-append 0 user (b':' ∷ rest), e)

-- ===== src/Daemon/Client/Forward.antt =====
-- The message that `forward_cmdline` sends to the agent.
use qubes_core_qrexec.Prelude.{
  ◌+◌, ◌-◌, ◌%◌, ◌≤◌, ◌<◌, ◌≡◌, refl, ap, ◌∙◌, inl, inr, true, List, [], ◌∷◌, ◌++◌, append_assoc,
  append-nil, arith, if◌then◌else◌, Bool-cases, length, drop, length-append, length-drop, Bytes,
  starts_with, drop-starts_with,
}
use qubes_core_qrexec.Daemon.State.{Daemon, done, M, ◌>>=◌, ◌>>◌, vchan_send, vchan_send_or_exit}
use qubes_core_qrexec.Protocol.{
  u32_mod, MsgHeader, header_bytes, ExecParams, sizeof_exec_params, exec_params_bytes,
}
use qubes_core_qrexec.Daemon.Client.{
  default_user_keyword, uses_default_user, default_user_header, forward_cmdline,
}

abbrev pub concat : List Bytes → Bytes
concat [] = []
concat (s ∷ ss) = s ++ concat ss

-- The command line as the agent is to see it: the user's name in place of "DEFAULT".
abbrev pub with_user : Bytes → MsgHeader → ExecParams → Bytes
with_user user hdr params =
    if uses_default_user hdr params then user ++ drop 7 params.cmdline else params.cmdline

-- One message on the control vchan.
abbrev pub message : MsgHeader → ExecParams → Bytes
message hdr params = header_bytes hdr ++ exec_params_bytes params

abbrev pub framed : Bytes → MsgHeader → ExecParams → Bytes
framed user hdr params =
    message (record hdr { len = sizeof_exec_params + length (with_user user hdr params) })
      (record params { cmdline = with_user user hdr params })

abbrev sent_on : Bytes → Daemon → Daemon
sent_on s d = record d { vchan_sent = d.vchan_sent ++ (s ∷ []); write_results = [] }

send_then :
    {A : Type 0} (s : Bytes) (m : M A) (d : Daemon)
    → d.write_results ≡ []
    → (vchan_send_or_exit s >> m) d ≡ m (sent_on s d)
unfolding vchan_send_or_exit vchan_send ◌>>=◌
send_then s m d w = rw (◌>>=◌, vchan_send_or_exit, ◌>>=◌, vchan_send, w) refl

-- A command line that begins with "DEFAULT:" is as long as that.
default-length :
    (hdr : MsgHeader) (params : ExecParams)
    → uses_default_user hdr params ≡ true
    → 7 ≤ length params.cmdline
default-length hdr params e =
    let s : starts_with default_user_keyword params.cmdline ≡ true = ground arith in
    let q = ap length (drop-starts_with default_user_keyword params.cmdline s) in
    omega (arith, q, length-append default_user_keyword (drop 8 params.cmdline))

-- Where no write fails, `forward_cmdline` sends one message of the client's type: its header gives the length of what follows, which is the client's parameters with the user's name of the domain in place of "DEFAULT", or unchanged.
pub forward_cmdline-framed :
    (hdr : MsgHeader) (params : ExecParams) (d : Daemon)
    → d.write_results ≡ []
    → hdr.len ≡ sizeof_exec_params + length params.cmdline
    → hdr.len + length d.default_user < u32_mod
    → (sent : List Bytes) × (forward_cmdline hdr params d
        ≡ done true (record d { vchan_sent = d.vchan_sent ++ sent; write_results = [] }))
      × (concat sent ≡ framed d.default_user hdr params)
unfolding forward_cmdline
forward_cmdline-framed hdr params d w l u = elim (Bool-cases (uses_default_user hdr params)) [
  | inl e ↦
      let long = default-length hdr params e in
      let user = d.default_user in
      let body = exec_params_bytes (record params { cmdline = [] }) in
      let a = header_bytes (default_user_header user hdr) in
      let rest = drop 7 params.cmdline in
      let d1 = sent_on a d in
      let d2 = sent_on body d1 in
      let d3 = sent_on user d2 in
      let len_ok : (hdr.len + u32_mod - 7 + length user) % u32_mod
          ≡ sizeof_exec_params + length (user ++ rest) =
        omega (arith, length-append user rest, length-drop 7 params.cmdline) in
      (
        a ∷ body ∷ user ∷ rest ∷ [],
        rw (forward_cmdline, e)
            (send_then a _ d w
              ∙ (send_then body _ d1 refl
                  ∙ (send_then user _ d2 refl
                      ∙ (send_then rest _ d3 refl
                          ∙ ap (λ v. done true (record d { vchan_sent = v; write_results = [] }))
                              (append_assoc d2.vchan_sent (user ∷ []) (rest ∷ [])
                                ∙ (append_assoc d1.vchan_sent (body ∷ []) (user ∷ rest ∷ [])
                                    ∙ append_assoc d.vchan_sent (a ∷ [])
                                        (body ∷ user ∷ rest ∷ []))))))),
        rw e (
            rw len_ok (
              ap
                (λ x.
                  message (record hdr { len = sizeof_exec_params + length (user ++ rest) })
                    (record params { cmdline = x }))
                (ap (λ x. user ++ x) (append-nil rest)))),
      )
  | inr e ↦
      let a = header_bytes hdr in
      let body = exec_params_bytes params in
      (
        a ∷ body ∷ [],
        rw (forward_cmdline, e)
            (send_then a _ d w
              ∙ (send_then body _ (sent_on a d) refl
                  ∙ ap (λ v. done true (record d { vchan_sent = v; write_results = [] }))
                      (append_assoc d.vchan_sent (a ∷ []) (body ∷ [])))),
        rw e (rw (l, append-nil body) refl),
      )
]

-- ===== src/Dom0/Execute/Said.antt =====
-- daemon/qrexec-daemon-common.c: what the negotiation with a daemon and the messages to it send.
use qubes_core_qrexec.Prelude.{
  ◌+◌, take, drop, by_test, ℕ, ◌≡◌, refl, ap, ◌∙◌, inl, inr, Bool, true, false, not, Option, none,
  some, [], ◌++◌, append_assoc, leb, ◌==◌, Bool-cases, length, Bytes,
}
use qubes_core_qrexec.Protocol.{
  u32_at, header_bytes, exec_params_bytes, msg_service_connect, sizeof_header, header_at,
  sizeof_exec_params,
}
use qubes_core_qrexec.Dom0.Link.{Link, write_link, read_link, and_write, next_send}
use qubes_core_qrexec.Dom0.Connect.{
  Negotiated, granted, denied, asserts, after_params, after_answer, after_request, request_header,
  request_params, ident_field, granted_params, service_connect_header, negotiate_connection_params,
  send_service_connect,
}

write_link-sent :
    (s : Bytes) (l : Link) → (write_link s l).0 ≡ true → (write_link s l).1.sent ≡ l.sent ++ s
unfolding write_link
write_link-sent s l h = elim (Bool-cases (next_send l.send_results)) [
  | inl e ↦ rw (e, write_link) refl
  | inr e ↦ absurd (cc (rw (e, write_link) at h))
]

and_write-sent :
    (s before : Bytes) (r : Bool × Link)
    → (r.0 ≡ true → r.1.sent ≡ before)
    → (and_write s r).0 ≡ true
    → (and_write s r).1.sent ≡ before ++ s
and_write-sent s before (true, l) e h = write_link-sent s l h ∙ ap (λ x. x ++ s) (e refl)
and_write-sent s before (false, l) e h = absurd (cc h)

-- MSG_SERVICE_CONNECT with the identifier of the request.
abbrev pub connect_bytes : Bytes → ℕ → ℕ → Bytes
connect_bytes ident domain port =
    (header_bytes (record { type = msg_service_connect; len = 40 })
      ++ exec_params_bytes (record { connect_domain = domain; connect_port = port; cmdline = [] }))
    ++ ident_field ident

pub send_service_connect-sent :
    (ident : Bytes) (domain port : ℕ) (l : Link)
    → (send_service_connect ident domain port l).0 ≡ true
    → (send_service_connect ident domain port l).1.sent ≡ l.sent ++ connect_bytes ident domain port
unfolding send_service_connect
send_service_connect-sent ident domain port l h =
    and_write-sent (ident_field ident)
      ((l.sent ++ service_connect_header) ++ granted_params domain port)
      (and_write (granted_params domain port) (write_link service_connect_header l))
      (and_write-sent (granted_params domain port) (l.sent ++ service_connect_header)
        (write_link service_connect_header l) (write_link-sent service_connect_header l))
      h
    ∙ (ap (λ x. x ++ ident_field ident)
          (append_assoc l.sent service_connect_header (granted_params domain port))
        ∙ append_assoc l.sent (service_connect_header ++ granted_params domain port)
            (ident_field ident))

write_link-incoming : (s : Bytes) (l : Link) → (write_link s l).1.incoming ≡ l.incoming
unfolding write_link
write_link-incoming s l = elim (Bool-cases (next_send l.send_results)) [
  | inl e ↦ rw (e, write_link) refl
  | inr e ↦ rw (e, write_link) refl
]

pub and_write-incoming : (s : Bytes) (r : Bool × Link) → (and_write s r).1.incoming ≡ r.1.incoming
and_write-incoming s (true, l) = write_link-incoming s l
and_write-incoming s (false, l) = refl

pub two_writes-incoming :
    (s t : Bytes) (l : Link) → (and_write t (write_link s l)).1.incoming ≡ l.incoming
two_writes-incoming s t l = and_write-incoming t (write_link s l) ∙ write_link-incoming s l

-- What is read, and what is left of it.
abbrev pub IsRead : ℕ → Link → Option (Bytes × Link) → Type 0
IsRead n l none = Unit
IsRead n l (some (s, l')) =
    (s ≡ take n l.incoming) × (l'.incoming ≡ drop n l.incoming) × (l'.sent ≡ l.sent)

pub read_link-IsRead : (n : ℕ) (l : Link) → IsRead n l (read_link n l)
unfolding read_link
read_link-IsRead n l = elim (Bool-cases (leb n (length l.incoming))) [
  | inl e ↦ rw (e, read_link) (refl, refl, refl)
  | inr e ↦ rw (e, read_link) tt
]

-- The request to the daemon of the target.
abbrev pub request_bytes : ℕ → ℕ → Bytes → Bytes
request_bytes domid type cmdline =
    (header_bytes (record { type = type; len = 8 + length cmdline })
      ++ exec_params_bytes (record { connect_domain = domid; connect_port = 0; cmdline = [] }))
    ++ cmdline

-- Where a domain and a port are granted, the link has sent `s`, and they are in `answer`.
abbrev pub SaidIfGranted : Bytes → Bytes → Negotiated × Link → Type 0
SaidIfGranted s answer (granted domain port, l) =
    (l.sent ≡ s) × (domain ≡ u32_at answer) × (port ≡ u32_at (drop 4 answer))
SaidIfGranted s answer (denied, l) = Unit
SaidIfGranted s answer (asserts, l) = Unit

after_params-said :
    (s inc : Bytes) (l0 : Link) (r : Option (Bytes × Link)) (l : Link)
    → l0.sent ≡ s
    → l0.incoming ≡ drop 8 inc
    → IsRead sizeof_exec_params l0 r
    → SaidIfGranted s (take 8 (drop 8 inc)) (after_params r (denied, l))
after_params-said s inc l0 none l h i d = tt
after_params-said s inc l0 (some (t, l')) l h i d =
    let e : t ≡ take 8 (drop 8 inc) = d.0 ∙ ap (λ x. take 8 x) i in
    (d.2 ∙ h, ap (λ x. u32_at x) e, ap (λ x. u32_at (drop 4 x)) e)

after_answer-said :
    (s inc : Bytes) (type : ℕ) (l : Link) (r : Option (Bytes × Link))
    → l.sent ≡ s
    → l.incoming ≡ inc
    → IsRead sizeof_header l r
    → SaidIfGranted s (take 8 (drop 8 inc)) (after_answer type l r)
after_answer-said s inc type l none h i d = tt
after_answer-said s inc type l (some (t, l')) h i d =
    let P : Negotiated × Link → Type 0 = SaidIfGranted s (take 8 (drop 8 inc)) in
    by_test P (not ((header_at t).type == type)) (λ _. tt)
      (λ _.
        by_test P (not ((header_at t).len == sizeof_exec_params)) (λ _. tt)
          (λ _.
            after_params-said s inc l' (read_link sizeof_exec_params l') l' (d.2 ∙ h)
              (d.1 ∙ ap (λ x. drop 8 x) i) (read_link-IsRead sizeof_exec_params l')))

after_request-said :
    (s inc : Bytes) (type : ℕ) (r : Bool × Link)
    → (r.0 ≡ true → r.1.sent ≡ s)
    → r.1.incoming ≡ inc
    → SaidIfGranted s (take 8 (drop 8 inc)) (after_request type r)
after_request-said s inc type (true, l) h i =
    after_answer-said s inc type l (read_link sizeof_header l) (h refl) i
      (read_link-IsRead sizeof_header l)
after_request-said s inc type (false, l) h i = tt

pub negotiate-said :
    (domid type : ℕ) (cmdline : Bytes) (l : Link)
    → l.sent ≡ []
    → SaidIfGranted
        (request_bytes domid type cmdline)
        (take 8 (drop 8 l.incoming))
        (negotiate_connection_params domid type cmdline l)
unfolding negotiate_connection_params
negotiate-said domid type cmdline l e =
    after_request-said (request_bytes domid type cmdline) l.incoming type _
      (and_write-sent cmdline (request_header type cmdline ++ request_params domid)
        (and_write (request_params domid) (write_link (request_header type cmdline) l))
        (and_write-sent (request_params domid) (request_header type cmdline)
          (write_link (request_header type cmdline) l)
          (λ h.
            write_link-sent (request_header type cmdline) l h
            ∙ ap (λ x. x ++ request_header type cmdline) e)))
      (and_write-incoming cmdline _
        ∙ two_writes-incoming (request_header type cmdline) (request_params domid) l)

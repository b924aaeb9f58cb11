-- ===== src/Agent/ClientVm/Forwards.antt =====
-- A request of a client through the agent, up to what the daemon gets.
use qubes_core_qrexec.Prelude.{
  c_string-padded, c_string-ended, take-block, drop-block, drop-past, drop-within, decimal-contains,
  decimal-length, ℕ, zero, suc, ◌+◌, ◌-◌, ◌≤◌, ◌<◌, ◌≡◌, refl, sym, ap, ◌∙◌, inl, inr, true, false,
  some, [], ◌∷◌, ◌++◌, append_assoc, arith, ◌==◌, if◌then◌else◌, Bool-cases, length, take, drop,
  replicate, length-append, length-take, length-drop, take_all, Bytes, contains, c_string,
}
use qubes_core_qrexec.Protocol.{
  max_service_name_len, msg_trigger_service3, MsgHeader, sizeof_header, header_bytes,
  sizeof_trigger_params3, read_exact,
}
use qubes_core_qrexec.Protocol.Header.{header_at-header_bytes, read_exact-append, read_exact_all}
use qubes_core_qrexec.Agent.State.{
  Agent, Outcome, done, ◌>>=◌, next_result, later_results, vchan_send_or_exit,
}
use qubes_core_qrexec.Agent.Ident.{socket_ident}
use qubes_core_qrexec.Agent.Events.{
  with_ident, is_bad_trigger, forward_trigger, check_trigger, handle_trigger_io,
}
use qubes_core_qrexec.Agent.ClientVm.{
  convert_target_name_keyword, target_field, ident_start, trigger_params, trigger_request,
}

convert-length : (s : Bytes) → length (convert_target_name_keyword s) ≡ length s
convert-length [] = refl
convert-length (c ∷ s) = ap (λ n. suc n) (convert-length s)

convert-contains :
    (s : Bytes) → contains 0 s ≡ false → contains 0 (convert_target_name_keyword s) ≡ false
convert-contains [] h = refl
convert-contains (c ∷ s) h =
    let ih = convert-contains s (ground arith) in
    elim (Bool-cases (c == b'$')) [
      | inl e ↦ rw e ih
      | inr e ↦ rw e (let z : (c == 0) ≡ false = ground arith in rw z ih)
    ]

length-replicate : (n c : ℕ) → length (replicate n c) ≡ n
length-replicate zero c = refl
length-replicate (suc n) c = ap (λ k. suc k) (length-replicate n c)

target_field-length : (t : Bytes) → length (target_field t) ≡ 64
target_field-length t = omega (
  arith,
  length-append (take 63 t) (replicate (64 - length (take 63 t)) 0),
  length-replicate (64 - length (take 63 t)) 0,
  length-take 63 t,
)

target_field-string :
    (t : Bytes) → contains 0 t ≡ false → length t ≤ 63 → c_string (target_field t) ≡ t
target_field-string t h l =
    let e : take 63 t ≡ t = take_all 63 t l in
    ap (λ x. c_string (x ++ replicate (64 - length x) 0)) e
    ∙ (ap (λ x. c_string x)
          (sym (
            take_all 64 (t ++ replicate (64 - length t) 0) (
              omega (
                arith,
                length-append t (replicate (64 - length t) 0),
                length-replicate (64 - length t) 0,
                l,
              ))))
        ∙ c_string-padded 64 (64 - length t) t h (omega (arith, l)))

-- The parameters with the identifier of a descriptor: `left` is what stays of the field behind its NUL.
record HasIdent (fd : ℕ) (target rest out : Bytes) : Type 0 where
  left : Bytes
  shape : out ≡ target_field target ++ ((socket_ident fd ++ (0 ∷ left)) ++ rest)
  fits : length (socket_ident fd ++ (0 ∷ left)) ≡ 32

with_ident-HasIdent :
    (fd : ℕ) (target rest : Bytes)
    → length (socket_ident fd) ≤ 31
    → HasIdent fd target rest (with_ident fd ((target_field target ++ ident_start) ++ rest))
with_ident-HasIdent fd target rest h = record {
  left = drop (length (socket_ident fd) + 1) ident_start;
  shape =
      ap (λ x. with_ident fd x) (append_assoc t i rest)
      ∙ (ap (λ x. x ++ (ident ++ (0 ∷ drop (64 + length ident + 1) (t ++ (i ++ rest)))))
            (take-block 64 t (i ++ rest) (target_field-length target))
          ∙ (ap (λ x. t ++ (ident ++ (0 ∷ x))) behind
              ∙ ap (λ x. t ++ x) (sym (append_assoc ident (0 ∷ drop (length ident + 1) i) rest))));
  fits = omega (
    arith,
    length-append (socket_ident fd) (0 ∷ drop (length (socket_ident fd) + 1) ident_start),
    length-drop (length (socket_ident fd) + 1) ident_start,
    h,
  );
}
  where
    t : Bytes
    t = target_field target

    i : Bytes
    i = ident_start

    ident : Bytes
    ident = socket_ident fd

    behind : drop (64 + length ident + 1) (t ++ (i ++ rest)) ≡ drop (length ident + 1) i ++ rest
    behind =
        let e : 64 + length ident + 1 ≡ 64 + (length ident + 1) = omega arith in
        ap (λ m. drop m (t ++ (i ++ rest))) e
        ∙ (drop-past (length ident + 1) 64 t (i ++ rest) (target_field-length target)
            ∙ drop-within (length ident + 1) i rest (omega (arith, h)))

-- The fields of the parameters: the target, the identifier, and what follows.
record HasFields (target ident rest out : Bytes) : Type 0 where
  target_is : c_string (take 64 out) ≡ target
  ident_is : c_string (take 32 (drop 64 out)) ≡ ident
  rest_is : drop sizeof_trigger_params3 out ≡ rest

HasIdent-HasFields :
    (fd : ℕ) (target rest out : Bytes)
    → contains 0 target ≡ false
    → length target ≤ 63
    → length (socket_ident fd) ≤ 31
    → HasIdent fd target rest out
    → HasFields target (socket_ident fd) rest out
HasIdent-HasFields fd target rest out n l k h =
    let block = socket_ident fd ++ (0 ∷ h.left) in
    let e64 : drop 64 out ≡ block ++ rest =
      ap (λ x. drop 64 x) h.shape
      ∙ drop-block 64 (target_field target) (block ++ rest) (target_field-length target) in
    record {
      target_is =
          ap (λ x. c_string (take 64 x)) h.shape
          ∙ (ap (λ x. c_string x)
                (take-block 64 (target_field target) (block ++ rest) (target_field-length target))
              ∙ target_field-string target n l);
      ident_is =
          ap (λ x. c_string (take 32 x)) e64
          ∙ (ap (λ x. c_string (take 32 x)) (append_assoc (socket_ident fd) (0 ∷ h.left) rest)
              ∙ c_string-ended 32 (socket_ident fd) (h.left ++ rest) (decimal-contains fd [])
                  (omega (arith, k)));
      rest_is =
          ap (λ x. drop 96 x) h.shape
          ∙ (drop-past 32 64 (target_field target) (block ++ rest) (target_field-length target)
              ∙ drop-block 32 block rest h.fits);
    }

-- What the agent passes on: a header, and parameters with these fields.
pub record Forwards (fd : ℕ) (target service_name : Bytes) (a a' : Agent) : Type 0 where
  pub params : Bytes
  pub sent :
      a'.vchan_sent
      ≡ a.vchan_sent
        ++ (header_bytes (record {
          type = msg_trigger_service3;
          len = sizeof_trigger_params3 + (length service_name + 1);
        })
            ∷ params
            ∷ [])
  pub target_is : c_string (take 64 params) ≡ target
  pub ident_is : c_string (take 32 (drop 64 params)) ≡ socket_ident fd
  pub service_is : drop sizeof_trigger_params3 params ≡ service_name ++ (0 ∷ [])

send_ok :
    (s : Bytes) (a : Agent)
    → next_result a.send_results ≡ true
    → vchan_send_or_exit s a
      ≡ done (record a {
        vchan_sent = a.vchan_sent ++ (s ∷ []);
        send_results = later_results a.send_results;
      })
unfolding vchan_send_or_exit
send_ok s a e = rw (e, vchan_send_or_exit) refl

module _ (fd : ℕ) (target service_name : Bytes) (a : Agent) where
  hdr : MsgHeader
  hdr = record {
    type = msg_trigger_service3;
    len = sizeof_trigger_params3 + (length service_name + 1);
  }

  rest : Bytes
  rest = service_name ++ (0 ∷ [])

  body : Bytes
  body = trigger_params target ++ rest

  after : Agent
  after = record a {
    vchan_sent = (a.vchan_sent ++ (header_bytes hdr ∷ [])) ++ (with_ident fd body ∷ []);
    send_results = later_results (later_results a.send_results);
  }

  body-length : length body ≡ hdr.len
  unfolding hdr rest body
  body-length = omega (
    arith,
    length-append (trigger_params target) rest,
    length-append (target_field (convert_target_name_keyword target)) ident_start,
    target_field-length (convert_target_name_keyword target),
    length-append service_name (0 ∷ []),
  )

  forwarded : a.send_results ≡ [] → forward_trigger fd hdr (some (body, [])) a ≡ done after
  unfolding forward_trigger ◌>>=◌ after
  forwarded e =
      ap (λ r. r >>= vchan_send_or_exit (with_ident fd body))
        (send_ok (header_bytes hdr) a (ap next_result e))
      ∙ send_ok (with_ident fd body) _ (ap (λ r. next_result (later_results r)) e)

  stage : MsgHeader → Outcome
  stage h =
      if is_bad_trigger h
      then done (record a { closed = a.closed ++ (fd ∷ []) })
      else forward_trigger fd h (read_exact h.len body) a

  accepted : length service_name + 1 ≤ max_service_name_len → is_bad_trigger hdr ≡ false
  unfolding hdr
  accepted l = ground arith

  triggered :
      a.send_results ≡ []
      → length service_name + 1 ≤ max_service_name_len
      → handle_trigger_io (some fd) (trigger_request target service_name) a ≡ done after
  unfolding handle_trigger_io trigger_request check_trigger hdr rest body stage
  triggered e l =
      ap (λ r. check_trigger fd r a) (read_exact-append (header_bytes hdr) body sizeof_header refl)
      ∙ (ap stage (header_at-header_bytes hdr [] (omega arith) (omega (arith, l)))
          ∙ (rw (accepted l) (
              ap (λ r. forward_trigger fd hdr r a) (read_exact_all hdr.len body (sym body-length))
              ∙ forwarded e)))

-- A client's request for a target without NUL of at most 63 bytes and for a service whose name with its NUL has at most MAX_SERVICE_NAME_LEN bytes, on a descriptor that is an `int` and with sends that succeed: the agent passes on one header and one block of parameters, from which the target is read with '@' for '$', the name of the service is what follows the structure, and the identifier is that of the client's descriptor.
pub trigger_request-Forwards :
    (fd : ℕ) (target service_name : Bytes) (a : Agent)
    → fd < 0x8000_0000
    → contains 0 target ≡ false
    → length target ≤ 63
    → length service_name + 1 ≤ max_service_name_len
    → a.send_results ≡ []
    → (a' : Agent) × (handle_trigger_io (some fd) (trigger_request target service_name) a ≡ done a')
      × Forwards fd (convert_target_name_keyword target) service_name a a'
unfolding after hdr rest body
trigger_request-Forwards fd target service_name a d n l s e =
    let t = convert_target_name_keyword target in
    let k : length (socket_ident fd) ≤ 31 = omega (arith, decimal-length fd d) in
    let f =
      HasIdent-HasFields fd t (service_name ++ (0 ∷ []))
        (with_ident fd (trigger_params target ++ (service_name ++ (0 ∷ []))))
        (convert-contains target n) (omega (arith, convert-length target, l)) k
        (with_ident-HasIdent fd t (service_name ++ (0 ∷ [])) k) in
    (
      after fd target service_name a,
      triggered fd target service_name a e s,
      record {
        params = with_ident fd (trigger_params target ++ (service_name ++ (0 ∷ [])));
        sent = append_assoc a.vchan_sent _ _;
        target_is = f.target_is;
        ident_is = f.ident_is;
        service_is = f.rest_is;
      },
    )

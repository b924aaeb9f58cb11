-- ===== src/Io/Process/Messages.antt =====
-- libqrexec/process_io.c: what `qrexec_process_io` puts on the vchan.
use qubes_core_qrexec.Prelude.{
  by_test, ℕ, ◌≤◌, ◌≡◌, refl, sym, ap, ◌∙◌, ◌⊎◌, inl, inr, Bool, true, false, not, ◌&&◌, Option,
  List, [], ◌∷◌, ◌++◌, append_assoc, append-nil, arith, if◌then◌else◌, length, All, Bytes,
}
use qubes_core_qrexec.Protocol.{msg_data_stderr, msg_data_exit_code, u32_bytes, header_bytes}
use qubes_core_qrexec.Io.Channel.{frame, frames}
use qubes_core_qrexec.Io.Channel.Sender.{Sender, send, send_exit_code}
use qubes_core_qrexec.Io.Channel.Sender.Frames.{Sends, Sent, send-Sent}
use qubes_core_qrexec.Io.Channel.Sender.Loop.{handle_input_v2-Sends}
use qubes_core_qrexec.Io.Channel.Receiver.{Receiver}
use qubes_core_qrexec.Io.Process.State.{
  Request, Process, Events, stdout_msg_type, is_open, all_closed, max_chunk, sender, send_eof,
  local_done, service_code,
}
use qubes_core_qrexec.Io.Process.Loop.{rounds, begin}
use qubes_core_qrexec.Io.Process.Rounds.{rounds-Keeps}
use qubes_core_qrexec.Io.Process.Kept.{Keeps, IsKept}

-- Messages of the data channel, one after the other.
abbrev pub wire : List (ℕ × Bytes) → Bytes
wire [] = []
wire ((type, s) ∷ ms) = frame type s ++ wire ms

abbrev pub IsData : Request → ℕ × Bytes → Type 0
IsData req (type, s) =
    ((type ≡ stdout_msg_type req) ⊎ (type ≡ msg_data_stderr)) × (length s ≤ max_chunk req)

-- Whole messages of stdout or stderr, none of them longer than a chunk.
pub record HasData (req : Request) (sent : Bytes) : Type 0 where
  pub messages : List (ℕ × Bytes)
  pub framed : sent ≡ wire messages
  pub data_only : All (IsData req) messages

-- The exit code of a service follows the data, once there is no more of it.
pub record HasEnded (req : Request) (p : Process) : Type 0 where
  pub before : Bytes
  pub has_data : HasData req before
  pub code_is_last : p.sent ≡ before ++ frame msg_data_exit_code (u32_bytes (service_code req p))
  pub is_service : req.is_service ≡ true
  pub closed : all_closed p ≡ true
  pub local_ended : local_done req p ≡ true

abbrev pub InLoop : Request → Process → Type 0
InLoop req p = HasData req p.sent

abbrev pub IsLeft : Request → Process → Type 0
IsLeft req p = InLoop req p ⊎ HasEnded req p

wire-++ : (a b : List (ℕ × Bytes)) → wire (a ++ b) ≡ wire a ++ wire b
wire-++ [] b = refl
wire-++ ((type, s) ∷ ms) b =
    ap (λ x. frame type s ++ x) (wire-++ ms b)
    ∙ sym (append_assoc (frame type s) (wire ms) (wire b))

All-++ :
    (req : Request) (a b : List (ℕ × Bytes))
    → All (IsData req) a
    → All (IsData req) b
    → All (IsData req) (a ++ b)
All-++ req [] b ha hb = hb
All-++ req (m ∷ a) b ha hb = (ha.0, All-++ req a b ha.1 hb)

-- More messages on top of what was sent.
more-HasData :
    (req : Request) (sent sent' : Bytes) (ms : List (ℕ × Bytes))
    → HasData req sent
    → sent' ≡ sent ++ wire ms
    → All (IsData req) ms
    → HasData req sent'
more-HasData req sent sent' ms h e a = record {
  messages = h.messages ++ ms;
  framed = e ∙ (ap (λ x. x ++ wire ms) h.framed ∙ sym (wire-++ h.messages ms));
  data_only = All-++ req h.messages ms h.data_only a;
}

typed : ℕ → List Bytes → List (ℕ × Bytes)
typed type [] = []
typed type (s ∷ ss) = (type, s) ∷ typed type ss

wire-typed : (type : ℕ) (ss : List Bytes) → wire (typed type ss) ≡ frames type ss
unfolding typed
wire-typed type [] = refl
wire-typed type (s ∷ ss) = ap (λ x. frame type s ++ x) (wire-typed type ss)

typed-IsData :
    (req : Request) (type : ℕ) (ss : List Bytes)
    → (type ≡ stdout_msg_type req) ⊎ (type ≡ msg_data_stderr)
    → All (λ s. length s ≤ max_chunk req) ss
    → All (IsData req) (typed type ss)
unfolding typed
typed-IsData req type [] t a = tt
typed-IsData req type (s ∷ ss) t a = ((t, a.0), typed-IsData req type ss t a.1)

-- The message of an empty chunk, sent or not.
eof-HasData :
    (req : Request) (type : ℕ) (p : Process)
    → (type ≡ stdout_msg_type req) ⊎ (type ≡ msg_data_stderr)
    → InLoop req p
    → InLoop req (send_eof type p)
unfolding send_eof
eof-HasData req type p t h =
    by_ok (send hdr (sender [] [] p)).0 (send hdr (sender [] [] p)).1
      (send-Sent hdr (sender [] [] p))
  where
    hdr : Bytes
    hdr = header_bytes (record { type = type; len = 0 })

    by_ok : (ok : Bool) (k : Sender) → Sent hdr (sender [] [] p) ok k → HasData req k.sent
    by_ok true k s =
        more-HasData req p.sent k.sent ((type, []) ∷ []) h
          (s.sent_if ∙ ap (λ x. p.sent ++ x) (sym (append-nil hdr ∙ append-nil hdr)))
          ((t, omega arith), tt)
    by_ok false k s = more-HasData req p.sent k.sent [] h s.sent_if tt

data-HasData :
    (req : Request) (p : Process) (type : ℕ) (k k' : Sender)
    → (type ≡ stdout_msg_type req) ⊎ (type ≡ msg_data_stderr)
    → k.sent ≡ p.sent
    → Sends type (max_chunk req) k k'
    → InLoop req p
    → HasData req k'.sent
data-HasData req p type k k' t e s h =
    more-HasData req p.sent k'.sent (typed type s.chunks) h
      (s.framed
        ∙ (ap (λ x. x ++ frames type s.chunks) e
            ∙ ap (λ x. p.sent ++ x) (sym (wire-typed type s.chunks))))
      (typed-IsData req type s.chunks t s.small)

-- A sent exit code is one message.
exit_code-sent :
    (status : ℕ) (k : Sender)
    → (send_exit_code status k).0 ≡ true
    → (send_exit_code status k).1.sent ≡ k.sent ++ frame msg_data_exit_code (u32_bytes status)
unfolding send_exit_code
exit_code-sent status k h = by_header (send hdr k).0 (send hdr k).1 (send-Sent hdr k) h
  where
    hdr : Bytes
    hdr = header_bytes (record { type = msg_data_exit_code; len = 4 })

    by_body :
        (k1 : Sender)
        → k1.sent ≡ k.sent ++ hdr
        → (ok : Bool) (k2 : Sender) → Sent (u32_bytes status) k1 ok k2
        → ok ≡ true
        → k2.sent ≡ k.sent ++ (hdr ++ u32_bytes status)
    by_body k1 e true k2 s q =
        s.sent_if ∙ (ap (λ x. x ++ u32_bytes status) e ∙ append_assoc k.sent hdr (u32_bytes status))
    by_body k1 e false k2 s q = absurd (cc q)

    by_header :
        (ok : Bool) (k1 : Sender)
        → Sent hdr k ok k1
        → (if ok then send (u32_bytes status) k1 else (false, k1)).0 ≡ true
        → (if ok then send (u32_bytes status) k1 else (false, k1)).1.sent
          ≡ k.sent ++ (hdr ++ u32_bytes status)
    by_header true k1 s q =
        by_body k1 s.sent_if (send (u32_bytes status) k1).0 (send (u32_bytes status) k1).1
          (send-Sent (u32_bytes status) k1) q
    by_header false k1 s q = absurd (cc q)

pub InLoop-IsKept : (req : Request) → IsKept req (InLoop req) (IsLeft req)
InLoop-IsKept req = record {
  quiet = λ p r prefix out err s h. h;
  sends_eof = λ p h. eof-HasData req (stdout_msg_type req) p (inl refl) h;
  sends_data = λ p type spaces prefix source t e h.
      data-HasData req p type (sender prefix source p) _ t refl
        (handle_input_v2-Sends type (max_chunk req) spaces (sender prefix source p) e) h;
  drops_stdin = λ p h. h;
  drops_stdout = λ p h. h;
  closes_stdin = λ p fd s e h. h;
  closes_stdout = λ p fd s e h. h;
  closes_stderr = λ p fd e h. h;
  drops_stderr = λ p h. h;
  one_socket = λ p h. h;
  left = λ p h. inl h;
  sends_exit_code = λ p a s l e h. inr (record {
    before = p.sent;
    has_data = h;
    code_is_last = exit_code-sent (service_code req p) (sender [] [] p) e;
    is_service = s;
    closed = a;
    local_ended = l;
  });
}

-- Whatever happens in the rounds of the loop of `qrexec_process_io`: while the loop goes on, what was put on the vchan is a sequence of whole messages of stdout or stderr, each with at most a chunk of the protocol version; where the loop is left this holds as well, or they are followed by one message with the exit code, which a service sends last and only once stdin, stdout and stderr are closed and the local process, if there is one, has ended.
pub rounds-IsLeft :
    (req : Request) (stdin_fd stdout_fd stderr_fd : Option ℕ) (prefix : Bytes) (receiver : Receiver)
    (write_results : List Bool) (events : List Events)
    → Keeps
        (InLoop req)
        (IsLeft req)
        (rounds req events (begin req stdin_fd stdout_fd stderr_fd prefix receiver write_results))
unfolding begin
rounds-IsLeft req stdin_fd stdout_fd stderr_fd prefix receiver write_results events =
    rounds-Keeps req (InLoop req) (IsLeft req) (InLoop-IsKept req) events _ (
      by_test (InLoop req) (req.is_service && not (is_open stderr_fd))
        (λ _. eof-HasData req msg_data_stderr _ (inr refl) nothing) (λ _. nothing))
  where
    nothing : HasData req []
    nothing = record { messages = []; framed = refl; data_only = tt }

-- ===== src/Io/Channel.antt =====
-- libqrexec/remote.c: the data channel between the two ends of a connection, and the loops of
-- libqrexec/txrx-vchan.c that it calls.
pub mod Sender
pub mod Receiver
use qubes_core_qrexec.Prelude.{ℕ, ◌+◌, ◌-◌, ◌/◌, List, [], ◌∷◌, ◌++◌, length, Bytes}
use qubes_core_qrexec.Protocol.{header_bytes}

-- REMOTE_EXITED, REMOTE_EOF, REMOTE_ERROR and REMOTE_OK.
pub data Rc : Type 0 where
  remote_exited remote_eof remote_error remote_ok : Rc

-- A message of the channel.
abbrev pub frame : ℕ → Bytes → Bytes
frame type s = header_bytes (record { type = type; len = length s }) ++ s

abbrev pub frames : ℕ → List Bytes → Bytes
frames type [] = []
frames type (s ∷ ss) = frame type s ++ frames type ss

abbrev pub concat : List Bytes → Bytes
concat [] = []
concat (s ∷ ss) = s ++ concat ss

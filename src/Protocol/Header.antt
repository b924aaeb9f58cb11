-- ===== src/Protocol/Header.antt =====
-- Headers and words, written and read.
use qubes_core_qrexec.Prelude.{[], append-nil, sym, ap, ◌∙◌, ℕ, ◌<◌, ◌≡◌, ◌++◌, Bytes, arith}
use qubes_core_qrexec.Protocol.Layout.{
  u32_mod, u32_bytes, u32_at, MsgHeader, header_bytes, header_at, ExecParams, exec_params_bytes,
  exec_params_at, read_exact,
}
use qubes_core_qrexec.Prelude.{some, length, length-append, take-append, drop-append}

pub u32_at-u32_bytes : (x : ℕ) (s : Bytes) → x < u32_mod → u32_at (u32_bytes x ++ s) ≡ x
u32_at-u32_bytes x s h = omega arith

pub header_at-header_bytes :
    (h : MsgHeader) (s : Bytes)
    → h.type < u32_mod
    → h.len < u32_mod
    → header_at (header_bytes h ++ s) ≡ h
header_at-header_bytes h s t l =
    ground (arith, u32_at-u32_bytes h.type s t, u32_at-u32_bytes h.len s l)

pub exec_params_at-exec_params_bytes :
    (p : ExecParams)
    → p.connect_domain < u32_mod
    → p.connect_port < u32_mod
    → exec_params_at (exec_params_bytes p) ≡ p
exec_params_at-exec_params_bytes p d t = ground (arith)

-- A block is read back whole from in front of what follows it.
pub read_exact-append : (a s : Bytes) (n : ℕ) → n ≡ length a → read_exact n (a ++ s) ≡ some (a, s)
read_exact-append a s n e =
    rw e (ground (arith, length-append a s, take-append a s, drop-append a s))

pub read_exact_all : (n : ℕ) (s : Bytes) → n ≡ length s → read_exact n s ≡ some (s, [])
read_exact_all n s e = ap (λ x. read_exact n x) (sym (append-nil s)) ∙ read_exact-append s [] n e

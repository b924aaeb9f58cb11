-- ===== src/Rpc/Service/Address.antt =====
-- The host and the port of a TCP service, in the three ways to write them.
use qubes_core_qrexec.Prelude.{
  ℕ, ◌≡◌, refl, sym, ap, ◌∙◌, inl, inr, true, false, Option, none, some, [], ◌∷◌, ◌++◌, arith, ◌==◌,
  if◌then◌else◌, ==_iff, Bool-cases, length, drop, Bytes, codes, split_at, contains,
  split_at-append,
}
use qubes_core_qrexec.Rpc.Command.{ParsedCommand}
use qubes_core_qrexec.Rpc.Find.{link, found}
use qubes_core_qrexec.Rpc.Port.{all_digits}
use qubes_core_qrexec.Rpc.Port.Range.{IsPort, validate_port_iff}
use qubes_core_qrexec.Io.Memory.{Buffer, ok, then_do}
use qubes_core_qrexec.Rpc.Service.{
  Network, must_be_ipv6_addr, qubes_tcp_connect, strrchr, host_from, in_link, nonempty_arg,
  from_argument, with_host, choose, tcp_address, with_arg, send_descriptor, connected, tcp_service,
  found_service,
}

-- A host in an argument: '+' in the place of each ':'.
abbrev pub host_text : Bytes → Bytes
host_text [] = []
host_text (c ∷ s) = (if c == b':' then b'+' else c) ∷ host_text s

abbrev pub dev_tcp : Bytes
dev_tcp = codes "/dev/tcp"

-- The target of the link and the argument that name a host and a port, and the argument afterwards.
pub data Names (host port : Bytes) : Bytes → Option Bytes → Option Bytes → Type 0 where
  in_argument :
      contains b'_' host ≡ false
      → contains b'+' host ≡ false
      → Names host port dev_tcp (some (host_text host ++ (b'+' ∷ port))) (some host)
  port_in_argument :
      contains b'/' host ≡ false
      → Names host port (dev_tcp ++ (b'/' ∷ host)) (some port) (some port)
  in_target :
      contains b'/' host ≡ false
      → Names host port (dev_tcp ++ (b'/' ∷ (host ++ (b'/' ∷ port)))) none none

host_from-host_text :
    (h : Bytes)
    → contains b'_' h ≡ false
    → contains b'+' h ≡ false
    → host_from (host_text h) ≡ some h
host_from-host_text [] u p = refl
host_from-host_text (c ∷ h) u p =
    let ih = host_from-host_text h (ground arith) (ground arith) in
    let u' : (c == b'_') ≡ false = ground arith in
    let p' : (c == b'+') ≡ false = ground arith in
    elim (Bool-cases (c == b':')) [
      | inl e ↦
          let eq : c ≡ b':' = (==_iff c b':').0 e in rw (e, ih) (ap (λ x. some (x ∷ h)) (sym eq))
      | inr e ↦ rw (e, u', p', ih) refl
    ]

strrchr-none : (c : ℕ) (s : Bytes) → contains c s ≡ false → strrchr c s ≡ none
strrchr-none c [] h = refl
strrchr-none c (x ∷ s) h =
    let e : (x == c) ≡ false = ground arith in rw (strrchr-none c s (ground arith), e) refl

strrchr-append :
    (c : ℕ) (a b : Bytes) → contains c b ≡ false → strrchr c (a ++ (c ∷ b)) ≡ some (a, b)
strrchr-append c [] b h = let e : (c == c) ≡ true = ground arith in rw (strrchr-none c b h, e) refl
strrchr-append c (x ∷ a) b h = rw (strrchr-append c a b h) refl

all_digits-contains : (s : Bytes) → all_digits s ≡ true → contains b'+' s ≡ false
all_digits-contains [] h = refl
all_digits-contains (c ∷ s) h =
    let e : (c == b'+') ≡ false = ground arith in rw (e, all_digits-contains s (ground arith)) refl

nonempty_arg-append :
    (a b : Bytes) (c : ℕ) → nonempty_arg (some (a ++ (c ∷ b))) ≡ some (a ++ (c ∷ b))
nonempty_arg-append [] b c = refl
nonempty_arg-append (x ∷ a) b c = refl

nonempty_arg-port : (port : Bytes) → IsPort port → nonempty_arg (some port) ≡ some port
nonempty_arg-port [] p = absurd (omega (arith, p.in_range))
nonempty_arg-port (c ∷ s) p = refl

split_at-absent : (c : ℕ) (s : Bytes) → contains c s ≡ false → split_at c s ≡ none
split_at-absent c [] h = refl
split_at-absent c (x ∷ s) h = ground (arith, split_at-absent c s (ground arith))

address :
    (host port path : Bytes) (arg arg' : Option Bytes)
    → IsPort port
    → Names host port path arg arg'
    → tcp_address (in_link (drop (length dev_tcp) path)) arg ≡ some (host, port, arg')
unfolding tcp_address
address host port _ _ _ p (in_argument u q) =
    ap (λ x. choose none none (some (host_text host ++ (b'+' ∷ port))) x)
      (nonempty_arg-append (host_text host) port b'+')
    ∙ (ap from_argument
          (strrchr-append b'+' (host_text host) port (all_digits-contains port p.digits))
        ∙ ap (λ x. with_host port x) (host_from-host_text host u q))
address host port _ _ _ p (port_in_argument h) =
    ap
      (λ x.
        tcp_address (elim x [ none ↦ (some host, none) | some (a, b) ↦ (some a, some b) ])
          (some port))
      (split_at-absent b'/' host h)
    ∙ ap (λ x. choose (some host) none (some port) x) (nonempty_arg-port port p)
address host port _ _ _ p (in_target h) =
    ap
      (λ x.
        tcp_address
          (elim x [ none ↦ (some (host ++ (b'/' ∷ port)), none) | some (a, b) ↦ (some a, some b) ])
          none)
      (split_at-append b'/' host port h)

connects :
    (net : Network) (host port : Bytes)
    → IsPort port
    → qubes_tcp_connect net host port ≡ net.tcp_connect host port (must_be_ipv6_addr host)
unfolding qubes_tcp_connect
connects net host port p = rw ((validate_port_iff port).1 p) refl

-- A link that names a host and a port with the argument, in one of three ways: both are in the argument, with '+' for ':', and the host has no '_' and no '+'; the host is in the link, has no '/', and the port is the argument; or both are in the link, the host has no '/', and there is no argument. If the port is a decimal numeral from 1 to 65535 without a leading zero, the service is a connection to this host and this port, asked for as IPv6 exactly if the host has a ':' or a '%', after the descriptor was put in the buffer if the command says so.
pub found_service-Names :
    (net : Network) (cmd : ParsedCommand) (host port path : Bytes) (arg' : Option Bytes)
    (b : Buffer) (total : ℕ)
    → IsPort port
    → Names host port path cmd.arg arg'
    → found_service net cmd (found path link) b total
      ≡ then_do (send_descriptor cmd b total) (λ b' total'.
        ok
          (connected (with_arg cmd arg') (net.tcp_connect host port (must_be_ipv6_addr host)), b')
          total')
unfolding found_service tcp_service
found_service-Names net cmd host port path arg' b total p n =
    ap (λ x. tcp_service net cmd x b total) (address host port path cmd.arg arg' p n)
    ∙ ap
        (λ x.
          then_do (send_descriptor cmd b total)
            (λ b' total'. ok (connected (with_arg cmd arg') x, b') total'))
        (connects net host port p)
